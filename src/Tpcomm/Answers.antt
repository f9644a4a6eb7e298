-- ===== src/Tpcomm/Answers.antt =====
-- The answers that send_receive of library/src/TPComm/dn_tpcomm.c accepts.
use denso_ipc.Prelude.{ℕ, zero, suc, ◌≢◌, ◌==◌, Bool-cases, inl, inr, true, List, some, arith}
use denso_ipc.Outcome.{Outcome, ok, bind, catch, e_invalidpacket, e_timeout}
use denso_ipc.Outcome.All.{All, bind-All, catch-All, if-All, any-All}
use denso_ipc.Device.{conn_com}
use denso_ipc.Robotalk.{rtk_send, rtk_cmd_nak}
use denso_ipc.Tpcomm.{
  Tp, Arrival, lost, arrived, Line, native_command, rtk_cmd_rej, tp_tpless, tp_retry_nak,
  tp_retry_timeout,
}
use denso_ipc.Tpcomm.Link.{
  Receipt, missed, got, tp_send, take_packet, receive, check_cts, attempts, tp_recv, next_command,
  rejected, conclude, exchange, send_receive,
}

-- Neither a NAK nor a rejection.
unfoldable pub IsAnswer : Receipt → Type 0
IsAnswer (missed e) = Unit
IsAnswer (got command payload) =
    (native_command command ≢ rtk_cmd_nak) × (native_command command ≢ rtk_cmd_rej)

unfoldable pub IsNoNak : Receipt → Type 0
IsNoNak (missed e) = Unit
IsNoNak (got command payload) = native_command command ≢ rtk_cmd_nak

rejected-IsAnswer : (r : Receipt) → IsNoNak r → IsAnswer (rejected r)
unfolding rejected IsAnswer IsNoNak
rejected-IsAnswer (missed e) h = tt
rejected-IsAnswer (got command payload) h = ground arith

module _ {ℓ} {W : Type ℓ} (line : Line W) where
  NoNak : (Tp W → W → Outcome (Receipt × Tp W × W)) → Type ℓ
  NoNak f = (tp : Tp W) (w : W) → All (λ (r : Receipt × Tp W × W). IsNoNak r.0) (f tp w)

  Answers : (Tp W → W → Outcome (Receipt × Tp W × W)) → Type ℓ
  Answers f = (tp : Tp W) (w : W) → All (λ (r : Receipt × Tp W × W). IsAnswer r.0) (f tp w)

  take_packet-NoNak :
      (retry : Tp W → W → Outcome (Receipt × Tp W × W)) (a : Arrival)
      → NoNak retry
      → NoNak (take_packet line retry a)
  unfolding take_packet All NoNak IsNoNak
  take_packet-NoNak retry (lost e) k tp w = tt
  take_packet-NoNak retry (arrived p) k tp w =
      elim (Bool-cases (native_command p.command == rtk_cmd_nak)) [
        | inl e ↦ rw e (
            catch-All (λ _. Unit {0}) (λ (r : Receipt × Tp W × W). IsNoNak r.0)
              (rtk_send tp.device (some tp.last_packet) w) _ _ (any-All _ _ (λ _. tt)) (λ e. tt)
              (λ sent _. k (record tp { last_packet = sent.1 }) sent.0))
        | inr e ↦ rw e (ground arith)
      ]

  receive-NoNak :
      (retry : Tp W → W → Outcome (Receipt × Tp W × W)) → NoNak retry → NoNak (receive line retry)
  unfolding receive NoNak
  receive-NoNak retry k tp w =
      bind-All (λ _. Unit {0}) (λ (r : Receipt × Tp W × W). IsNoNak r.0)
        (line.rtk_recv tp.device tp.client tp_retry_nak w) _ (any-All _ _ (λ _. tt))
        (λ r _. take_packet-NoNak retry r.0 k (record tp { device = r.1 }) r.2)

  check_cts-NoNak :
      (rest : Tp W → W → Outcome (Receipt × Tp W × W)) → NoNak rest → NoNak (check_cts line rest)
  unfolding check_cts All NoNak IsNoNak
  check_cts-NoNak rest k tp w =
      if-All (λ (r : Receipt × Tp W × W). IsNoNak r.0) (tp.device.kind == conn_com) _ _
        (if-All (λ (r : Receipt × Tp W × W). IsNoNak r.0) (line.modem w) _ _
          (k (record tp { cts = true }) _) tt)
        (k tp w)

  attempts-NoNak : (left : ℕ) → NoNak (attempts line left)
  unfolding attempts NoNak All IsNoNak
  attempts-NoNak zero =
      check_cts-NoNak _
        (receive-NoNak (λ tp' w'. ok (missed e_invalidpacket, tp', w')) (λ tp w. tt))
  attempts-NoNak (suc left) = check_cts-NoNak _ (receive-NoNak _ (attempts-NoNak left))

  conclude-Answers :
      (retry : Tp W → W → Outcome (Receipt × Tp W × W)) (r : Receipt × Tp W × W)
      → IsNoNak r.0
      → Answers retry
      → All (λ (r' : Receipt × Tp W × W). IsAnswer r'.0) (conclude retry r)
  unfolding conclude All Answers IsAnswer
  conclude-Answers retry (missed e_timeout, tp, w) h k = k tp w
  conclude-Answers retry (missed _, tp, w) h k = tt
  conclude-Answers retry (got command payload, tp, w) h k =
      rejected-IsAnswer (got command payload) h

  round-Answers :
      (command : ℕ) (payload : List ℕ) (retry : Tp W → W → Outcome (Receipt × Tp W × W))
      → Answers retry
      → Answers (λ tp w.
        catch
          (tp_send line tp command (some payload) w)
          (λ e. ok (missed e, tp, w))
          (λ s. bind (tp_recv line s.0 s.1) (conclude retry)))
  unfolding Answers All tp_recv NoNak IsAnswer
  round-Answers command payload retry k tp w =
      catch-All (λ _. Unit {0}) (λ (r : Receipt × Tp W × W). IsAnswer r.0)
        (tp_send line tp command (some payload) w) _ _ (any-All _ _ (λ _. tt)) (λ e. tt)
        (λ s _.
          bind-All (λ (r : Receipt × Tp W × W). IsNoNak r.0)
            (λ (r : Receipt × Tp W × W). IsAnswer r.0) (tp_recv line s.0 s.1) _
            (attempts-NoNak tp_retry_nak s.0 s.1) (λ r h. conclude-Answers retry r h k))

  exchange-Answers :
      (left command : ℕ) (payload : List ℕ) → Answers (exchange line left command payload)
  unfolding exchange Answers All IsAnswer
  exchange-Answers zero command payload =
      round-Answers command payload (λ tp' w'. ok (missed e_timeout, tp', w')) (λ tp w. tt)
  exchange-Answers (suc left) command payload =
      round-Answers command payload _ (exchange-Answers left (next_command command) payload)

  -- If send_receive returns a packet, its command is, whatever its bits for retries, neither RTK_CMD_NAK nor RTK_CMD_REJ.
  pub send_receive-IsAnswer :
      (seen command : ℕ) (payload : List ℕ) (tp : Tp W) (w : W)
      → All (λ (r : Receipt × Tp W × W). IsAnswer r.0) (send_receive line seen command payload tp w)
  unfolding send_receive Answers All IsAnswer
  send_receive-IsAnswer seen command payload tp w =
      if-All (λ (r : Receipt × Tp W × W). IsAnswer r.0) (seen == tp_tpless) _ _ tt
        (exchange-Answers tp_retry_timeout command payload tp w)
