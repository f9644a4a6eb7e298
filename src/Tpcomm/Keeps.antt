-- ===== src/Tpcomm/Keeps.antt =====
-- What the parts of library/src/TPComm/dn_tpcomm.c that send and receive leave of a connection.
use denso_ipc.Prelude.{ℕ, zero, suc, ◌≡◌, refl, ◌∙◌, ◌==◌, Bool, true, List, Option, some}
use denso_ipc.Outcome.{Outcome, ok, bind, catch, e_invalidpacket, e_timeout}
use denso_ipc.Outcome.All.{All, map-All, bind-All, catch-All, if-All, any-All}
use denso_ipc.Device.{ConnParamCommon, conn_com}
use denso_ipc.Robotalk.{rtk_send, rtk_cmd_nak}
use denso_ipc.Tpcomm.{
  Tp, Arrival, lost, arrived, Line, native_command, tp_tpless, tp_retry_nak, tp_retry_timeout,
}
use denso_ipc.Tpcomm.Link.{
  Receipt, missed, got, tp_send, take_packet, receive, check_cts, attempts, tp_recv, next_command,
  conclude, exchange, send_receive,
}

-- The state and the clock of its last change stay.
abbrev pub SameState {ℓ} : {W : Type ℓ} → Tp W → Tp W → Type 0
SameState tp tp' = (tp'.state ≡ tp.state) × (tp'.check_clock ≡ tp.check_clock)

-- The command of a packet satisfies a predicate.
unfoldable pub Carries : (ℕ → Type 0) → Arrival → Type 0
Carries P (lost e) = Unit
Carries P (arrived p) = P (native_command p.command)

any-Carries : (a : Arrival) → Carries (λ _. Unit) a
unfolding Carries
any-Carries (lost e) = tt
any-Carries (arrived p) = tt

unfoldable pub Brings : (ℕ → Type 0) → Receipt → Type 0
Brings P (missed e) = Unit
Brings P (got command payload) = P (native_command command)

-- So do the commands of the packets that rtk_recv delivers.
unfoldable pub Delivers {ℓ} : {W : Type ℓ} → Line W → (ℕ → Type 0) → Type ℓ
Delivers {W = W} line P =
    (device : ConnParamCommon W) (client : Bool) (w : W)
    → All (λ (r : Arrival × ConnParamCommon W × W). Carries P r.0)
        (line.rtk_recv device client tp_retry_nak w)

-- What a receipt leaves of the connection it started with.
unfoldable pub Kept {ℓ} : {W : Type ℓ} (P : ℕ → Type 0) → Tp W → Receipt × Tp W × W → Type 0
Kept P tp r = SameState tp r.1 × Brings P r.0

module _ {ℓ} {W : Type ℓ} (line : Line W) where
  pub tp_send-SameState :
      (tp : Tp W) (command : ℕ) (payload : Option (List ℕ)) (w : W)
      → All (λ (r : Tp W × W). SameState tp r.0) (tp_send line tp command payload w)
  unfolding tp_send All
  tp_send-SameState tp command payload w =
      bind-All (λ _. Unit {0}) (λ (r : Tp W × W). SameState tp r.0) _ _ (any-All _ _ (λ _. tt))
        (λ packet _.
          bind-All (λ _. Unit {0}) (λ (r : Tp W × W). SameState tp r.0)
            (rtk_send tp.device (some packet) w)
            (λ sent.
              ok (record tp { last_packet = sent.1; ping_clock = line.sent_at command }, sent.0))
            (any-All _ _ (λ _. tt)) (λ sent _. (refl, refl)))

module _ {ℓ} {W : Type ℓ} (line : Line W) (P : ℕ → Type 0) where
  Keeps : (Tp W → W → Outcome (Receipt × Tp W × W)) → Type ℓ
  Keeps f = (tp : Tp W) (w : W) → All (Kept P tp) (f tp w)

  take_packet-Keeps :
      (retry : Tp W → W → Outcome (Receipt × Tp W × W)) (a : Arrival)
      → Carries P a
      → Keeps retry
      → Keeps (take_packet line retry a)
  unfolding take_packet All Kept Keeps Carries Brings
  take_packet-Keeps retry (lost e) o k tp w = ((refl, refl), tt)
  take_packet-Keeps retry (arrived p) o k tp w =
      if-All (Kept P tp) (native_command p.command == rtk_cmd_nak) _ _
        (catch-All (λ _. Unit {0}) (Kept P tp) (rtk_send tp.device (some tp.last_packet) w) _ _
          (any-All _ _ (λ _. tt)) (λ e. ((refl, refl), tt))
          (λ sent _. k (record tp { last_packet = sent.1 }) sent.0))
        ((refl, refl), o)

  receive-Keeps :
      (retry : Tp W → W → Outcome (Receipt × Tp W × W))
      → Delivers line P
      → Keeps retry
      → Keeps (receive line retry)
  unfolding receive Keeps Kept Delivers
  receive-Keeps retry o k tp w =
      bind-All (λ (r : Arrival × ConnParamCommon W × W). Carries P r.0) (Kept P tp)
        (line.rtk_recv tp.device tp.client tp_retry_nak w) _ (o tp.device tp.client w)
        (λ r c. take_packet-Keeps retry r.0 c k (record tp { device = r.1 }) r.2)

  check_cts-Keeps :
      (rest : Tp W → W → Outcome (Receipt × Tp W × W)) → Keeps rest → Keeps (check_cts line rest)
  unfolding check_cts All Kept Keeps Brings
  check_cts-Keeps rest k tp w =
      if-All (Kept P tp) (tp.device.kind == conn_com) _ _
        (if-All (Kept P tp) (line.modem w) _ _ (k (record tp { cts = true }) _) ((refl, refl), tt))
        (k tp w)

  attempts-Keeps : (left : ℕ) → Delivers line P → Keeps (attempts line left)
  unfolding attempts Keeps All Kept Brings
  attempts-Keeps zero o = check_cts-Keeps _ (
      receive-Keeps (λ tp' w'. ok (missed e_invalidpacket, tp', w')) o (λ tp w. ((refl, refl), tt)))
  attempts-Keeps (suc left) o = check_cts-Keeps _ (receive-Keeps _ o (attempts-Keeps left o))

  pub tp_recv-Kept : Delivers line P → (tp : Tp W) (w : W) → All (Kept P tp) (tp_recv line tp w)
  unfolding tp_recv Keeps
  tp_recv-Kept o = attempts-Keeps tp_retry_nak o

module _ {ℓ} {W : Type ℓ} (line : Line W) where
  -- The state stays.
  Stays : (Tp W → W → Outcome (Receipt × Tp W × W)) → Type ℓ
  Stays f = (tp : Tp W) (w : W) → All (λ (r : Receipt × Tp W × W). SameState tp r.1) (f tp w)

  conclude-Stays :
      (retry : Tp W → W → Outcome (Receipt × Tp W × W)) (tp : Tp W) (r : Receipt × Tp W × W)
      → SameState tp r.1
      → Stays retry
      → All (λ (r' : Receipt × Tp W × W). SameState tp r'.1) (conclude retry r)
  unfolding conclude All Stays
  conclude-Stays retry tp (missed e_timeout, tp', w) h k =
      map-All (λ (r : Receipt × Tp W × W). SameState tp' r.1)
        (λ (r : Receipt × Tp W × W). SameState tp r.1) (retry tp' w) (k tp' w)
        (λ r e. (e.0 ∙ h.0, e.1 ∙ h.1))
  conclude-Stays retry tp (missed _, tp', w) h k = h
  conclude-Stays retry tp (got command payload, tp', w) h k = h

  -- A packet is sent, and what comes back of it concluded.
  round-Stays :
      (command : ℕ) (payload : List ℕ) (retry : Tp W → W → Outcome (Receipt × Tp W × W))
      → Stays retry
      → Stays (λ tp w.
        catch
          (tp_send line tp command (some payload) w)
          (λ e. ok (missed e, tp, w))
          (λ s. bind (tp_recv line s.0 s.1) (conclude retry)))
  unfolding Stays All Kept Delivers
  round-Stays command payload retry k tp w =
      catch-All (λ (s : Tp W × W). SameState tp s.0) (λ (r : Receipt × Tp W × W). SameState tp r.1)
        (tp_send line tp command (some payload) w) _ _
        (tp_send-SameState line tp command (some payload) w) (λ e. (refl, refl))
        (λ s h.
          bind-All (λ (r : Receipt × Tp W × W). SameState tp r.1)
            (λ (r : Receipt × Tp W × W). SameState tp r.1) (tp_recv line s.0 s.1) _
            (map-All (Kept (λ _. Unit) s.0) (λ (r : Receipt × Tp W × W). SameState tp r.1) _
              (tp_recv-Kept line (λ _. Unit) (λ device client w. any-All _ _ (λ r. any-Carries r.0))
                s.0 s.1)
              (λ r e. (e.0.0 ∙ h.0, e.0.1 ∙ h.1)))
            (λ r e. conclude-Stays retry tp r e k))

  exchange-Stays :
      (left command : ℕ) (payload : List ℕ) → Stays (exchange line left command payload)
  unfolding exchange Stays All
  exchange-Stays zero command payload =
      round-Stays command payload (λ tp' w'. ok (missed e_timeout, tp', w')) (λ tp w. (refl, refl))
  exchange-Stays (suc left) command payload =
      round-Stays command payload _ (exchange-Stays left (next_command command) payload)

  pub send_receive-SameState :
      (seen command : ℕ) (payload : List ℕ) (tp : Tp W) (w : W)
      → All
          (λ (r : Receipt × Tp W × W). SameState tp r.1)
          (send_receive line seen command payload tp w)
  unfolding send_receive Stays All
  send_receive-SameState seen command payload tp w =
      if-All (λ (r : Receipt × Tp W × W). SameState tp r.1) (seen == tp_tpless) _ _ (refl, refl)
        (exchange-Stays tp_retry_timeout command payload tp w)
