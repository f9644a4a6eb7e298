-- ===== src/Tpcomm/Link.antt =====
-- Sending and receiving in library/src/TPComm/dn_tpcomm.c: tp_send, tp_recv and send_receive.
use denso_ipc.Prelude.{
  ℕ, zero, suc, ◌+◌, ◌/◌, ◌%◌, ◌^◌, ◌==◌, if◌then◌else◌, true, false, List, Option, none, some,
  length,
}
use denso_ipc.Outcome.{
  Hresult, Outcome, ok, bind, catch, e_accessdenied, e_fail, e_invalidpacket, e_timeout,
}
use denso_ipc.Device.{conn_com}
use denso_ipc.Robotalk.{rtk_param2packet, rtk_send, rtk_cmd_nak}
use denso_ipc.Tpcomm.{
  Tp, Arrival, lost, arrived, Line, native_command, rtk_cmd_rej, tp_retry_nak, tp_retry_timeout,
  tp_tpless,
}

-- What a receiving function returns: an error, or what it stored behind its pointers.
pub data Receipt : Type 0 where
  missed : Hresult → Receipt
  got : ℕ → List ℕ → Receipt

abbrev length_of : Option (List ℕ) → ℕ
length_of none = 0
length_of (some payload) = length payload

-- `command_send |= RTK_RETRY_FLAG; command_send += RTK_RETRY_COUNT;`
unfoldable pub next_command : ℕ → ℕ
next_command command =
    (if command / 2 ^ 12 % 2 == 1 then command + 0x2000 else command + 0x3000) % 2 ^ 16

-- RTK_CMD_REJ for an answer is E_FAIL.
unfoldable pub rejected : Receipt → Receipt
rejected (missed e) = missed e
rejected (got command payload) =
    if native_command command == rtk_cmd_rej then missed e_fail else got command payload

-- After tp_recv: a timeout goes on with the next attempt.
unfoldable pub conclude {ℓ} :
    {W : Type ℓ}
    → (Tp W → W → Outcome (Receipt × Tp W × W))
    → Receipt × Tp W × W
    → Outcome (Receipt × Tp W × W)
unfolding rejected
conclude retry (missed e_timeout, tp, w) = retry tp w
conclude retry (receipt, tp, w) = ok (rejected receipt, tp, w)

module _ {ℓ} {W : Type ℓ} (line : Line W) where
  -- A failing call leaves the connection, and here the world of the driver, as they were.
  unfoldable pub tp_send : Tp W → ℕ → Option (List ℕ) → W → Outcome (Tp W × W)
  tp_send tp command payload w =
      bind
        (rtk_param2packet command payload (length_of payload) tp.from_id tp.to_id (some line.heap))
        (λ packet. bind (rtk_send tp.device (some packet) w) (λ sent.
          ok (record tp { last_packet = sent.1; ping_clock = line.sent_at command }, sent.0)))

  -- The received packet, or the next attempt.
  unfoldable pub take_packet :
      (Tp W → W → Outcome (Receipt × Tp W × W)) → Arrival → Tp W → W → Outcome (Receipt × Tp W × W)
  take_packet retry (lost e) tp w = ok (missed e, tp, w)
  take_packet retry (arrived p) tp w =
      if native_command p.command == rtk_cmd_nak
      then catch (rtk_send tp.device (some tp.last_packet) w) (λ e. ok (missed e, tp, w))
          (λ sent. retry (record tp { last_packet = sent.1 }) sent.0)
      else ok (got p.command p.payload, record tp { to_id = p.sender }, w)

  unfoldable pub receive :
      (Tp W → W → Outcome (Receipt × Tp W × W)) → Tp W → W → Outcome (Receipt × Tp W × W)
  unfolding take_packet
  receive retry tp w =
      bind (line.rtk_recv tp.device tp.client tp_retry_nak w)
        (λ r. take_packet retry r.0 (record tp { device = r.1 }) r.2)

  -- The modem's CTS bit, on a serial line.
  unfoldable pub check_cts :
      (Tp W → W → Outcome (Receipt × Tp W × W)) → Tp W → W → Outcome (Receipt × Tp W × W)
  check_cts rest tp w =
      if tp.device.kind == conn_com
      then (if line.modem w
          then rest (record tp { cts = true }) (if tp.cts then w else line.dn_clear w)
          else ok (missed e_accessdenied, record tp { cts = false }, w))
      else rest tp w

  -- The loop over `retry_cnt`, with the attempts that are left.
  unfoldable pub attempts : ℕ → Tp W → W → Outcome (Receipt × Tp W × W)
  unfolding receive check_cts
  attempts zero tp w = check_cts (receive (λ tp' w'. ok (missed e_invalidpacket, tp', w'))) tp w
  attempts (suc left) tp w = check_cts (receive (attempts left)) tp w

  unfoldable pub tp_recv : Tp W → W → Outcome (Receipt × Tp W × W)
  unfolding attempts
  tp_recv tp w = attempts tp_retry_nak tp w

  -- The loop over `retry_cnt` of send_receive.
  unfoldable pub exchange : ℕ → ℕ → List ℕ → Tp W → W → Outcome (Receipt × Tp W × W)
  unfolding conclude
  exchange zero command payload tp w =
      catch (tp_send tp command (some payload) w) (λ e. ok (missed e, tp, w))
        (λ s. bind (tp_recv s.0 s.1) (conclude (λ tp' w'. ok (missed e_timeout, tp', w'))))
  exchange (suc left) command payload tp w =
      catch (tp_send tp command (some payload) w) (λ e. ok (missed e, tp, w))
        (λ s. bind (tp_recv s.0 s.1) (conclude (exchange left (next_command command) payload)))

  -- The connection is open, its mutex got, and `seen` the state that was read before that.
  unfoldable pub send_receive : ℕ → ℕ → List ℕ → Tp W → W → Outcome (Receipt × Tp W × W)
  unfolding exchange
  send_receive seen command payload tp w =
      if seen == tp_tpless
      then ok (missed e_accessdenied, tp, w)
      else exchange tp_retry_timeout command payload tp w
