-- ===== src/Tpcomm/Requests.antt =====
-- TPComm_GetTPState, TPComm_BEEP, TPComm_LED and TPComm_LCD of library/src/TPComm/dn_tpcomm.c.
use denso_ipc.Prelude.{ℕ, ◌==◌, if◌then◌else◌, List, Option, none, some}
use denso_ipc.Outcome.{Hresult, Outcome, ok, err, bind, e_handle, e_invalidarg}
use denso_ipc.Robotalk.{to_be}
use denso_ipc.Tpcomm.{Tp, Line}
use denso_ipc.Tpcomm.Link.{Receipt, missed, got, send_receive}

abbrev pub tp_cmd_beep : ℕ
tp_cmd_beep = 0x0C28

abbrev pub tp_cmd_led_on : ℕ
tp_cmd_led_on = 0x0C29

abbrev pub tp_cmd_led_off : ℕ
tp_cmd_led_off = 0x0C2A

abbrev pub tp_cmd_led_flash : ℕ
tp_cmd_led_flash = 0x0C2B

abbrev pub tp_cmd_lcd : ℕ
tp_cmd_lcd = 0x0C49

-- TP_CONN_MAX is 1: the connection, or none where the index is another or its socket is 0. The index is an `int` as 32 bits.
unfoldable pub tp_address {ℓ} : {W : Type ℓ} → ℕ → Tp W → Option (Tp W)
tp_address fd tp = if fd == 1 then (if tp.device.sock == 0 then none else some tp) else none

-- The code of a call, none for S_OK.
abbrev pub code_of : Receipt → Option Hresult
code_of (missed e) = some e
code_of (got command payload) = none

unfoldable pub get_tp_state {ℓ} : {W : Type ℓ} → ℕ → Tp W → Outcome ℕ
unfolding tp_address
get_tp_state fd tp = elim (tp_address fd tp) [ none ↦ err e_handle | some t ↦ ok t.state ]

module _ {ℓ} {W : Type ℓ} (line : Line W) (fd : ℕ) (tp : Tp W) (w : W) where
  -- send_receive behind its check of the index.
  unfoldable pub request : ℕ → List ℕ → Outcome (Option Hresult × Tp W × W)
  request command payload = elim (tp_address fd tp) [
    | none ↦ ok (some e_handle, tp, w)
    | some t ↦
        bind (send_receive line t.state command payload t w) (λ r. ok (code_of r.0, r.1, r.2))
  ]

  -- A number is an `int16_t` as 16 bits.
  unfoldable pub beep : ℕ → Outcome (Option Hresult × Tp W × W)
  beep time = request tp_cmd_beep (to_be time)

  unfoldable pub lcd : ℕ → Outcome (Option Hresult × Tp W × W)
  lcd contrast = request tp_cmd_lcd (to_be contrast)

  unfoldable pub led : ℕ → ℕ → Outcome (Option Hresult × Tp W × W)
  led number state =
      if state == 0
      then request tp_cmd_led_off (to_be number)
      else if state == 1
      then request tp_cmd_led_on (to_be number)
      else if state == 2
      then request tp_cmd_led_flash (to_be number)
      else ok (some e_invalidarg, tp, w)
