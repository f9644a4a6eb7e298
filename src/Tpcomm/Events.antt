-- ===== src/Tpcomm/Events.antt =====
-- What the threads of library/src/TPComm/dn_tpcomm.c do: receive_execute with tp_callfunc.
use denso_ipc.Prelude.{
  ℕ, ◌+◌, ◌*◌, ◌%◌, ◌^◌, ◌==◌, ltb, ◌||◌, if◌then◌else◌, Bool, List, [], ◌∷◌, ◌++◌, Option, none,
  some, length, take, drop, of_le, to_le,
}
use denso_ipc.Outcome.{Outcome, ok, bind, catch, e_accessdenied}
use denso_ipc.Codes.{failed, s_ok, e_notimpl, e_invalidarg, e_outofmemory}
use denso_ipc.Robotalk.{rtk_cmd_nak}
use denso_ipc.Time.{calc_time_diff}
use denso_ipc.Tpcomm.{
  Tp, Line, native_command, tp_disconnect, tp_connect, tp_tpless, tp_tperror, tp_cmd_special,
  tp_cmd_req_id, tp_cmd_keyinfo, tp_cmd_touchinfo, tp_cmd_ping, rtk_cmd_ack, rtk_cmd_rej,
}
use denso_ipc.Tpcomm.Link.{Receipt, missed, got, tp_send, tp_recv}

-- A call of the application: the `int` of a state as 32 bits, the 64 bits of TP_KEY_INFO, or mode and position of a touch.
pub data Notice : Type 0 where
  told : ℕ → Notice
  key : ℕ → Notice
  touch : ℕ → ℕ → ℕ → Notice

-- CALL_FUNC_TP: the codes of the functions, none for NULL.
pub record Callbacks : Type 0 where
  pub call_state : Option (ℕ → ℕ)
  pub call_key : Option (ℕ → ℕ)
  pub call_touch : Option (ℕ → ℕ → ℕ → ℕ)

-- The code, and the call that is made.
abbrev pub notify_state : Option (ℕ → ℕ) → ℕ → ℕ × List Notice
notify_state none n = (e_notimpl, [])
notify_state (some f) n = (f n, told n ∷ [])

abbrev pub notify_key : Option (ℕ → ℕ) → ℕ → ℕ × List Notice
notify_key none n = (e_notimpl, [])
notify_key (some f) n = (f n, key n ∷ [])

abbrev pub notify_touch : Option (ℕ → ℕ → ℕ → ℕ) → ℕ → ℕ → ℕ → ℕ × List Notice
notify_touch none mode x y = (e_notimpl, [])
notify_touch (some f) mode x y = (f mode x y, touch mode x y ∷ [])

-- The first bytes as one number, the highest first.
abbrev pub number_be : ℕ → List ℕ → ℕ
number_be n [] = n
number_be n (b ∷ bs) = number_be (n * 256 + b) bs

-- `pos * 8 + 4` in uint16_t.
abbrev pub position : List ℕ → ℕ
position bytes = (number_be 0 bytes * 8 + 4) % 2 ^ 16

unfoldable pub tp_callfunc : (ℕ → Bool) → Callbacks → ℕ → List ℕ → ℕ × List Notice
tp_callfunc malloc func command payload =
    if command == tp_cmd_special
    then (if length payload == 4
        then notify_state func.call_state (of_le payload)
        else (e_invalidarg, []))
    else if command == tp_cmd_req_id
    then (s_ok, [])
    else if command == tp_cmd_keyinfo
    then (if length payload == 8
        then (if malloc 8
            then notify_key func.call_key (number_be 0 payload)
            else (e_outofmemory, []))
        else (e_invalidarg, []))
    else if command == tp_cmd_touchinfo
    then (if length payload == 5
        then (if malloc 6
            then notify_touch func.call_touch (number_be 0 (take 1 payload))
                (position (take 2 (drop 1 payload))) (position (drop 3 payload))
            else (e_outofmemory, []))
        else (e_invalidarg, []))
    else (e_notimpl, [])

-- A connection, the world of its driver, and the calls of the application, the latest first.
pub record System {ℓ} (W : Type ℓ) : Type ℓ where
  pub tp : Tp W
  pub world : W
  pub calls : List Notice

-- What becomes of the state: nothing, the new one, or the new one with a call of the application.
pub data Decision : Type 0 where
  stay quiet : Decision
  report : ℕ → Decision

abbrev pub tperror_timeout : ℕ
tperror_timeout = 10000

abbrev pub tpless_interval : ℕ
tpless_interval = 10000

-- The two `switch`es over the state and the temporary state.
unfoldable pub decide_state : ℕ → ℕ → ℕ → Decision
decide_state state tmp diff =
    if state == tp_connect
    then (if tmp == tp_connect
        then quiet
        else if tmp == tp_tpless
        then report tp_disconnect
        else if tmp == tp_tperror
        then (if ltb tperror_timeout diff then report tp_disconnect else stay)
        else stay)
    else if (state == tp_tpless) || (state == tp_tperror)
    then (if tmp == tp_connect
        then report tp_connect
        else if (tmp == tp_tpless) || (tmp == tp_tperror)
        then (if ltb tpless_interval diff then report tmp else stay)
        else stay)
    else stay

abbrev pub is_silent : ℕ → Bool
is_silent command =
    (command == rtk_cmd_rej) || ((command == rtk_cmd_ack) || (command == rtk_cmd_nak))

module _ {ℓ} {W : Type ℓ} (line : Line W) (func : Callbacks) where
  abbrev pub set_state : ℕ → Tp W → Tp W
  set_state tmp tp = record tp { state = tmp; check_clock = line.now }

  unfoldable pub apply : Decision → ℕ → System W → System W
  apply stay tmp s = s
  apply quiet tmp s = record s { tp = set_state tmp s.tp }
  apply (report n) tmp s = record s {
    tp = set_state tmp s.tp;
    calls = (tp_callfunc line.malloc func tp_cmd_special (to_le 4 n)).1 ++ s.calls;
  }

  -- From `Updates TP state` on.
  unfoldable pub update_state : ℕ → System W → System W
  unfolding decide_state apply
  update_state tmp s =
      apply (decide_state s.tp.state tmp (calc_time_diff s.tp.check_clock line.now)) tmp s

  -- Behind the response: a request ID off the connected state is followed by a ping.
  unfoldable pub after_response : ℕ → ℕ → System W → Outcome (System W)
  unfolding update_state
  after_response command tmp s =
      if tmp == tp_connect
      then ok (update_state tmp s)
      else if command == tp_cmd_req_id
      then catch (tp_send line s.tp tp_cmd_ping none s.world) (λ e. ok (update_state tmp s))
          (λ sent. ok (update_state tmp (record s { tp = sent.0; world = sent.1 })))
      else ok (update_state tp_connect s)

  -- A received command: the application is called, and the result sent.
  unfoldable pub respond : ℕ → List ℕ → System W → Outcome (System W)
  unfolding tp_callfunc after_response
  respond command payload s =
      let done = tp_callfunc line.malloc func command payload in
      let s' = record s { calls = done.1 ++ s.calls } in
      if is_silent command
      then after_response command s.tp.state s
      else catch
          (tp_send line s.tp (if failed done.0 then rtk_cmd_rej else rtk_cmd_ack) (some []) s.world)
          (λ e. ok s')
          (λ sent. after_response command s.tp.state (record s' { tp = sent.0; world = sent.1 }))

  unfoldable pub handle : List Notice → Receipt × Tp W × W → Outcome (System W)
  unfolding respond
  handle calls (missed e_accessdenied, tp, w) =
      ok (update_state tp_tpless (record { tp = tp; world = w; calls = calls }))
  handle calls (missed e, tp, w) =
      ok (update_state tp_tperror (record { tp = tp; world = w; calls = calls }))
  handle calls (got command payload, tp, w) =
      respond (native_command command) payload (record { tp = tp; world = w; calls = calls })

  -- With the mutex got, and without its code, which recv_thread ignores.
  unfoldable pub receive_execute : System W → Outcome (System W)
  unfolding handle
  receive_execute s = bind (tp_recv line s.tp s.world) (handle s.calls)
