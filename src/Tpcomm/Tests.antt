-- ===== src/Tpcomm/Tests.antt =====
-- A pendant on a UDP port that answers with a key, a ping or not at all.
use denso_ipc.Prelude.{
  subst, of_le, to_le, ℕ, ◌≡◌, refl, if◌then◌else◌, Bool, true, false, List, [], ◌∷◌, none, some,
  replicate, arith,
}
use denso_ipc.Outcome.{Outcome, ok, e_timeout}
use denso_ipc.Device.{ConnParamCommon, SendArg, conn_udp}
use denso_ipc.Tpcomm.{Tp, Incoming, lost, arrived, Line, tp_cmd_keyinfo, tp_connect, tp_tpless}
use denso_ipc.Tpcomm.Events.{Notice, told, key, Callbacks, System, receive_execute}
use denso_ipc.Tpcomm.Sync.{IsInSync, last_state}
use denso_ipc.Tpcomm.Link.{attempts, check_cts, receive, take_packet}
use denso_ipc.Tpcomm.Events.{
  handle, respond, tp_callfunc, after_response, update_state, decide_state, apply,
}
use denso_ipc.Robotalk.{
  rtk_param2packet, put_header, put_data, to_be, rtk_send, rtk_arg, rtk_put, set_sum, rtk_calc_crc,
  clamp, sum_bytes,
}
use denso_ipc.Bcap.Writer.{store}
use denso_ipc.Bcap.Reader.{load}
use denso_ipc.Device.{check_conn_param, has, lacks}
use denso_ipc.Outcome.All.{All}
use denso_ipc.Time.{calc_time_diff, later, calc_time_diff-later}
use denso_ipc.Tpcomm.{tp_tperror, tp_disconnect}
use denso_ipc.Tpcomm.Link.{Receipt, tp_recv, send_receive, tp_send}
use denso_ipc.Tpcomm.Keeps.{Carries, Delivers}
use denso_ipc.Tpcomm.Steps.{receives, still, onward, Reaches-IsInSync}
use denso_ipc.Tpcomm.Answers.{IsAnswer, send_receive-IsAnswer}
use denso_ipc.Tpcomm.Loss.{receive_execute-lost}
use denso_ipc.Tpcomm.Loss.Told.{receive_all, receive_all-told}
use denso_ipc.Outcome.{e_accessdenied, Hresult}
use denso_ipc.Device.{is_closed}
use denso_ipc.Prelude.{◌≢◌, ◌^◌, ◌-◌}

-- The world is what was sent, the latest first.
abbrev keep : List (List ℕ) → ℕ → List ℕ → SendArg → Outcome (List (List ℕ))
keep sent sock buf parg = ok (buf ∷ sent)

abbrev pub port : ConnParamCommon (List (List ℕ))
port = record {
  sock = 3;
  kind = conn_udp;
  arg = some (127 ∷ []);
  dn_send = some keep;
  dn_open = true;
  dn_close = true;
  dn_recv = true;
  dn_set_timeout = true;
  dn_clear = true;
}

abbrev pendant : Tp (List (List ℕ))
pendant = record {
  device = port;
  client = false;
  init = true;
  state = tp_tpless;
  cts = false;
  from_id = 1;
  to_id = 2;
  ping_clock = 0;
  init_clock = 0;
  check_clock = 0;
  last_packet = replicate 256 0;
}

abbrev pressed : Incoming
pressed = record {
  command = tp_cmd_keyinfo;
  payload = 0 ∷ 0 ∷ 0 ∷ 0 ∷ 0 ∷ 0 ∷ 1 ∷ 2 ∷ [];
  sender = 7;
}

-- A key comes if `talks`, else nothing in time.
abbrev pub line : Bool → ℕ → Line (List (List ℕ))
line talks now = record {
  heap = replicate 256 9;
  malloc = λ n. true;
  modem = λ w. true;
  dn_clear = λ w. w;
  rtk_recv =
      λ device client retry w. ok (if talks then arrived pressed else lost e_timeout, device, w);
  sent_at = λ command. now;
  now = now;
}

abbrev told_of : Callbacks
told_of = record { call_state = some (λ n. 0); call_key = some (λ n. 0); call_touch = none }

abbrev opened : System (List (List ℕ))
opened = record { tp = pendant; world = []; calls = [] }

-- The calls and the number of packets after an event.
abbrev after : Outcome (System (List (List ℕ))) → List Notice × ℕ
after (ok s) = (s.calls, s.tp.state)
after _ = ([], 9)

pressed_key :
    after (receive_execute (line true 5) told_of opened)
    ≡ (told tp_connect ∷ key 0x102 ∷ [], tp_connect)
unfolding receive_execute tp_recv attempts check_cts receive take_packet handle respond tp_callfunc
    after_response update_state decide_state apply tp_send rtk_param2packet put_header put_data
    store to_be rtk_send check_conn_param has lacks rtk_arg rtk_put load set_sum rtk_calc_crc clamp
    sum_bytes of_le to_le calc_time_diff is_closed
pressed_key = refl

-- A pendant that is connected, and one that was told so.
abbrev pub connected : System (List (List ℕ))
connected = record {
  tp = record pendant { state = tp_connect };
  world = [];
  calls = told tp_connect ∷ [];
}

abbrev disconnected : System (List (List ℕ))
disconnected = record {
  tp = record pendant { state = tp_tperror; check_clock = 20000 };
  world = [];
  calls = told tp_disconnect ∷ told tp_connect ∷ [];
}

connected-IsInSync : IsInSync connected
unfolding last_state
connected-IsInSync = record { least = omega arith; most = omega arith; agree = refl }

IsTimeout : Hresult → Type 0
IsTimeout e_timeout = Unit
IsTimeout _ = ⊥

timeout-distinct : e_timeout ≢ e_accessdenied
unfolding IsTimeout
timeout-distinct e = subst IsTimeout e tt

lost_run : receive_execute (line false 20000) told_of connected ≡ ok disconnected
unfolding calc_time_diff
lost_run =
    receive_execute-lost (line false 20000) told_of (λ n. 0) refl connected e_timeout port []
      (omega arith) refl timeout-distinct refl

-- Three rounds in which nothing is received, the second 12 seconds after the clock.
receive_all-told_example :
    (s : System (List (List ℕ))) × (receive_all
        (line false 0)
        told_of
        (4000 ∷ 12000 ∷ 17000 ∷ [])
        connected
      ≡ ok s)
    × (s.calls ≡ told tp_disconnect ∷ told tp_connect ∷ [])
    × (s.tp.state ≡ tp_tperror)
    × (s.tp.check_clock ≡ 12000)
receive_all-told_example =
    receive_all-told (line false 0) told_of
      (λ device client w. ((e_timeout, device, w), refl, timeout-distinct, refl)) (λ n. 0) refl
      connected (4000 ∷ []) (5000 ∷ []) 0 12000 (omega arith) refl refl (omega arith, tt)
      (omega arith) (omega arith, tt) (omega arith)

-- The line at every step.
abbrev silence : ℕ → Line (List (List ℕ))
silence i = line false 20000

Reaches-IsInSync_example : IsInSync disconnected
unfolding Delivers Carries All
Reaches-IsInSync_example =
    Reaches-IsInSync silence told_of (λ n. 0) refl (λ i device client w. tt)
      (onward still (receives 0 lost_run)) connected-IsInSync

send_receive-IsAnswer_example :
    All
      (λ (r : Receipt × Tp (List (List ℕ)) × List (List ℕ)). IsAnswer r.0)
      (send_receive (line true 5) tp_connect 0x0C28 (0 ∷ 10 ∷ []) connected.tp [])
send_receive-IsAnswer_example =
    send_receive-IsAnswer (line true 5) tp_connect 0x0C28 (0 ∷ 10 ∷ []) connected.tp []

calc_time_diff-later_example : calc_time_diff (2 ^ 32 - 10) (later (2 ^ 32 - 10) 30) ≡ 2 ^ 32 - 31
calc_time_diff-later_example = calc_time_diff-later (2 ^ 32 - 10) 30 (omega arith) (omega arith)
