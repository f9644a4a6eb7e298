-- ===== src/Tpcomm/Timer.antt =====
-- timer_event of library/src/TPComm/dn_tpcomm.c.
use denso_ipc.Prelude.{ℕ, ◌==◌, ltb, not, ◌&&◌, ◌||◌, if◌then◌else◌, Bool, true, false, none}
use denso_ipc.Outcome.{Outcome, ok, bind, catch}
use denso_ipc.Time.{calc_time_diff}
use denso_ipc.Tpcomm.{Line, tp_connect, tp_tperror, tp_cmd_req_id, tp_cmd_get_keystate, tp_cmd_ping}
use denso_ipc.Tpcomm.Link.{tp_send}
use denso_ipc.Tpcomm.Events.{System}

-- Milliseconds.
abbrev pub init_wait_client : ℕ
init_wait_client = 100

abbrev pub init_wait_server : ℕ
init_wait_server = 3000

abbrev pub ping_interval_connect : ℕ
ping_interval_connect = 300

abbrev pub ping_interval_tperror : ℕ
ping_interval_tperror = 1000

module _ {ℓ} {W : Type ℓ} (line : Line W) where
  -- A packet of the timer: whether it waits for the receiving thread.
  abbrev pub send_timed : ℕ → System W → Outcome (Bool × System W)
  send_timed command s =
      catch (tp_send line s.tp command none s.world) (λ e. ok (false, s))
        (λ sent. ok (true, record s { tp = sent.0; world = sent.1 }))

  abbrev pub set_init_clock : Bool × System W → Outcome (Bool × System W)
  set_init_clock r = ok (r.0, record r.1 { tp = record r.1.tp { init_clock = line.now } })

  abbrev pub set_init : Bool × System W → Outcome (Bool × System W)
  set_init r = ok (false, record r.1 { tp = record r.1.tp { init = true } })

  unfoldable pub client_timer : System W → Outcome (Bool × System W)
  client_timer s =
      let s' = record s { tp = record s.tp { init = true } } in
      if ltb init_wait_client (calc_time_diff s.tp.init_clock line.now)
        && not (s.tp.state == tp_connect)
      then bind (send_timed tp_cmd_req_id s') set_init_clock
      else ok (false, s')

  unfoldable pub first_timer : System W → Outcome (Bool × System W)
  first_timer s =
      if ltb init_wait_server (calc_time_diff s.tp.init_clock line.now)
        || (s.tp.state == tp_connect)
      then bind
          (if s.tp.state == tp_connect then ok (false, s) else send_timed tp_cmd_get_keystate s)
          set_init
      else ok (false, s)

  unfoldable pub ping_timer : System W → Outcome (Bool × System W)
  ping_timer s =
      let diff = calc_time_diff s.tp.ping_clock line.now in
      if (s.tp.state == tp_connect) && ltb ping_interval_connect diff
      then send_timed tp_cmd_ping s
      else if (s.tp.state == tp_tperror) && ltb ping_interval_tperror diff
      then send_timed tp_cmd_ping s
      else ok (false, s)

  -- With the mutex got; true is S_FALSE.
  unfoldable pub timer_event : System W → Outcome (Bool × System W)
  unfolding client_timer first_timer ping_timer
  timer_event s =
      if s.tp.client then client_timer s else if s.tp.init then ping_timer s else first_timer s
