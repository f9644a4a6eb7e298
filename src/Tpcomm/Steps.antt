-- ===== src/Tpcomm/Steps.antt =====
-- The threads of a connection in library/src/TPComm/dn_tpcomm.c: each event holds the mutex, so they are a sequence of steps.
use denso_ipc.Prelude.{
  ℕ, ◌≡◌, refl, ◌==◌, ltb, not, ◌&&◌, ◌||◌, if◌then◌else◌, Bool, true, false, List, none, some,
}
use denso_ipc.Outcome.{ok}
use denso_ipc.Outcome.All.{All, bind-All, catch-All, if-All, ok-All}
use denso_ipc.Tpcomm.{
  Tp, Line, tp_connect, tp_tperror, tp_cmd_req_id, tp_cmd_ping, tp_cmd_get_keystate,
}
use denso_ipc.Tpcomm.Link.{Receipt, tp_send, send_receive}
use denso_ipc.Tpcomm.Events.{Callbacks, System, receive_execute}
use denso_ipc.Time.{calc_time_diff}
use denso_ipc.Tpcomm.Sync.{last_state, IsInSync}
use denso_ipc.Tpcomm.Keeps.{SameState, Delivers, tp_send-SameState, send_receive-SameState}
use denso_ipc.Tpcomm.Sync.Receiving.{IsOrdinary, same-IsInSync, receive_execute-IsInSync}
use denso_ipc.Tpcomm.Timer.{
  send_timed, set_init_clock, set_init, client_timer, first_timer, ping_timer, timer_event,
  init_wait_client, init_wait_server, ping_interval_connect, ping_interval_tperror,
}

module _ {ℓ} {W : Type ℓ} (line : Line W) where
  -- The state and the calls stay.
  Unmoved : System W → Bool × System W → Type 0
  Unmoved s r = (r.1.tp.state ≡ s.tp.state) × (last_state r.1.calls ≡ last_state s.calls)

  send_timed-Unmoved : (command : ℕ) (s : System W) → All (Unmoved s) (send_timed line command s)
  unfolding All Unmoved
  send_timed-Unmoved command s =
      catch-All (λ (r : Tp W × W). SameState s.tp r.0) (Unmoved s)
        (tp_send line s.tp command none s.world) _ _
        (tp_send-SameState line s.tp command none s.world) (λ e. (refl, refl))
        (λ sent e. (e.0, refl))

  client_timer-Unmoved : (s : System W) → All (Unmoved s) (client_timer line s)
  unfolding client_timer All Unmoved
  client_timer-Unmoved s =
      let s' : System W = record s { tp = record s.tp { init = true } } in
      if-All (Unmoved s)
        (ltb init_wait_client (calc_time_diff s.tp.init_clock line.now)
          && not (s.tp.state == tp_connect))
        _ _
        (bind-All (Unmoved s) (Unmoved s) (send_timed line tp_cmd_req_id s') (set_init_clock line)
          (send_timed-Unmoved tp_cmd_req_id s') (λ r h. h))
        (refl, refl)

  first_timer-Unmoved : (s : System W) → All (Unmoved s) (first_timer line s)
  unfolding first_timer All Unmoved
  first_timer-Unmoved s =
      if-All (Unmoved s)
        (ltb init_wait_server (calc_time_diff s.tp.init_clock line.now)
          || (s.tp.state == tp_connect))
        _ _
        (bind-All (Unmoved s) (Unmoved s)
          (if s.tp.state == tp_connect
            then ok (false, s)
            else send_timed line tp_cmd_get_keystate s)
          (set_init line)
          (if-All (Unmoved s) (s.tp.state == tp_connect) _ _ (refl, refl)
            (send_timed-Unmoved tp_cmd_get_keystate s))
          (λ r h. h))
        (refl, refl)

  ping_timer-Unmoved : (s : System W) → All (Unmoved s) (ping_timer line s)
  unfolding ping_timer All Unmoved
  ping_timer-Unmoved s =
      let diff = calc_time_diff s.tp.ping_clock line.now in
      if-All (Unmoved s) ((s.tp.state == tp_connect) && ltb ping_interval_connect diff) _ _
        (send_timed-Unmoved tp_cmd_ping s)
        (if-All (Unmoved s) ((s.tp.state == tp_tperror) && ltb ping_interval_tperror diff) _ _
          (send_timed-Unmoved tp_cmd_ping s) (refl, refl))

  timer_event-Unmoved : (s : System W) → All (Unmoved s) (timer_event line s)
  unfolding timer_event
  timer_event-Unmoved s =
      if-All (Unmoved s) s.tp.client _ _ (client_timer-Unmoved s)
        (if-All (Unmoved s) s.tp.init _ _ (ping_timer-Unmoved s) (first_timer-Unmoved s))

module _ {ℓ} {W : Type ℓ} (lines : ℕ → Line W) (func : Callbacks) where
  -- An event of the receiving thread, of the timer, or a request of the application, each under the mutex, and each on
  -- one of the lines. The state that a request reads before it waits for the mutex is any.
  pub data Step : System W → System W → Type ℓ where
    receives : {s t : System W} (i : ℕ) → receive_execute (lines i) func s ≡ ok t → Step s t
    ticks :
        {s t : System W} (i : ℕ) (wait : Bool) → timer_event (lines i) s ≡ ok (wait, t) → Step s t
    requests :
        {s : System W} (i seen command : ℕ) (payload : List ℕ) (receipt : Receipt) (tp : Tp W)
        (w : W)
        → send_receive (lines i) seen command payload s.tp s.world ≡ ok (receipt, tp, w)
        → Step s (record s { tp = tp; world = w })

  pub data Reaches (s : System W) : System W → Type ℓ where
    still : Reaches s s
    onward : {t u : System W} → Reaches s t → Step t u → Reaches s u

module _ {ℓ} {W : Type ℓ} (lines : ℕ → Line W) (func : Callbacks) (f : ℕ → ℕ)
    (set : func.call_state ≡ some f) (ordinary : (i : ℕ) → Delivers (lines i) IsOrdinary) where
  step-IsInSync : {s t : System W} → Step lines func s t → IsInSync s → IsInSync t
  unfolding Unmoved
  step-IsInSync (receives i e) h =
      ok-All IsInSync _ _ e (receive_execute-IsInSync (lines i) func f set _ (ordinary i) h)
  step-IsInSync {s} (ticks i wait e) h =
      let u = ok-All (Unmoved (lines i) s) _ _ e (timer_event-Unmoved (lines i) s) in
      same-IsInSync s _ u.0 u.1 h
  step-IsInSync {s} (requests i seen command payload receipt tp w e) h =
      same-IsInSync s _
        (ok-All (λ (r : Receipt × Tp W × W). SameState s.tp r.1) _ _ e
          (send_receive-SameState (lines i) seen command payload s.tp s.world)).0
        refl h

  -- If the application has a function for the state, and no packet that is received has the command 0x0FFF, then whatever
  -- the threads and the application do, in any order, a connection that agrees with what the application was told goes on
  -- to: its state is not TP_DISCONNECT, and it is TP_CONNECT exactly if that is the state that the application was told last.
  pub Reaches-IsInSync : {s t : System W} → Reaches lines func s t → IsInSync s → IsInSync t
  Reaches-IsInSync still h = h
  Reaches-IsInSync (onward r x) h = step-IsInSync x (Reaches-IsInSync r h)
