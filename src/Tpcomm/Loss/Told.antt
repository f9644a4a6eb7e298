-- ===== src/Tpcomm/Loss/Told.antt =====
-- What recv_thread of library/src/TPComm/dn_tpcomm.c tells the application while nothing is received.
use denso_ipc.Prelude.{
  ap, ◌+◌, ◌^◌, ◌≤◌, ◌<◌, ◌⊎◌, ◌∙◌, ◌++◌, Bool, true, [], map, le→ltb-false, lt→leb-false,
  append-nil, ℕ, ◌≡◌, ◌≢◌, refl, ltb, inl, inr, List, ◌∷◌, some, arith,
}
use denso_ipc.Outcome.{Outcome, bind, Hresult, ok, e_accessdenied}
use denso_ipc.Device.{ConnParamCommon, conn_com}
use denso_ipc.Time.{calc_time_diff, later, calc_time_diff-later}
use denso_ipc.Tpcomm.{lost, Line, tp_connect, tp_tperror, tp_disconnect, tp_retry_nak}
use denso_ipc.Tpcomm.Events.{
  told, Callbacks, System, stay, tperror_timeout, tpless_interval, decide_state, apply,
  update_state, receive_execute,
}
use denso_ipc.Tpcomm.Loss.{receive_execute-missed, receive_execute-lost}

-- No time limit of the states passes with these delays.
abbrev pub AllQuiet : List ℕ → Type 0
AllQuiet [] = Unit
AllQuiet (d ∷ ds) = (d ≤ tperror_timeout) × AllQuiet ds

-- Both limits of the states are ten seconds.
decide-quiet :
    (state diff : ℕ)
    → (state ≡ tp_connect) ⊎ (state ≡ tp_tperror)
    → diff ≤ tperror_timeout
    → decide_state state tp_tperror diff ≡ stay
unfolding decide_state
decide-quiet state diff (inl e) h = rw (e, le→ltb-false tperror_timeout diff h) refl
decide-quiet state diff (inr e) h = rw (e, le→ltb-false tpless_interval diff h) refl

calc_time_diff-sum : (c d : ℕ) → c + d < 2 ^ 32 → calc_time_diff c (later c d) ≡ d
calc_time_diff-sum c d h =
    calc_time_diff-later c d (omega (arith, h)) (omega (arith, h))
    ∙ rw (lt→leb-false (2 ^ 32) (c + d) h) refl

-- The limit has passed.
passed :
    (clock c d : ℕ)
    → clock ≡ c
    → tperror_timeout < d
    → c + d < 2 ^ 32
    → ltb tperror_timeout (calc_time_diff clock (c + d)) ≡ true
unfolding calc_time_diff
passed clock c d e late small = ground arith

module _ {ℓ} {W : Type ℓ} (line : Line W) (func : Callbacks) where
  -- The line at a time.
  abbrev pub at_time : ℕ → Line W
  at_time t = record line { now = t }

  -- recv_thread calls receive_execute at these times.
  unfoldable pub receive_all : List ℕ → System W → Outcome (System W)
  receive_all [] s = ok s
  receive_all (t ∷ ts) s = bind (receive_execute (at_time t) func s) (receive_all ts)

  -- rtk_recv always fails, for another reason than E_ACCESSDENIED, and leaves the kind of the device.
  abbrev pub HearsNothing : Type ℓ
  HearsNothing =
      (device : ConnParamCommon W) (client : Bool) (w : W)
      → (v : Hresult × ConnParamCommon W × W) × (line.rtk_recv device client tp_retry_nak w
          ≡ ok (lost v.0, v.1, v.2))
        × (v.0 ≢ e_accessdenied)
        × (v.1.kind ≡ device.kind)

  -- What rounds without a time limit leave: all but the device and the world.
  record IsLike (s s' : System W) : Type ℓ where
    state : s'.tp.state ≡ s.tp.state
    clock : s'.tp.check_clock ≡ s.tp.check_clock
    kind : s'.tp.device.kind ≡ s.tp.device.kind
    calls : s'.calls ≡ s.calls

  -- What the round leaves in which the limit has passed.
  abbrev lost_at : ℕ → System W → ConnParamCommon W → W → System W
  lost_at t s device w = record {
    tp = record s.tp { device = device; state = tp_tperror; check_clock = t };
    world = w;
    calls = told tp_disconnect ∷ s.calls;
  }

  module _ (silent : HearsNothing) where
    receive_execute-quiet :
        (s : System W) (t : ℕ)
        → s.tp.device.kind ≢ conn_com
        → (s.tp.state ≡ tp_connect) ⊎ (s.tp.state ≡ tp_tperror)
        → calc_time_diff s.tp.check_clock t ≤ tperror_timeout
        → (s' : System W) × (receive_execute (at_time t) func s ≡ ok s') × IsLike s s'
    unfolding update_state apply
    receive_execute-quiet s t k c h =
        let v = silent s.tp.device s.tp.client s.world in
        (
          record { tp = record s.tp { device = v.0.1 }; world = v.0.2; calls = s.calls },
          rw
              (
                receive_execute-missed (at_time t) func s v.0.0 v.0.1 v.0.2 k v.2 v.1,
                decide-quiet s.tp.state (calc_time_diff s.tp.check_clock t) c h,
              )
              refl,
          record { state = refl; clock = refl; kind = v.3; calls = refl },
        )

    -- Rounds within the limit change neither state nor clock nor calls.
    receive_all-quiet :
        (ds : List ℕ) (s : System W) (c : ℕ)
        → s.tp.device.kind ≢ conn_com
        → (s.tp.state ≡ tp_connect) ⊎ (s.tp.state ≡ tp_tperror)
        → s.tp.check_clock ≡ c
        → c + tperror_timeout < 2 ^ 32
        → AllQuiet ds
        → (ts : List ℕ)
        → (s' : System W) × (receive_all (map (later c) ds ++ ts) s ≡ receive_all ts s')
          × IsLike s s'
    unfolding receive_all
    receive_all-quiet [] s c k st cl small h ts =
        (s, refl, record { state = refl; clock = refl; kind = refl; calls = refl })
    receive_all-quiet (d ∷ ds) s c k st cl small h ts =
        let u =
          receive_execute-quiet s (later c d) k st
            (rw (cl, calc_time_diff-sum c d (omega (arith, small, h.0))) h.0) in
        let v =
          receive_all-quiet ds u.0 c (rw u.2.kind k) (rw u.2.state st) (u.2.clock ∙ cl) small h.1
            ts in
        (
          v.0,
          rw u.1 v.1,
          record {
            state = v.2.state ∙ u.2.state;
            clock = v.2.clock ∙ u.2.clock;
            kind = v.2.kind ∙ u.2.kind;
            calls = v.2.calls ∙ u.2.calls;
          },
        )

    -- Off a serial line, where rtk_recv always fails for another reason than E_ACCESSDENIED and leaves the kind of the
    -- device: recv_thread calls receive_execute any number of times, each no more than ten seconds after the clock of a
    -- connected connection, then once later than that, and again any number of times, each no more than ten seconds after
    -- that call. The application has a function for the state, and the clock of the host does not wrap around until ten
    -- seconds after that call. Then the application is told TP_DISCONNECT once and nothing else, and the connection is left
    -- in TP_TPERROR, with the time of that call as its clock.
    pub receive_all-told :
        (f : ℕ → ℕ) (set : func.call_state ≡ some f) (s : System W) (ds es : List ℕ) (c d : ℕ)
        → s.tp.device.kind ≢ conn_com
        → s.tp.state ≡ tp_connect
        → s.tp.check_clock ≡ c
        → AllQuiet ds
        → tperror_timeout < d
        → AllQuiet es
        → c + d + tperror_timeout < 2 ^ 32
        → (s' : System W) × (receive_all (map (later c) ds ++ ((c + d) ∷ map (later (c + d)) es)) s
            ≡ ok s')
          × (s'.calls ≡ told tp_disconnect ∷ s.calls)
          × (s'.tp.state ≡ tp_tperror)
          × (s'.tp.check_clock ≡ c + d)
    unfolding receive_all
    receive_all-told f set s ds es c d k st cl hd late he small =
        let u =
          receive_all-quiet ds s c k (inl st) cl (omega (arith, small)) hd
            ((c + d) ∷ map (later (c + d)) es) in
        let v = silent u.0.tp.device u.0.tp.client u.0.world in
        let x : receive_execute (at_time (c + d)) func u.0 ≡ ok (lost_at (c + d) u.0 v.0.1 v.0.2) =
          receive_execute-lost (at_time (c + d)) func f set u.0 v.0.0 v.0.1 v.0.2 (rw u.2.kind k)
            (u.2.state ∙ st) v.2 v.1
          ∙ rw (passed u.0.tp.check_clock c d (u.2.clock ∙ cl) late (omega (arith, small))) refl in
        let y =
          receive_all-quiet es (lost_at (c + d) u.0 v.0.1 v.0.2) (c + d) (rw (v.3, u.2.kind) k)
            (inr refl) refl small he [] in
        (
          y.0,
          u.1 ∙ rw x (rw (append-nil (map (later (c + d)) es)) at y.1),
          y.2.calls ∙ ap (λ cs. told tp_disconnect ∷ cs) u.2.calls,
          y.2.state,
          y.2.clock,
        )
