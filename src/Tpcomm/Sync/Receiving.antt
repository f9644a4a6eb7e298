-- ===== src/Tpcomm/Sync/Receiving.antt =====
-- What receive_execute of library/src/TPComm/dn_tpcomm.c tells the application, and the state it leaves.
use denso_ipc.Prelude.{
  ℕ, ◌≤◌, ◌≡◌, ◌≢◌, refl, ◌==◌, if◌then◌else◌, Bool, true, false, List, [], ◌++◌, Option, none,
  some, length, ne→==, arith,
}
use denso_ipc.Outcome.{e_accessdenied}
use denso_ipc.Outcome.All.{All, bind-All, catch-All, if-All}
use denso_ipc.Codes.{failed}
use denso_ipc.Tpcomm.{
  Tp, Line, native_command, tp_connect, tp_tpless, tp_tperror, tp_cmd_special, tp_cmd_req_id,
  tp_cmd_keyinfo, tp_cmd_touchinfo, tp_cmd_ping, rtk_cmd_ack, rtk_cmd_rej,
}
use denso_ipc.Tpcomm.Link.{Receipt, missed, got, tp_send, tp_recv}
use denso_ipc.Tpcomm.Events.{
  Notice, Callbacks, notify_key, notify_touch, tp_callfunc, System, update_state, is_silent,
  after_response, respond, handle, receive_execute,
}
use denso_ipc.Tpcomm.Sync.{last_state, IsInSync, update_state-IsInSync}
use denso_ipc.Tpcomm.Keeps.{SameState, Delivers, Brings, Kept, tp_send-SameState, tp_recv-Kept}

-- Not the command that dn_tpcomm.c uses for its own notices.
abbrev pub IsOrdinary : ℕ → Type 0
IsOrdinary command = command ≢ tp_cmd_special

-- A call of the application that tells nothing of the state.
Quiet : List Notice → ℕ × List Notice → Type 0
Quiet calls r = last_state (r.1 ++ calls) ≡ last_state calls

if-Quiet :
    (calls : List Notice) (b : Bool) (x y : ℕ × List Notice)
    → Quiet calls x
    → Quiet calls y
    → Quiet calls (if b then x else y)
if-Quiet calls true x y h k = h
if-Quiet calls false x y h k = k

notify_key-Quiet :
    (calls : List Notice) (call : Option (ℕ → ℕ)) (n : ℕ) → Quiet calls (notify_key call n)
unfolding Quiet last_state
notify_key-Quiet calls none n = refl
notify_key-Quiet calls (some f) n = refl

notify_touch-Quiet :
    (calls : List Notice) (call : Option (ℕ → ℕ → ℕ → ℕ)) (mode x y : ℕ)
    → Quiet calls (notify_touch call mode x y)
unfolding Quiet last_state
notify_touch-Quiet calls none mode x y = refl
notify_touch-Quiet calls (some f) mode x y = refl

callfunc-Quiet :
    (malloc : ℕ → Bool) (func : Callbacks) (command : ℕ) (payload : List ℕ) (calls : List Notice)
    → command ≢ tp_cmd_special
    → Quiet calls (tp_callfunc malloc func command payload)
unfolding tp_callfunc Quiet last_state
callfunc-Quiet malloc func command payload calls n = rw (ne→== command tp_cmd_special n) (
    if-Quiet calls (command == tp_cmd_req_id) _ _ refl (
      if-Quiet calls (command == tp_cmd_keyinfo) _ _
        (if-Quiet calls (length payload == 8) _ _
          (if-Quiet calls (malloc 8) _ _ (notify_key-Quiet calls _ _) refl) refl)
        (if-Quiet calls (command == tp_cmd_touchinfo) _ _
          (if-Quiet calls (length payload == 5) _ _
            (if-Quiet calls (malloc 6) _ _ (notify_touch-Quiet calls _ _ _ _) refl) refl)
          refl)))

module _ {ℓ} {W : Type ℓ} where
  -- A connection with the same state, and calls that tell the same.
  pub same-IsInSync :
      (s t : System W)
      → t.tp.state ≡ s.tp.state
      → last_state t.calls ≡ last_state s.calls
      → IsInSync s
      → IsInSync t
  same-IsInSync s t e c h = record {
    least = rw e h.least;
    most = rw e h.most;
    agree = rw (e, c) h.agree;
  }

module _ {ℓ} {W : Type ℓ} (line : Line W) (func : Callbacks) (f : ℕ → ℕ)
    (set : func.call_state ≡ some f) where
  after_response-IsInSync :
      (command tmp : ℕ) (s : System W)
      → 1 ≤ tmp
      → tmp ≤ 3
      → IsInSync s
      → All IsInSync (after_response line func command tmp s)
  unfolding after_response All
  after_response-IsInSync command tmp s l m h =
      if-All IsInSync (tmp == tp_connect) _ _ (update_state-IsInSync line func f set tmp s l m h) (
        if-All IsInSync (command == tp_cmd_req_id) _ _
          (catch-All (λ (r : Tp W × W). SameState s.tp r.0) IsInSync
            (tp_send line s.tp tp_cmd_ping none s.world) _ _
            (tp_send-SameState line s.tp tp_cmd_ping none s.world)
            (λ e. update_state-IsInSync line func f set tmp s l m h)
            (λ sent e.
              update_state-IsInSync line func f set tmp _ l m
                (same-IsInSync s (record s { tp = sent.0; world = sent.1 }) e.0 refl h)))
          (update_state-IsInSync line func f set tp_connect s (omega arith) (omega arith) h))

  respond-IsInSync :
      (command : ℕ) (payload : List ℕ) (s : System W)
      → command ≢ tp_cmd_special
      → IsInSync s
      → All IsInSync (respond line func command payload s)
  unfolding respond All Quiet
  respond-IsInSync command payload s n h =
      let done = tp_callfunc line.malloc func command payload in
      let s' : System W = record s { calls = done.1 ++ s.calls } in
      let h' : IsInSync s' =
        same-IsInSync s s' refl (callfunc-Quiet line.malloc func command payload s.calls n) h in
      if-All IsInSync (is_silent command) _ _
        (after_response-IsInSync command s.tp.state s h.least h.most h)
        (catch-All (λ (r : Tp W × W). SameState s.tp r.0) IsInSync
          (tp_send line s.tp (if failed done.0 then rtk_cmd_rej else rtk_cmd_ack) (some []) s.world)
          _ _ (tp_send-SameState line s.tp _ _ s.world) (λ e. h')
          (λ sent e.
            after_response-IsInSync command s.tp.state (record s' { tp = sent.0; world = sent.1 })
              h.least h.most
              (same-IsInSync s' (record s' { tp = sent.0; world = sent.1 }) e.0 refl h')))

  missed-IsInSync :
      (tmp : ℕ) (s : System W) (tp : Tp W) (w : W)
      → 1 ≤ tmp
      → tmp ≤ 3
      → SameState s.tp tp
      → IsInSync s
      → IsInSync (update_state line func tmp (record { tp = tp; world = w; calls = s.calls }))
  missed-IsInSync tmp s tp w l m k h =
      update_state-IsInSync line func f set tmp _ l m
        (same-IsInSync s (record { tp = tp; world = w; calls = s.calls }) k.0 refl h)

  -- What follows a receipt, that of a packet with an ordinary command.
  handle-IsInSync :
      (s : System W) (r : Receipt × Tp W × W)
      → Kept IsOrdinary s.tp r
      → IsInSync s
      → All IsInSync (handle line func s.calls r)
  unfolding handle All Kept Brings
  handle-IsInSync s (missed e_accessdenied, tp, w) k h =
      missed-IsInSync tp_tpless s tp w (omega arith) (omega arith) k.0 h
  handle-IsInSync s (missed _, tp, w) k h =
      missed-IsInSync tp_tperror s tp w (omega arith) (omega arith) k.0 h
  handle-IsInSync s (got command payload, tp, w) k h =
      respond-IsInSync (native_command command) payload
        (record { tp = tp; world = w; calls = s.calls }) k.1 (same-IsInSync s _ k.0.0 refl h)

  pub receive_execute-IsInSync :
      (s : System W)
      → Delivers line IsOrdinary
      → IsInSync s
      → All IsInSync (receive_execute line func s)
  unfolding receive_execute
  receive_execute-IsInSync s o h =
      bind-All (Kept IsOrdinary s.tp) IsInSync (tp_recv line s.tp s.world) _
        (tp_recv-Kept line IsOrdinary o s.tp s.world) (λ r k. handle-IsInSync s r k h)
