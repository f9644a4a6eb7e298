-- ===== src/Tpcomm/Sync.antt =====
-- The state of the connection to a teach pendant, library/src/TPComm/dn_tpcomm.c, and what the application is told of it.
pub mod Receiving
use denso_ipc.Prelude.{
  ℕ, ◌^◌, ◌≤◌, ◌<◌, ◌≡◌, refl, sym, ◌∙◌, ◌==◌, Bool, List, [], ◌∷◌, some, length, length-to_le,
  to_le, of_le-to_le, eq→==, arith,
}
use denso_ipc.Tpcomm.{Line, tp_disconnect, tp_connect, tp_cmd_special}
use denso_ipc.Tpcomm.Events.{
  Notice, told, Callbacks, tp_callfunc, System, Decision, stay, quiet, report, decide_state, apply,
  update_state,
}

-- The state that the application was told last, disconnected at first. The latest call stands first.
unfoldable pub last_state : List Notice → ℕ
last_state [] = tp_disconnect
last_state (told n ∷ calls) = n
last_state (_ ∷ calls) = last_state calls

-- The state is connected, without a pendant or in error, and connected exactly if the application was told so last.
pub record IsInSync {ℓ} {W : Type ℓ} (s : System W) : Type 0 where
  pub least : 1 ≤ s.tp.state
  pub most : s.tp.state ≤ 3
  pub agree : (last_state s.calls == tp_connect) ≡ (s.tp.state == tp_connect)

Fits : ℕ → ℕ → Decision → Type 0
Fits state tmp stay = Unit
Fits state tmp quiet = (tmp == tp_connect) ≡ (state == tp_connect)
Fits state tmp (report n) = (n < 2 ^ 32) × ((n == tp_connect) ≡ (tmp == tp_connect))

decide_state-Fits :
    (state tmp diff : ℕ)
    → 1 ≤ state
    → state ≤ 3
    → 1 ≤ tmp
    → tmp ≤ 3
    → Fits state tmp (decide_state state tmp diff)
unfolding decide_state Fits
decide_state-Fits state tmp diff a b c d = ground arith

pub callfunc-special :
    (malloc : ℕ → Bool) (func : Callbacks) (f : ℕ → ℕ) (n : ℕ)
    → func.call_state ≡ some f
    → n < 2 ^ 32
    → (tp_callfunc malloc func tp_cmd_special (to_le 4 n)).1 ≡ told n ∷ []
unfolding tp_callfunc
callfunc-special malloc func f n e h =
    rw (eq→== (length (to_le 4 n)) 4 (length-to_le 4 n), e, of_le-to_le 4 n (omega (arith, h))) refl

module _ {ℓ} {W : Type ℓ} (line : Line W) (func : Callbacks) (f : ℕ → ℕ)
    (set : func.call_state ≡ some f) where
  apply-IsInSync :
      (d : Decision) (tmp : ℕ) (s : System W)
      → 1 ≤ tmp
      → tmp ≤ 3
      → IsInSync s
      → Fits s.tp.state tmp d
      → IsInSync (apply line func d tmp s)
  unfolding apply Fits last_state
  apply-IsInSync stay tmp s l m h fit = h
  apply-IsInSync quiet tmp s l m h fit = record { least = l; most = m; agree = h.agree ∙ sym fit }
  apply-IsInSync (report n) tmp s l m h fit = record {
    least = l;
    most = m;
    agree = rw (callfunc-special line.malloc func f n set fit.0) fit.1;
  }

  pub update_state-IsInSync :
      (tmp : ℕ) (s : System W)
      → 1 ≤ tmp
      → tmp ≤ 3
      → IsInSync s
      → IsInSync (update_state line func tmp s)
  unfolding update_state
  update_state-IsInSync tmp s l m h =
      apply-IsInSync _ tmp s l m h (decide_state-Fits s.tp.state tmp _ h.least h.most l m)
