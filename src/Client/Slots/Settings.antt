-- ===== src/Client/Slots/Settings.antt =====
-- bCap_GetTimeout and bCap_GetRetry of library/src/bCAPClient/bcap_client.c, after bCap_SetTimeout and bCap_SetRetry.
use denso_ipc.Prelude.{
  ℕ, suc, ◌≡◌, ◌≢◌, refl, ap, subst, ◌∙◌, ◌==◌, Bool, Bool-cases, inl, inr, true, false, List,
  Option, none, some,
}
use denso_ipc.Outcome.{Outcome, ok, err, e_handle, e_invalidarg}
use denso_ipc.Codes.{failed}
use denso_ipc.Client.Session.{Connection, retry_of}
use denso_ipc.Client.Slots.{slot_at, modify, in_use, check_address, Codes, set_timeout, set_retry}
use denso_ipc.Client.Slots.View.{changed, slot_at-modify}

-- A field of the connection; false is a NULL pointer for it.
abbrev pub get_of : (Connection → ℕ) → Option Connection → Bool → Outcome ℕ
get_of f none given = err e_handle
get_of f (some c) false = err e_invalidarg
get_of f (some c) true = ok (f c)

unfoldable pub get_timeout : List Connection → ℕ → Bool → Outcome ℕ
get_timeout cs fd given = get_of (λ c. c.timeout) (check_address cs fd) given

unfoldable pub get_retry : List Connection → ℕ → Bool → Outcome ℕ
get_retry cs fd given = get_of (λ c. c.retry) (check_address cs fd) given

some_injective : (a b : Connection) → some a ≡ some b → a ≡ b
some_injective a b e = cc

none-ne-some : (a : Connection) → none ≢ some a
none-ne-some a e = cc

in_use-some :
    (o : Option Connection) (c : Connection)
    → in_use o ≡ some c
    → (o ≡ some c) × ((c.sock == 0) ≡ false)
in_use-some none c e = absurd (none-ne-some c e)
in_use-some (some d) c e = elim (Bool-cases (d.sock == 0)) [
  | inl f ↦ absurd (none-ne-some c (rw f at e))
  | inr f ↦ (
    rw f at e,
    subst (λ (x : Connection). (x.sock == 0) ≡ false) (some_injective d c (rw f at e)) f,
  )
]

-- A change of a connection in use that keeps its socket.
check_address-changed :
    (f : Connection → Connection) (cs : List Connection) (i : ℕ) (c : Connection)
    → check_address cs (suc i) ≡ some c
    → (f c).sock ≡ c.sock
    → check_address (modify f i cs) (suc i) ≡ some (f c)
unfolding check_address changed
check_address-changed f cs i c e same =
    ap in_use (slot_at-modify f i cs ∙ ap (changed f) (in_use-some (slot_at cs i) c e).0) ∙ kept
  where
    kept : in_use (some (f c)) ≡ some (f c)
    kept = rw (same, (in_use-some (slot_at cs i) c e).1) refl

-- If the calls of bCap_SetTimeout succeed on a connection, bCap_GetTimeout then returns the timeout that was set,
-- and bCap_GetRetry what it did; and if those of bCap_SetRetry succeed, bCap_GetRetry then returns the count that
-- the type of the connection makes of it, and bCap_GetTimeout what it did.
pub get_timeout-set_timeout :
    (cs : List Connection) (codes : Codes) (i timeout retry n : ℕ) (c : Connection)
    → check_address cs (suc i) ≡ some c
    → failed codes.locked ≡ false
    → failed codes.timed ≡ false
    → retry_of c.kind retry ≡ some n
    → (get_timeout (set_timeout cs codes (suc i) timeout).1 (suc i) true ≡ ok timeout)
      × (get_retry (set_timeout cs codes (suc i) timeout).1 (suc i) true
          ≡ get_retry cs (suc i) true)
      × (get_retry (set_retry cs codes (suc i) retry).1 (suc i) true ≡ ok n)
      × (get_timeout (set_retry cs codes (suc i) retry).1 (suc i) true
          ≡ get_timeout cs (suc i) true)
unfolding get_timeout get_retry set_timeout set_retry
get_timeout-set_timeout cs codes i timeout retry n c e l t r =
    rw (e, l, t, r)
      (
        ap (λ o. get_of (λ d. d.timeout) o true) timed,
        ap (λ o. get_of (λ d. d.retry) o true) timed,
        ap (λ o. get_of (λ d. d.retry) o true) tried,
        ap (λ o. get_of (λ d. d.timeout) o true) tried,
      )
  where
    timed :
        check_address (modify (λ d. record d { timeout = timeout }) i cs) (suc i)
        ≡ some (record c { timeout = timeout })
    timed = check_address-changed (λ d. record d { timeout = timeout }) cs i c e refl

    tried :
        check_address (modify (λ d. record d { retry = n }) i cs) (suc i)
        ≡ some (record c { retry = n })
    tried = check_address-changed (λ d. record d { retry = n }) cs i c e refl
