-- ===== src/Client/Slots/Close.antt =====
-- bCap_Close_Client of library/src/bCAPClient/bcap_client.c, as changes of the map from handles to connections.
use denso_ipc.Prelude.{
  ℕ, suc, ◌≡◌, ◌≢◌, inl, inr, refl, ap, subst, ◌∙◌, ◌==◌, if◌then◌else◌, Bool-cases, true, List,
  Option, none, some, arith,
}
use denso_ipc.Client.Session.{Connection}
use denso_ipc.Client.Slots.{
  slot_at, modify, in_use, check_address, cleared, close_slot, close_client,
}
use denso_ipc.Client.Slots.View.{changed, slot_at-modify, check_address-modify}

-- What opening and closing return: the code, the slots, and the handle.
abbrev pub Result : Type 0
Result = ℕ × List Connection × Option ℕ

in_use-changed :
    (f : Connection → Connection) (o : Option Connection)
    → ((c : Connection) → o ≡ some c → ((f c).sock == 0) ≡ true)
    → in_use (changed f o) ≡ none
unfolding changed
in_use-changed f none h = refl
in_use-changed f (some c) h = rw (h c refl) refl

pub check_address-gone :
    (f : Connection → Connection) (i : ℕ) (cs : List Connection)
    → ((c : Connection) → slot_at cs i ≡ some c → ((f c).sock == 0) ≡ true)
    → check_address (modify f i cs) (suc i) ≡ none
unfolding check_address
check_address-gone f i cs h = ap in_use (slot_at-modify f i cs) ∙ in_use-changed f (slot_at cs i) h

-- After closing, the handle names nothing.
pub close_client-gone :
    (cs : List Connection) (i : ℕ) → check_address (close_client cs (suc i)).1 (suc i) ≡ none
unfolding close_client
close_client-gone cs i = found (check_address cs (suc i)) refl
  where
    found :
        (c : Option Connection)
        → check_address cs (suc i) ≡ c
        → check_address (close_slot cs (suc i) c).1 (suc i) ≡ none
    found none e = e
    found (some c) e = check_address-gone cleared i cs (λ d f. refl)

-- Closing a handle takes it out of the map, and leaves the other handles as they were.
pub close_client-check_address :
    (cs : List Connection) (i m : ℕ)
    → check_address (close_client cs (suc i)).1 m
      ≡ (if suc i == m then none else check_address cs m)
unfolding close_client
close_client-check_address cs i m = elim (Bool-cases (suc i == m)) [
  | inl e ↦ rw e (
      subst (λ n. check_address (close_client cs (suc i)).1 n ≡ none) (ground arith)
        (close_client-gone cs i))
  | inr e ↦ rw e (found (check_address cs (suc i)) (λ f. ground arith))
]
  where
    found :
        (c : Option Connection)
        → suc i ≢ m
        → check_address (close_slot cs (suc i) c).1 m ≡ check_address cs m
    found none h = refl
    found (some c) h = check_address-modify cleared i cs m h
