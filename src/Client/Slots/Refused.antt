-- ===== src/Client/Slots/Refused.antt =====
-- bCap_Open_Client of library/src/bCAPClient/bcap_client.c, as changes of the map from handles to connections,
-- where it stores no handle.
use denso_ipc.Prelude.{
  ℕ, zero, suc, ◌≡◌, ◌≢◌, ◌⊎◌, inl, inr, refl, sym, ap, subst, ◌∙◌, ◌==◌, if◌then◌else◌, Bool,
  Bool-cases, true, false, List, Option, none, some, ne→==, arith,
}
use denso_ipc.Codes.{failed, s_ok, e_invalidarg, e_max_object}
use denso_ipc.Client.Session.{Connection}
use denso_ipc.Client.Slots.{
  slot_at, modify, find_open_address, check_address, Codes, cleared, set_timeout, set_retry,
  close_after, settle_client, open_slot, is_kind, open_client,
}
use denso_ipc.Client.Slots.View.{IsFree, find_from-IsFree, KeepsOthers, open_slot-KeepsOthers, if-P}
use denso_ipc.Client.Slots.Close.{Result, check_address-gone, close_client-gone}

Refuses : ℕ → Result → Type 0
Refuses i x = x.2 ≡ none → check_address x.1 (suc i) ≡ none

some-ne-none : (n : ℕ) → some n ≢ none
some-ne-none n e = cc

settle_client-Refuses :
    (cs : List Connection) (codes : Codes) (i timeout retry : ℕ)
    → Refuses i (settle_client cs codes (suc i) timeout retry)
unfolding settle_client Refuses
settle_client-Refuses cs codes i timeout retry =
    if-P (Refuses i) (failed t.0) (close_after t.1 (suc i) t.0) rest (λ e. close_client-gone t.1 i)
      (if-P (Refuses i) (failed r.0) (close_after r.1 (suc i) r.0) done
        (λ e. close_client-gone r.1 i) (λ e. absurd (some-ne-none (suc i) e)))
  where
    t : ℕ × List Connection
    t = set_timeout cs codes (suc i) timeout

    r : ℕ × List Connection
    r = set_retry t.1 codes (suc i) retry

    done : Result
    done = (s_ok, modify (λ c. record c { serial = 1 }) i r.1, some (suc i))

    rest : Result
    rest = if failed r.0 then close_after r.1 (suc i) r.0 else done

open_slot-Refuses :
    (cs : List Connection) (codes : Codes) (i hr kind timeout retry : ℕ)
    → IsFree cs i
    → Refuses i (open_slot cs codes (suc i) hr kind timeout retry)
unfolding open_slot Refuses IsFree
open_slot-Refuses cs codes i hr kind timeout retry free =
    if-P (Refuses i) (failed hr) (hr, modify cleared i cs, none) unparsed
      (λ e. check_address-gone cleared i cs (λ c f. refl))
      (if-P (Refuses i) (failed codes.mutex)
        (codes.mutex, modify (λ c. record c { kind = kind }) i cs, none) unlocked
        (λ e. check_address-gone (λ c. record c { kind = kind }) i cs still)
        (if-P (Refuses i) (failed codes.opened) (codes.opened, modify cleared i cs, none) opened
          (λ e. check_address-gone cleared i cs (λ c f. refl))
          (settle_client-Refuses _ codes i timeout retry)))
  where
    still : (c : Connection) → slot_at cs i ≡ some c → (c.sock == 0) ≡ true
    still c e = subst (λ (o : Option Connection). sock_is_zero o ≡ true) (sym free.1 ∙ e) free.2
      where
        sock_is_zero : Option Connection → Bool
        sock_is_zero none = false
        sock_is_zero (some d) = d.sock == 0

    opened : Result
    opened =
        settle_client (modify (λ c. record c { sock = codes.sock; kind = kind }) i cs) codes (suc i)
          timeout retry

    unlocked : Result
    unlocked = if failed codes.opened then (codes.opened, modify cleared i cs, none) else opened

    unparsed : Result
    unparsed =
        if failed codes.mutex
        then (codes.mutex, modify (λ c. record c { kind = kind }) i cs, none)
        else unlocked

-- A slot that is found is free, and names nothing.
pub free-gone : (cs : List Connection) (i : ℕ) → IsFree cs i → check_address cs (suc i) ≡ none
unfolding check_address IsFree
free-gone cs i (d, e, f) = rw (e, f) refl

-- The slot that find_open_address finds.
pub found_slot :
    (cs : List Connection)
    → (find_open_address cs ≡ 0) ⊎ ((i : ℕ) × (find_open_address cs ≡ suc i) × IsFree cs i)
unfolding find_open_address
found_slot cs = elim (find_from-IsFree 0 cs) [
  | inl e ↦ inl e
  | inr (i, e, f) ↦ inr (i, e ∙ ap suc (omega arith), f)
]

-- Whatever fails, an opening that stores no handle leaves every handle as it was.
pub open_client-refused :
    (cs : List Connection) (codes : Codes) (kind timeout retry m : ℕ)
    → (open_client cs codes kind timeout retry).2 ≡ none
    → check_address (open_client cs codes kind timeout retry).1 m ≡ check_address cs m
unfolding open_client KeepsOthers Refuses
open_client-refused cs codes kind timeout retry m refused =
    at (find_open_address cs) (found_slot cs) refused
  where
    result : ℕ → Result
    result fd =
        if fd == 0
        then (e_max_object, cs, none)
        else open_slot cs codes fd (if is_kind kind then codes.parsed else e_invalidarg) kind
            timeout retry

    at :
        (fd : ℕ)
        → (fd ≡ 0) ⊎ ((i : ℕ) × (fd ≡ suc i) × IsFree cs i)
        → (result fd).2 ≡ none
        → check_address (result fd).1 m ≡ check_address cs m
    at zero s e = refl
    at (suc n) (inl f) e = absurd (omega (arith, f))
    at (suc n) (inr (i, f, free)) e =
        rw (ne→== (suc n) 0 (λ h. omega (arith, h))) (elim (Bool-cases (suc n == m)) [
          | inl g ↦
              subst (λ k. check_address slot.1 k ≡ check_address cs k) {x = suc n} (ground arith)
                (open_slot-Refuses cs codes n hr kind timeout retry free'
                    (rw (ne→== (suc n) 0 (λ h. omega (arith, h))) at e)
                  ∙ sym (free-gone cs n free'))
          | inr g ↦ open_slot-KeepsOthers cs codes n hr kind timeout retry m (λ h. ground arith)
        ])
      where
        hr : ℕ
        hr = if is_kind kind then codes.parsed else e_invalidarg

        slot : Result
        slot = open_slot cs codes (suc n) hr kind timeout retry

        free' : IsFree cs n
        free' = subst (IsFree cs) {x = i} (omega (arith, f)) free
