-- ===== src/Client/Slots/View.antt =====
-- The connections of library/src/bCAPClient/bcap_client.c as its callers see them: a map from handles to connections,
-- check_address, which opening extends and closing shrinks.
use denso_ipc.Prelude.{
  ℕ, zero, suc, ◌+◌, ◌≡◌, ◌≢◌, ◌⊎◌, inl, inr, refl, ap, ◌∙◌, ◌==◌, if◌then◌else◌, Bool, Bool-cases,
  true, false, List, [], ◌∷◌, Option, none, some, arith,
}
use denso_ipc.Codes.{failed, s_ok}
use denso_ipc.Client.Session.{Connection, retry_of}
use denso_ipc.Client.Slots.{
  slot_at, modify, find_from, in_use, check_address, Codes, cleared, if_locked, set_timeout,
  kind_of, retried, set_retry, close_slot, close_client, close_after, settle_client, open_slot,
}

unfoldable pub changed : (Connection → Connection) → Option Connection → Option Connection
changed f none = none
changed f (some c) = some (f c)

pub slot_at-modify :
    (f : Connection → Connection) (i : ℕ) (cs : List Connection)
    → slot_at (modify f i cs) i ≡ changed f (slot_at cs i)
unfolding slot_at modify changed
slot_at-modify f i [] = refl
slot_at-modify f zero (c ∷ cs) = refl
slot_at-modify f (suc i) (c ∷ cs) = slot_at-modify f i cs

slot_at-modify_other :
    (f : Connection → Connection) (i j : ℕ) (cs : List Connection)
    → i ≢ j
    → slot_at (modify f i cs) j ≡ slot_at cs j
unfolding slot_at modify
slot_at-modify_other f i j [] h = refl
slot_at-modify_other f zero zero (c ∷ cs) h = absurd (h refl)
slot_at-modify_other f zero (suc j) (c ∷ cs) h = refl
slot_at-modify_other f (suc i) zero (c ∷ cs) h = refl
slot_at-modify_other f (suc i) (suc j) (c ∷ cs) h =
    slot_at-modify_other f i j cs (λ e. h (ap suc e))

-- A write in a slot does not change what another handle names.
pub check_address-modify :
    (f : Connection → Connection) (i : ℕ) (cs : List Connection) (m : ℕ)
    → suc i ≢ m
    → check_address (modify f i cs) m ≡ check_address cs m
unfolding check_address
check_address-modify f i cs zero h = refl
check_address-modify f i cs (suc m) h =
    ap in_use (slot_at-modify_other f i m cs (λ e. h (ap suc e)))

unfoldable pub IsFree : List Connection → ℕ → Type 0
IsFree cs i = (d : Connection) × (slot_at cs i ≡ some d) × ((d.sock == 0) ≡ true)

pub find_from-IsFree :
    (k : ℕ) (cs : List Connection)
    → (find_from k cs ≡ 0) ⊎ ((i : ℕ) × (find_from k cs ≡ suc (k + i)) × IsFree cs i)
unfolding find_from slot_at IsFree
find_from-IsFree k [] = inl refl
find_from-IsFree k (c ∷ cs) = elim (Bool-cases (c.sock == 0)) [
  | inl e ↦ inr (0, rw e (omega arith), (c, refl, e))
  | inr e ↦ elim (find_from-IsFree (k + 1) cs) [
    | inl f ↦ inl (rw e f)
    | inr (i, f, g) ↦ inr (suc i, rw e (f ∙ omega arith), g)
  ]
]

-- What an operation on the slot of `fd` leaves for the other handles.
unfoldable pub KeepsOthers : ℕ → List Connection → List Connection → Type 0
KeepsOthers fd cs cs' = (m : ℕ) → fd ≢ m → check_address cs' m ≡ check_address cs m

pub modify-KeepsOthers :
    (f : Connection → Connection) (i : ℕ) (cs cs' : List Connection)
    → KeepsOthers (suc i) cs cs'
    → KeepsOthers (suc i) cs (modify f i cs')
unfolding KeepsOthers
modify-KeepsOthers f i cs cs' k m h = check_address-modify f i cs' m h ∙ k m h

pub if-P {ℓ κ} :
    {A : Type ℓ} (P : A → Type κ) (b : Bool) (x y : A) → P x → P y → P (if b then x else y)
if-P P true x y h k = h
if-P P false x y h k = k

set_timeout-KeepsOthers :
    (cs cs' : List Connection) (codes : Codes) (i timeout : ℕ)
    → KeepsOthers (suc i) cs cs'
    → KeepsOthers (suc i) cs (set_timeout cs' codes (suc i) timeout).1
unfolding set_timeout
set_timeout-KeepsOthers cs cs' codes i timeout k = locked (check_address cs' (suc i))
  where
    locked :
        (c : Option Connection)
        → KeepsOthers
            (suc i)
            cs
            (if_locked codes cs' c (
              codes.timed,
              if failed codes.timed
                  then cs'
                  else modify (λ c. record c { timeout = timeout }) i cs',
            )).1
    locked none = k
    locked (some c) =
        if-P (λ (r : ℕ × List Connection). KeepsOthers (suc i) cs r.1) (failed codes.locked)
          (codes.locked, cs')
          (
            codes.timed,
            if failed codes.timed then cs' else modify (λ c. record c { timeout = timeout }) i cs',
          )
          k
          (if-P (KeepsOthers (suc i) cs) (failed codes.timed) cs'
            (modify (λ c. record c { timeout = timeout }) i cs') k
            (modify-KeepsOthers (λ c. record c { timeout = timeout }) i cs cs' k))

set_retry-KeepsOthers :
    (cs cs' : List Connection) (codes : Codes) (i retry : ℕ)
    → KeepsOthers (suc i) cs cs'
    → KeepsOthers (suc i) cs (set_retry cs' codes (suc i) retry).1
unfolding set_retry
set_retry-KeepsOthers cs cs' codes i retry k = locked (check_address cs' (suc i))
  where
    set : (n : Option ℕ) → KeepsOthers (suc i) cs (retried codes cs' (suc i) n).1
    set none = k
    set (some n) = modify-KeepsOthers (λ c. record c { retry = n }) i cs cs' k

    locked :
        (c : Option Connection)
        → KeepsOthers
            (suc i)
            cs
            (if_locked codes cs' c
              (retried codes cs' (suc i) (retry_of (kind_of (check_address cs' (suc i))) retry))).1
    locked none = k
    locked (some c) =
        if-P (λ (r : ℕ × List Connection). KeepsOthers (suc i) cs r.1) (failed codes.locked)
          (codes.locked, cs')
          (retried codes cs' (suc i) (retry_of (kind_of (check_address cs' (suc i))) retry)) k
          (set (retry_of (kind_of (check_address cs' (suc i))) retry))

close_client-KeepsOthers :
    (cs cs' : List Connection) (i : ℕ)
    → KeepsOthers (suc i) cs cs'
    → KeepsOthers (suc i) cs (close_client cs' (suc i)).1
unfolding close_client
close_client-KeepsOthers cs cs' i k = found (check_address cs' (suc i))
  where
    found : (c : Option Connection) → KeepsOthers (suc i) cs (close_slot cs' (suc i) c).1
    found none = k
    found (some c) = modify-KeepsOthers cleared i cs cs' k

settle_client-KeepsOthers :
    (cs cs' : List Connection) (codes : Codes) (i timeout retry : ℕ)
    → KeepsOthers (suc i) cs cs'
    → KeepsOthers (suc i) cs (settle_client cs' codes (suc i) timeout retry).1
unfolding settle_client
settle_client-KeepsOthers cs cs' codes i timeout retry k =
    if-P Keeps (failed t.0) (close_after t.1 (suc i) t.0) rest
      (close_client-KeepsOthers cs t.1 i timed)
      (if-P Keeps (failed r.0) (close_after r.1 (suc i) r.0) done
        (close_client-KeepsOthers cs r.1 i tried)
        (modify-KeepsOthers (λ c. record c { serial = 1 }) i cs r.1 tried))
  where
    Keeps : ℕ × List Connection × Option ℕ → Type 0
    Keeps x = KeepsOthers (suc i) cs x.1

    t : ℕ × List Connection
    t = set_timeout cs' codes (suc i) timeout

    r : ℕ × List Connection
    r = set_retry t.1 codes (suc i) retry

    timed : KeepsOthers (suc i) cs t.1
    timed = set_timeout-KeepsOthers cs cs' codes i timeout k

    tried : KeepsOthers (suc i) cs r.1
    tried = set_retry-KeepsOthers cs t.1 codes i retry timed

    done : ℕ × List Connection × Option ℕ
    done = (s_ok, modify (λ c. record c { serial = 1 }) i r.1, some (suc i))

    rest : ℕ × List Connection × Option ℕ
    rest = if failed r.0 then close_after r.1 (suc i) r.0 else done

pub open_slot-KeepsOthers :
    (cs : List Connection) (codes : Codes) (i hr kind timeout retry : ℕ)
    → KeepsOthers (suc i) cs (open_slot cs codes (suc i) hr kind timeout retry).1
unfolding open_slot KeepsOthers
open_slot-KeepsOthers cs codes i hr kind timeout retry =
    if-P Keeps (failed hr) (hr, modify cleared i cs, none) unparsed (write cleared)
      (if-P Keeps (failed codes.mutex)
        (codes.mutex, modify (λ c. record c { kind = kind }) i cs, none) unlocked
        (write (λ c. record c { kind = kind }))
        (if-P Keeps (failed codes.opened) (codes.opened, modify cleared i cs, none) opened
          (write cleared)
          (settle_client-KeepsOthers cs _ codes i timeout retry
            (write (λ c. record c { sock = codes.sock; kind = kind })))))
  where
    Keeps : ℕ × List Connection × Option ℕ → Type 0
    Keeps x = KeepsOthers (suc i) cs x.1

    write : (f : Connection → Connection) → KeepsOthers (suc i) cs (modify f i cs)
    write f m h = check_address-modify f i cs m h

    opened : ℕ × List Connection × Option ℕ
    opened =
        settle_client (modify (λ c. record c { sock = codes.sock; kind = kind }) i cs) codes (suc i)
          timeout retry

    unlocked : ℕ × List Connection × Option ℕ
    unlocked = if failed codes.opened then (codes.opened, modify cleared i cs, none) else opened

    unparsed : ℕ × List Connection × Option ℕ
    unparsed =
        if failed codes.mutex
        then (codes.mutex, modify (λ c. record c { kind = kind }) i cs, none)
        else unlocked
