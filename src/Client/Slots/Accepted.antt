-- ===== src/Client/Slots/Accepted.antt =====
-- bCap_Open_Client of library/src/bCAPClient/bcap_client.c, as changes of the map from handles to connections,
-- where it succeeds.
use denso_ipc.Prelude.{
  ℕ, suc, ◌≡◌, ◌≢◌, inl, inr, refl, ap, subst, ◌∙◌, ◌==◌, ◌||◌, if◌then◌else◌, Bool-cases, true,
  false, List, none, some, ne→==, arith,
}
use denso_ipc.Codes.{failed, s_ok}
use denso_ipc.Device.{conn_tcp, conn_udp, conn_com}
use denso_ipc.Client.Session.{Connection, retry_of}
use denso_ipc.Client.Slots.{
  slot_at, modify, find_open_address, check_address, Codes, set_timeout, set_retry, settle_client,
  open_slot, is_kind, open_client,
}
use denso_ipc.Client.Slots.View.{
  changed, slot_at-modify, check_address-modify, IsFree, KeepsOthers, modify-KeepsOthers,
}
use denso_ipc.Client.Slots.Refused.{free-gone, found_slot}

slot_at-modified :
    (f : Connection → Connection) (i : ℕ) (cs : List Connection) (c : Connection)
    → slot_at cs i ≡ some c
    → slot_at (modify f i cs) i ≡ some (f c)
unfolding changed
slot_at-modified f i cs c e = slot_at-modify f i cs ∙ ap (changed f) e

check_address-at :
    (cs : List Connection) (i : ℕ) (c : Connection)
    → slot_at cs i ≡ some c
    → c.sock ≢ 0
    → check_address cs (suc i) ≡ some c
unfolding check_address
check_address-at cs i c e h = rw (e, ne→== c.sock 0 h) refl

-- The calls of an opening succeed.
pub record Succeeds (codes : Codes) : Type 0 where
  pub parsed : failed codes.parsed ≡ false
  pub mutex : failed codes.mutex ≡ false
  pub opened : failed codes.opened ≡ false
  pub sock : codes.sock ≢ 0
  pub locked : failed codes.locked ≡ false
  pub timed : failed codes.timed ≡ false

abbrev pub new_connection : Codes → ℕ → ℕ → ℕ → Connection
new_connection codes kind timeout retry = record {
  sock = codes.sock;
  kind = kind;
  timeout = timeout;
  retry = retry;
  serial = 1;
}

set_timeout-at :
    (cs : List Connection) (codes : Codes) (i timeout : ℕ) (c : Connection)
    → Succeeds codes
    → slot_at cs i ≡ some c
    → c.sock ≢ 0
    → set_timeout cs codes (suc i) timeout
      ≡ (codes.timed, modify (λ d. record d { timeout = timeout }) i cs)
unfolding set_timeout
set_timeout-at cs codes i timeout c good e h =
    rw (check_address-at cs i c e h, good.locked, good.timed) refl

set_retry-at :
    (cs : List Connection) (codes : Codes) (i retry n : ℕ) (c : Connection)
    → Succeeds codes
    → slot_at cs i ≡ some c
    → c.sock ≢ 0
    → retry_of c.kind retry ≡ some n
    → set_retry cs codes (suc i) retry ≡ (codes.locked, modify (λ d. record d { retry = n }) i cs)
unfolding set_retry
set_retry-at cs codes i retry n c good e h f = rw (check_address-at cs i c e h, f, good.locked) refl

-- The slots after an opening in the free slot `i`.
accepted : List Connection → Codes → ℕ → ℕ → ℕ → ℕ → List Connection
accepted cs codes i kind timeout retry =
    modify (λ c. record c { serial = 1 }) i
      (modify (λ c. record c { retry = retry }) i
        (modify (λ c. record c { timeout = timeout }) i
          (modify (λ c. record c { sock = codes.sock; kind = kind }) i cs)))

open_slot-accepted :
    (cs : List Connection) (codes : Codes) (i kind timeout retry n : ℕ) (c : Connection)
    → Succeeds codes
    → slot_at cs i ≡ some c
    → retry_of kind retry ≡ some n
    → open_slot cs codes (suc i) codes.parsed kind timeout retry
      ≡ (s_ok, accepted cs codes i kind timeout n, some (suc i))
unfolding open_slot settle_client accepted
open_slot-accepted cs codes i kind timeout retry n c good e f =
    rw
      (
        good.parsed,
        good.mutex,
        good.opened,
        set_timeout-at (modify (λ c. record c { sock = codes.sock; kind = kind }) i cs) codes i
            timeout _ good
            (slot_at-modified (λ c. record c { sock = codes.sock; kind = kind }) i cs c e)
            good.sock,
        set_retry-at
            (modify (λ c. record c { timeout = timeout }) i
              (modify (λ c. record c { sock = codes.sock; kind = kind }) i cs))
            codes i retry n _ good
            (slot_at-modified (λ c. record c { timeout = timeout }) i _ _
              (slot_at-modified (λ c. record c { sock = codes.sock; kind = kind }) i cs c e))
            good.sock f,
        good.timed,
        good.locked,
      )
      refl

none-ne-some : (n : ℕ) → none ≢ some n
none-ne-some n e = cc

retry_of-is_kind : (kind retry n : ℕ) → retry_of kind retry ≡ some n → is_kind kind ≡ true
unfolding retry_of
retry_of-is_kind kind retry n h = elim (Bool-cases (kind == conn_tcp)) [
  | inl e ↦ rw e refl
  | inr e ↦ elim (Bool-cases ((kind == conn_udp) || (kind == conn_com))) [
    | inl f ↦ rw (e, f) refl
    | inr f ↦ absurd (none-ne-some n (rw (e, f) at h))
  ]
]

accepted-at :
    (cs : List Connection) (codes : Codes) (i kind timeout retry : ℕ) (c : Connection)
    → Succeeds codes
    → slot_at cs i ≡ some c
    → (m : ℕ)
    → check_address (accepted cs codes i kind timeout retry) m
      ≡ (if suc i == m then some (new_connection codes kind timeout retry) else check_address cs m)
unfolding accepted KeepsOthers
accepted-at cs codes i kind timeout retry c good e m = elim (Bool-cases (suc i == m)) [
  | inl f ↦ rw f (
      subst
        (λ k.
          check_address (accepted cs codes i kind timeout retry) k
          ≡ some (new_connection codes kind timeout retry))
        {x = suc i} (ground arith)
        (check_address-at _ i _
          (written (λ c. record c { serial = 1 }) _ _
            (written (λ c. record c { retry = retry }) _ _
              (written (λ c. record c { timeout = timeout }) _ _
                (written (λ c. record c { sock = codes.sock; kind = kind }) cs c e))))
          good.sock))
  | inr f ↦ rw f (others m (λ g. ground arith))
]
  where
    written :
        (f : Connection → Connection) (cs : List Connection) (c : Connection)
        → slot_at cs i ≡ some c
        → slot_at (modify f i cs) i ≡ some (f c)
    written f cs c e = slot_at-modified f i cs c e

    others : KeepsOthers (suc i) cs (accepted cs codes i kind timeout retry)
    others = modify-KeepsOthers _ i cs _ (
        modify-KeepsOthers _ i cs _
          (modify-KeepsOthers _ i cs _ (λ m h. check_address-modify _ i cs m h)))

-- If a slot is free, the type is known, and the calls of the opening succeed, bCap_Open_Client returns S_OK and a
-- handle that named nothing; it then names the new connection, with its timeout, retries and the serial number 1, and every other handle names what it did.
pub open_client-accepted :
    (cs : List Connection) (codes : Codes) (kind timeout retry n m : ℕ)
    → Succeeds codes
    → retry_of kind retry ≡ some n
    → find_open_address cs ≢ 0
    → (check_address cs (find_open_address cs) ≡ none)
      × ((open_client cs codes kind timeout retry).0 ≡ s_ok)
      × ((open_client cs codes kind timeout retry).2 ≡ some (find_open_address cs))
      × (check_address (open_client cs codes kind timeout retry).1 m ≡ (
          if find_open_address cs == m
          then some (new_connection codes kind timeout n)
          else check_address cs m))
unfolding open_client IsFree
open_client-accepted cs codes kind timeout retry n m good e h = elim (found_slot cs) [
  | inl f ↦ absurd (h f)
  | inr (i, f, free) ↦
      rw
        (
          f,
          ne→== (suc i) 0 (λ g. omega (arith, g)),
          retry_of-is_kind kind retry n e,
          open_slot-accepted cs codes i kind timeout retry n free.0 good free.1 e,
        )
        (
          free-gone cs i free,
          refl,
          refl,
          accepted-at cs codes i kind timeout n free.0 good free.1 m,
        )
]
