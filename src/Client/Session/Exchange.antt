-- ===== src/Client/Session/Exchange.antt =====
-- What send_receive of library/src/bCAPClient/bcap_client.c sends.
use denso_ipc.Prelude.{
  ℕ, zero, suc, ◌^◌, ◌≤◌, ◌<◌, ◌≡◌, refl, sym, ap, subst, List, [], ◌∷◌, Option, none, some, length,
  Bool-cases, inl, inr, arith,
}
use denso_ipc.Codes.{failed, s_ok}
use denso_ipc.Bcap.Packet.{Packet}
use denso_ipc.Client.Session.{
  Arrival, Wait, answered, given_up, waiting, await, next_serial, Reply, number, prepend, conclude,
  attempts, Connection, reserv_of, send_receive,
}

-- A request, numbered `k` times from `serial` on.
unfoldable pub requests : ℕ → Packet → ℕ → List Packet
requests zero request serial = []
requests (suc k) request serial = number request serial ∷ requests k request (next_serial serial)

unfoldable pub advance : ℕ → ℕ → ℕ
advance zero serial = serial
advance (suc k) serial = advance k (next_serial serial)

-- The reply to at most `n` attempts.
unfoldable pub Follows : ℕ → Packet → ℕ → Reply → Type 0
Follows n request serial r =
    (k : ℕ) × (k ≤ n) × (r.sent ≡ requests k request serial) × (r.serial ≡ advance k serial)

pub some_injective {ℓ} : {A : Type ℓ} (a b : A) → some a ≡ some b → a ≡ b
some_injective a b e = cc

Follows-zero :
    (request : Packet) (serial : ℕ) (r : Reply)
    → r.sent ≡ []
    → r.serial ≡ serial
    → Follows zero request serial r
unfolding Follows requests advance
Follows-zero request serial r e f = (0, omega arith, e, f)

Follows-one :
    (n : ℕ) (request : Packet) (serial : ℕ) (r : Reply)
    → r.sent ≡ number request serial ∷ []
    → r.serial ≡ next_serial serial
    → Follows (suc n) request serial r
unfolding Follows requests advance
Follows-one n request serial r e f = (1, omega arith, e, f)

prepend-Follows :
    (n : ℕ) (request : Packet) (serial : ℕ) (m : Option Reply) (r : Reply)
    → ((r' : Reply) → m ≡ some r' → Follows n request (next_serial serial) r')
    → prepend (number request serial) m ≡ some r
    → Follows (suc n) request serial r
unfolding prepend Follows requests advance
prepend-Follows n request serial none r ih e = cc
prepend-Follows n request serial (some r') r ih e =
    subst (Follows (suc n) request serial) (some_injective _ r e) (
      suc k,
      omega (arith, (ih r' refl).1),
      ap (λ l. number request serial ∷ l) (ih r' refl).2,
      (ih r' refl).3,
    )
  where
    k : ℕ
    k = (ih r' refl).0

conclude-Follows :
    (n : ℕ) (request : Packet) (serial : ℕ) (retry : ℕ → List Arrival → Option Reply) (w : Wait)
    (r : Reply)
    → ((hr : ℕ) (later : List Arrival) (r' : Reply)
        → retry hr later ≡ some r'
        → Follows n request (next_serial serial) r')
    → conclude (number request serial) (next_serial serial) retry w ≡ some r
    → Follows (suc n) request serial r
unfolding conclude
conclude-Follows n request serial retry (answered p later) r ih e =
    Follows-one n request serial r (ap (λ (x : Reply). x.sent) (sym (some_injective _ r e)))
      (ap (λ (x : Reply). x.serial) (sym (some_injective _ r e)))
conclude-Follows n request serial retry (given_up hr later) r ih e =
    prepend-Follows n request serial (retry hr later) r (ih hr later) e
conclude-Follows n request serial retry waiting r ih e = cc

sent_once :
    (n hr : ℕ) (request : Packet) (serial : ℕ) (r : Reply)
    → some (record {
      hr = hr;
      sent = number request serial ∷ [];
      serial = next_serial serial;
      answer = none;
    })
      ≡ some r
    → Follows (suc n) request serial r
sent_once n hr request serial r e =
    Follows-one n request serial r (ap (λ (x : Reply). x.sent) (sym (some_injective _ r e)))
      (ap (λ (x : Reply). x.serial) (sym (some_injective _ r e)))

-- The requests of an exchange are the given one under consecutive serial numbers, at most as many as
-- there are attempts, and the connection goes on behind the last.
attempts-Follows :
    (send : ℕ → ℕ) (n : ℕ) (request : Packet) (serial hr : ℕ) (arrivals : List Arrival) (r : Reply)
    → attempts send n request serial hr arrivals ≡ some r
    → Follows n request serial r
unfolding attempts
attempts-Follows send zero request serial hr arrivals r e =
    Follows-zero request serial r (ap (λ (x : Reply). x.sent) (sym (some_injective _ r e)))
      (ap (λ (x : Reply). x.serial) (sym (some_injective _ r e)))
attempts-Follows send (suc n) request serial hr arrivals r e = elim (Bool-cases (failed (send n))) [
  | inl f ↦ sent_once n (send n) request serial r (rw f at e)
  | inr f ↦
      conclude-Follows n request serial (attempts send n request (next_serial serial))
        (await serial arrivals) r
        (λ hr' later r' e'. attempts-Follows send n request (next_serial serial) hr' later r' e')
        (rw f at e)
]

length-requests : (k : ℕ) (request : Packet) (n : ℕ) → length (requests k request n) ≡ k
unfolding requests
length-requests zero request n = refl
length-requests (suc k) request n = ap suc (length-requests k request (next_serial n))

abbrev pub IsSerial : ℕ → Type 0
IsSerial n = (1 ≤ n) × (n < 2 ^ 16)

next_serial-IsSerial : (n : ℕ) → IsSerial n → IsSerial (next_serial n)
unfolding next_serial
next_serial-IsSerial n h = ground arith

advance-IsSerial : (k n : ℕ) → IsSerial n → IsSerial (advance k n)
unfolding advance
advance-IsSerial zero n h = h
advance-IsSerial (suc k) n h = advance-IsSerial k (next_serial n) (next_serial-IsSerial n h)

abbrev pub AllSerial : List Packet → Type 0
AllSerial [] = Unit
AllSerial (q ∷ qs) = IsSerial q.serial × AllSerial qs

requests-AllSerial :
    (k : ℕ) (request : Packet) (n : ℕ) → IsSerial n → AllSerial (requests k request n)
unfolding requests number
requests-AllSerial zero request n h = tt
requests-AllSerial (suc k) request n h =
    (h, requests-AllSerial k request (next_serial n) (next_serial-IsSerial n h))

-- If the serial number of a connection is between 1 and 65535, then it is so after send_receive, and
-- so is that of every request sent, and there are at most as many requests as the connection's retry count.
pub send_receive-IsSerial :
    (send : ℕ → ℕ) (c : Connection) (request : Packet) (arrivals : List Arrival) (r : Reply)
    → IsSerial c.serial
    → send_receive send c request arrivals ≡ some r
    → IsSerial r.serial × AllSerial r.sent × (length r.sent ≤ c.retry)
unfolding send_receive Follows
send_receive-IsSerial send c request arrivals r h e = (
  subst IsSerial (sym f.3) (advance-IsSerial f.0 c.serial h),
  subst AllSerial (sym f.2) (requests-AllSerial f.0 _ c.serial h),
  omega (
    arith,
    f.1,
    ap length f.2,
    length-requests f.0 (record request { reserv = reserv_of c }) c.serial,
  ),
)
  where
    f : Follows c.retry (record request { reserv = reserv_of c }) c.serial r
    f =
        attempts-Follows send c.retry (record request { reserv = reserv_of c }) c.serial s_ok
          arrivals r e
