-- ===== src/Client/Session/Answer.antt =====
-- Which answer send_receive of library/src/bCAPClient/bcap_client.c takes.
use denso_ipc.Prelude.{
  ℕ, zero, suc, ◌≡◌, ◌≢◌, refl, sym, ap, ◌∙◌, subst, true, List, [], ◌∷◌, Option, none, some,
  Bool-cases, inl, inr, arith,
}
use denso_ipc.Codes.{failed, s_executing, s_ok}
use denso_ipc.Bcap.Packet.{Packet}
use denso_ipc.Client.Session.{
  Arrival, lost, arrived, Wait, answered, given_up, waiting, is_answer, await, next_serial, Reply,
  number, prepend, conclude, attempts, Connection, reserv_of, send_receive,
}
use denso_ipc.Client.Session.Exchange.{some_injective}

unfoldable pub or_last : Packet → Option Packet → Option Packet
or_last q none = some q
or_last q (some q') = some q'

-- The last packet of a list.
unfoldable pub last : List Packet → Option Packet
last [] = none
last (q ∷ qs) = or_last q (last qs)

-- The answer that an exchange ends with: it has the serial number of the last request, does not say that the
-- server still works, and gives the result.
unfoldable pub TakesAnswer : Reply → Packet → Type 0
TakesAnswer r p =
    (q : Packet) × (last r.sent ≡ some q)
    × (q.serial ≡ p.serial)
    × (p.id ≢ s_executing)
    × (r.hr ≡ p.id)

IsAnswered : Wait → Type 0
IsAnswered (answered p later) = Unit
IsAnswered _ = ⊥

answer_of : Wait → Packet → Packet
answer_of (answered p later) q = p
answer_of _ q = q

some-ne-none : (p : Packet) → some p ≢ none
some-ne-none p e = cc

await-is_answer :
    (serial : ℕ) (arrivals : List Arrival) (p : Packet) (later : List Arrival)
    → await serial arrivals ≡ answered p later
    → is_answer serial p ≡ true
unfolding await answer_of IsAnswered
await-is_answer serial [] p later e = absurd (subst IsAnswered (sym e) tt)
await-is_answer serial (lost hr ∷ rest) p later e = absurd (subst IsAnswered (sym e) tt)
await-is_answer serial (arrived q ∷ rest) p later e = elim (Bool-cases (is_answer serial q)) [
  | inl t ↦ subst (λ x. is_answer serial x ≡ true) (ap (λ w. answer_of w q) (rw t at e)) t
  | inr f ↦ await-is_answer serial rest p later (rw f at e)
]

is_answer-facts :
    (serial : ℕ) (p : Packet)
    → is_answer serial p ≡ true
    → (serial ≡ p.serial) × (p.id ≢ s_executing)
unfolding is_answer
is_answer-facts serial p h = (ground arith, λ e. ground arith)

answer_is : (a b : Reply) → some a ≡ some b → b.answer ≡ a.answer
answer_is a b e = ap (λ (x : Reply). x.answer) (sym (some_injective a b e))

prepend-TakesAnswer :
    (q : Packet) (m : Option Reply) (r : Reply) (p : Packet)
    → ((r' : Reply) → m ≡ some r' → r'.answer ≡ some p → TakesAnswer r' p)
    → prepend q m ≡ some r
    → r.answer ≡ some p
    → TakesAnswer r p
unfolding prepend TakesAnswer last or_last
prepend-TakesAnswer q none r p ih e a = cc
prepend-TakesAnswer q (some r') r p ih e a =
    subst (λ x. TakesAnswer x p) (some_injective _ r e)
      (
        (ih r' refl b).0,
        rw (ih r' refl b).1 refl,
        (ih r' refl b).2,
        (ih r' refl b).3,
        (ih r' refl b).4,
      )
  where
    b : r'.answer ≡ some p
    b = sym (answer_is _ r e) ∙ a

conclude-TakesAnswer :
    (request : Packet) (serial : ℕ) (retry : ℕ → List Arrival → Option Reply) (w : Wait) (r : Reply)
    (p : Packet)
    → ((hr : ℕ) (later : List Arrival) (r' : Reply)
        → retry hr later ≡ some r'
        → r'.answer ≡ some p
        → TakesAnswer r' p)
    → ((q : Packet) (later : List Arrival) → w ≡ answered q later → is_answer serial q ≡ true)
    → conclude (number request serial) (next_serial serial) retry w ≡ some r
    → r.answer ≡ some p
    → TakesAnswer r p
unfolding conclude TakesAnswer last or_last number
conclude-TakesAnswer request serial retry (answered q later) r p ih good e a =
    subst (λ x. TakesAnswer x p) (some_injective _ r e)
      (subst
        (λ x.
          TakesAnswer
            (record {
              hr = q.id;
              sent = number request serial ∷ [];
              serial = next_serial serial;
              answer = some q;
            })
            x)
        (some_injective q p (sym (answer_is _ r e) ∙ a))
        (
          number request serial,
          refl,
          (is_answer-facts serial q (good q later refl)).0,
          (is_answer-facts serial q (good q later refl)).1,
          refl,
        ))
conclude-TakesAnswer request serial retry (given_up hr later) r p ih good e a =
    prepend-TakesAnswer (number request serial) (retry hr later) r p (ih hr later) e a
conclude-TakesAnswer request serial retry waiting r p ih good e a = cc

attempts-TakesAnswer :
    (send : ℕ → ℕ) (n : ℕ) (request : Packet) (serial hr : ℕ) (arrivals : List Arrival) (r : Reply)
    (p : Packet)
    → attempts send n request serial hr arrivals ≡ some r
    → r.answer ≡ some p
    → TakesAnswer r p
unfolding attempts
attempts-TakesAnswer send zero request serial hr arrivals r p e a =
    absurd (some-ne-none p (sym a ∙ answer_is _ r e))
attempts-TakesAnswer send (suc n) request serial hr arrivals r p e a =
    elim (Bool-cases (failed (send n))) [
      | inl f ↦ absurd (some-ne-none p (sym a ∙ answer_is _ r (rw f at e)))
      | inr f ↦
          conclude-TakesAnswer request serial (attempts send n request (next_serial serial))
            (await serial arrivals) r p
            (λ hr' later r' e' a'.
              attempts-TakesAnswer send n request (next_serial serial) hr' later r' p e' a')
            (await-is_answer serial arrivals) (rw f at e) a
    ]

-- An answer that send_receive takes has the serial number of the last request sent, does not say that the server is
-- still executing, and its code is the result.
pub send_receive-TakesAnswer :
    (send : ℕ → ℕ) (c : Connection) (request : Packet) (arrivals : List Arrival) (r : Reply)
    (p : Packet)
    → send_receive send c request arrivals ≡ some r
    → r.answer ≡ some p
    → TakesAnswer r p
unfolding send_receive
send_receive-TakesAnswer send c request arrivals r p e a =
    attempts-TakesAnswer send c.retry (record request { reserv = reserv_of c }) c.serial s_ok
      arrivals r p e a
