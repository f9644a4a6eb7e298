-- ===== src/Client/Session/Rounds.antt =====
-- When send_receive of library/src/bCAPClient/bcap_client.c finds the answer.
use denso_ipc.Prelude.{
  ℕ, zero, suc, ◌<◌, ◌≡◌, refl, ◌∙◌, true, false, List, [], ◌∷◌, ◌++◌, map, some, length, arith,
}
use denso_ipc.Codes.{failed, s_ok}
use denso_ipc.Bcap.Packet.{Packet}
use denso_ipc.Client.Session.{
  Arrival, lost, arrived, answered, given_up, is_answer, await, next_serial, Reply, prepend,
  conclude, attempts, Connection, reserv_of, send_receive,
}
use denso_ipc.Client.Session.Exchange.{requests, advance}

-- An attempt that fails: the packets that arrive, and the code of the bcap_recv that ends it.
abbrev pub Round : Type 0
Round = List Packet × ℕ

unfoldable pub arrivals_of : List Round → List Arrival → List Arrival
arrivals_of [] later = later
arrivals_of (r ∷ rs) later = map arrived r.0 ++ (lost r.1 ∷ arrivals_of rs later)

-- No packet answers the request with a serial number.
abbrev pub AllStale : ℕ → List Packet → Type 0
AllStale serial [] = Unit
AllStale serial (q ∷ qs) = (is_answer serial q ≡ false) × AllStale serial qs

-- No packet of an attempt answers its request.
abbrev pub AllFail : ℕ → List Round → Type 0
AllFail serial [] = Unit
AllFail serial (r ∷ rs) = AllStale serial r.0 × AllFail (next_serial serial) rs

await-AllStale :
    (serial : ℕ) (qs : List Packet) (rest : List Arrival)
    → AllStale serial qs
    → await serial (map arrived qs ++ rest) ≡ await serial rest
unfolding await
await-AllStale serial [] rest h = refl
await-AllStale serial (q ∷ qs) rest h = rw h.0 (await-AllStale serial qs rest h.1)

await-answer :
    (serial : ℕ) (qs : List Packet) (p : Packet) (later : List Arrival)
    → AllStale serial qs
    → is_answer serial p ≡ true
    → await serial (map arrived qs ++ (arrived p ∷ later)) ≡ answered p later
unfolding await
await-answer serial qs p later h e = await-AllStale serial qs (arrived p ∷ later) h ∙ rw e refl

await-lost :
    (serial : ℕ) (qs : List Packet) (hr : ℕ) (later : List Arrival)
    → AllStale serial qs
    → await serial (map arrived qs ++ (lost hr ∷ later)) ≡ given_up hr later
unfolding await
await-lost serial qs hr later h = await-AllStale serial qs (lost hr ∷ later) h

abbrev found : Packet → ℕ → ℕ → Packet → Reply
found request k serial p = record {
  hr = p.id;
  sent = requests k request serial;
  serial = advance k serial;
  answer = some p;
}

attempts-rounds :
    (send : ℕ → ℕ)
    → ((k : ℕ) → failed (send k) ≡ false)
    → (rs : List Round) (n : ℕ) (request : Packet) (serial hr : ℕ) (qs : List Packet) (p : Packet)
      (later : List Arrival)
    → length rs < n
    → AllFail serial rs
    → AllStale (advance (length rs) serial) qs
    → is_answer (advance (length rs) serial) p ≡ true
    → attempts send n request serial hr (arrivals_of rs (map arrived qs ++ (arrived p ∷ later)))
      ≡ some (found request (suc (length rs)) serial p)
unfolding attempts arrivals_of requests advance conclude prepend
attempts-rounds send good rs zero request serial hr qs p later l f s a = absurd (omega (arith, l))
attempts-rounds send good [] (suc n) request serial hr qs p later l f s a =
    rw (good n, await-answer serial qs p later s a) refl
attempts-rounds send good (r ∷ rs) (suc n) request serial hr qs p later l f s a =
    rw
      (
        good n,
        await-lost serial r.0 r.1 (arrivals_of rs (map arrived qs ++ (arrived p ∷ later))) f.0,
        attempts-rounds send good rs n request (next_serial serial) r.1 qs p later
            (omega (arith, l)) f.1 s a,
      )
      refl

-- If every bcap_send succeeds, some attempts fail, fewer than the connection has retries, and no packet
-- that arrives before answers the request of its attempt, then the packet that does is the answer of send_receive, its code the
-- result, and the requests sent are one for each attempt so far, under consecutive numbers.
pub send_receive-rounds :
    (send : ℕ → ℕ) (c : Connection) (request : Packet) (rs : List Round) (qs : List Packet)
    (p : Packet) (later : List Arrival)
    → ((k : ℕ) → failed (send k) ≡ false)
    → length rs < c.retry
    → AllFail c.serial rs
    → AllStale (advance (length rs) c.serial) qs
    → is_answer (advance (length rs) c.serial) p ≡ true
    → send_receive send c request (arrivals_of rs (map arrived qs ++ (arrived p ∷ later)))
      ≡ some (record {
        hr = p.id;
        sent = requests (suc (length rs)) (record request { reserv = reserv_of c }) c.serial;
        serial = advance (suc (length rs)) c.serial;
        answer = some p;
      })
unfolding send_receive
send_receive-rounds send c request rs qs p later good l f s a =
    attempts-rounds send good rs c.retry (record request { reserv = reserv_of c }) c.serial s_ok qs
      p later l f s a
