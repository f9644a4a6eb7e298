-- ===== src/Client/Tests.antt =====
-- Calls of the client with small arguments, and an exchange on a serial line whose first attempt is lost.
use denso_ipc.Prelude.{ℕ, ◌≡◌, ◌≤◌, refl, true, List, [], ◌∷◌, map, some, arith}
use denso_ipc.Outcome.{bind}
use denso_ipc.Codes.{s_ok, s_executing, e_timeout}
use denso_ipc.Device.{conn_com}
use denso_ipc.Variant.{scalar, nil, cons, Bstr}
use denso_ipc.Bcap.Packet.{Packet}
use denso_ipc.Client.{build}
use denso_ipc.Prelude.{◌+◌}
use denso_ipc.Variant.{Variant}
use denso_ipc.Client.Prototypes.{prototypes}
use denso_ipc.Client.Calls.{
  all_calls, packet_of, build-all_calls, disagreeing, disagreeing-all_calls,
}
use denso_ipc.Client.Session.{
  Arrival, lost, arrived, Connection, Reply, attempts, await, conclude, is_answer, next_serial,
  number, prepend, reserv_of, send_receive,
}
use denso_ipc.Client.Session.Exchange.{
  requests, advance, IsSerial, AllSerial, send_receive-IsSerial,
}
use denso_ipc.Client.Session.Rounds.{arrivals_of, send_receive-rounds}
use denso_ipc.Client.Session.Answer.{TakesAnswer, send_receive-TakesAnswer}

-- Arguments of a type that differ.
abbrev handles : ℕ → ℕ
handles i = 5 + i

abbrev floats : ℕ → ℕ
floats i = 70 + i

abbrev names : ℕ → Bstr
names i = some ((65 + i) ∷ 66 ∷ [])

abbrev values : ℕ → Variant
values i = scalar 3 (9 + i)

build-all_calls_example :
    map (λ c. bind c (build (λ k. true))) (all_calls handles floats names values)
    ≡ map packet_of (prototypes handles floats names values)
build-all_calls_example = build-all_calls (λ k. true) (λ k. refl) handles floats names values

disagreeing-all_calls_example : disagreeing (all_calls handles floats names values) ≡ 112 ∷ 124 ∷ []
disagreeing-all_calls_example = disagreeing-all_calls handles floats names values

-- A connection whose number is about to wrap around.
abbrev line : Connection
line = record { sock = 4; kind = conn_com; timeout = 300; retry = 3; serial = 65535 }

abbrev request : Packet
request = record { serial = 0; reserv = 0; id = 3; argc = 1; args = cons (scalar 3 8) nil }

abbrev answer : Packet
answer = record { serial = 1; reserv = 0; id = 0; argc = 1; args = cons (scalar 3 21) nil }

-- The first attempt times out; then the server says that it works, and answers.
abbrev line_arrivals : List Arrival
line_arrivals = lost e_timeout ∷ arrived (record answer { id = s_executing }) ∷ arrived answer ∷ []

abbrev line_request : ℕ → Packet
line_request n = record request { serial = n; reserv = 65535 }

abbrev line_reply : Reply
line_reply = record {
  hr = s_ok;
  sent = line_request 65535 ∷ line_request 1 ∷ [];
  serial = 2;
  answer = some answer;
}

line_exchange : send_receive (λ n. s_ok) line request line_arrivals ≡ some line_reply
unfolding send_receive attempts await conclude is_answer next_serial number prepend reserv_of
line_exchange = refl

send_receive-IsSerial_example :
    IsSerial 2 × AllSerial (line_request 65535 ∷ line_request 1 ∷ []) × (2 ≤ 3)
send_receive-IsSerial_example =
    send_receive-IsSerial (λ n. s_ok) line request line_arrivals line_reply
      (omega arith, omega arith) line_exchange

send_receive-TakesAnswer_example : TakesAnswer line_reply answer
send_receive-TakesAnswer_example =
    send_receive-TakesAnswer (λ n. s_ok) line request line_arrivals line_reply answer line_exchange
      refl

send_receive-rounds_example : send_receive (λ n. s_ok) line request line_arrivals ≡ some line_reply
unfolding arrivals_of is_answer requests advance next_serial number reserv_of
send_receive-rounds_example =
    send_receive-rounds (λ n. s_ok) line request (([], e_timeout) ∷ [])
      (record answer { id = s_executing } ∷ []) answer [] (λ k. refl) (omega arith) (tt, tt)
      (refl, tt) refl
