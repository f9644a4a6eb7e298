-- ===== src/Client/Session.antt =====
-- Connections of the client, library/src/bCAPClient/bcap_client.c: the serial numbers of
-- send_receive and its retries, and the functions on timeout and retry.
pub mod Exchange
pub mod Answer
pub mod Rounds
use denso_ipc.Prelude.{
  ℕ, zero, suc, ◌+◌, ◌%◌, ◌^◌, ◌==◌, ltb, not, ◌&&◌, ◌||◌, if◌then◌else◌, Bool, true, false, List,
  [], ◌∷◌, ◌++◌, Option, none, some,
}
use denso_ipc.Codes.{failed, s_ok, s_executing, e_fail}
use denso_ipc.Device.{conn_tcp, conn_udp, conn_com}
use denso_ipc.Bcap.Packet.{Packet}

-- What bcap_recv does next: it fails, or receives a packet.
pub data Arrival : Type 0 where
  lost : ℕ → Arrival
  arrived : Packet → Arrival

-- The end of the inner loop of send_receive, with the arrivals that are left; `waiting` where there are no
-- more.
pub data Wait : Type 0 where
  answered : Packet → List Arrival → Wait
  given_up : ℕ → List Arrival → Wait
  waiting : Wait

-- `(packet_send->serial == packet_recv->serial) && (packet_recv->id != S_EXECUTING)`.
unfoldable pub is_answer : ℕ → Packet → Bool
is_answer serial packet = (serial == packet.serial) && not (packet.id == s_executing)

unfoldable pub await : ℕ → List Arrival → Wait
await serial [] = waiting
await serial (lost hr ∷ later) = given_up hr later
await serial (arrived packet ∷ later) =
    let rest = await serial later in if is_answer serial packet then answered packet later else rest

-- `bcap_param->serial++; if (bcap_param->serial == 0) bcap_param->serial = 1;` in uint16_t.
unfoldable pub next_serial : ℕ → ℕ
next_serial serial = if (serial + 1) % 2 ^ 16 == 0 then 1 else (serial + 1) % 2 ^ 16

-- What send_receive returns and leaves: the code, the requests it sent, the connection's serial number,
-- and the answer.
pub record Reply : Type 0 where
  pub hr : ℕ
  pub sent : List Packet
  pub serial : ℕ
  pub answer : Option Packet

unfoldable pub number : Packet → ℕ → Packet
number request serial = record request { serial = serial }

unfoldable pub prepend : Packet → Option Reply → Option Reply
prepend packet none = none
prepend packet (some reply) = some (record reply { sent = packet ∷ reply.sent })

-- The rest of an attempt whose request is sent: `retry` is the next one.
unfoldable pub conclude : Packet → ℕ → (ℕ → List Arrival → Option Reply) → Wait → Option Reply
conclude packet serial retry (answered reply later) =
    some (record { hr = reply.id; sent = packet ∷ []; serial = serial; answer = some reply })
conclude packet serial retry (given_up hr later) = prepend packet (retry hr later)
conclude packet serial retry waiting = none

-- The loop over `retry_cnt`, with the attempts left and the code of the last one. `send n` is the
-- code of bcap_send when `n` more attempts are left. None: it still waits in bcap_recv.
unfoldable pub attempts : (ℕ → ℕ) → ℕ → Packet → ℕ → ℕ → List Arrival → Option Reply
attempts send zero request serial hr arrivals =
    some (record {
      hr = (if failed hr then hr else e_fail);
      sent = [];
      serial = serial;
      answer = none;
    })
attempts send (suc n) request serial hr arrivals =
    if failed (send n)
    then some (record {
      hr = send n;
      sent = number request serial ∷ [];
      serial = next_serial serial;
      answer = none;
    })
    else conclude (number request serial) (next_serial serial)
        (attempts send n request (next_serial serial)) (await serial arrivals)

-- An open connection of the client; the driver's functions are arguments.
pub record Connection : Type 0 where
  pub sock : ℕ
  pub kind : ℕ
  pub timeout : ℕ
  pub retry : ℕ
  pub serial : ℕ

-- `reserv` names the first serial number of the request, except on TCP.
unfoldable pub reserv_of : Connection → ℕ
reserv_of c = if c.kind == conn_tcp then 0 else c.serial

-- The mutex is got.
unfoldable pub send_receive : (ℕ → ℕ) → Connection → Packet → List Arrival → Option Reply
send_receive send c request arrivals =
    attempts send c.retry (record request { reserv = reserv_of c }) c.serial s_ok arrivals

abbrev pub retry_min : ℕ
retry_min = 1

abbrev pub retry_max : ℕ
retry_max = 7

-- The `switch` of bCap_SetRetry, none for E_HANDLE.
unfoldable pub retry_of : ℕ → ℕ → Option ℕ
retry_of kind retry =
    if kind == conn_tcp
    then some 1
    else if (kind == conn_udp) || (kind == conn_com)
    then some (
        if ltb retry retry_min then retry_min else if ltb retry_max retry then retry_max else retry)
    else none
