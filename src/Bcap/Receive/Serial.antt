-- ===== src/Bcap/Receive/Serial.antt =====
-- The loops of bcap_recv in library/src/bcap_common.c on a serial line: the bytes of the driver are gathered behind a
-- header, until there are as many as the length field says.
pub mod Noise
pub mod Chunks
pub mod Frames
use denso_ipc.Prelude.{
  ℕ, ◌+◌, ◌-◌, ◌*◌, leb, ltb, ◌==◌, ◌||◌, if◌then◌else◌, Bool, true, false, List, [], ◌∷◌, ◌++◌,
  Option, none, some, length, take, drop, of_le,
}
use denso_ipc.Outcome.{Hresult, Outcome, ok, err, fault, bind, e_outofmemory}
use denso_ipc.Device.{conn_com}
use denso_ipc.Bcap.Platform.{Platform}
use denso_ipc.Bcap.Packet.{Packet, header, size_min}
use denso_ipc.Bcap.Send.{size_crc, udp_max_packet}
use denso_ipc.Bcap.Receive.{unpack}

-- What dn_recv does next: it fails, or stores bytes.
pub data Read : Type 0 where
  lost : Hresult → Read
  read : List ℕ → Read

-- What the caller put into `packet_recv`: `argc`, and the room of `args` in bytes.
pub record Caller : Type 0 where
  pub argc : ℕ
  pub room : Option ℕ

-- `len_recved` bytes in `buf_tmp`, or `len_recv` and the bytes of `buf_recv`.
pub data Phase : Type 0 where
  gathering : List ℕ → Phase
  filling : ℕ → List ℕ → Phase

-- The packet with the reads that are left; `waiting` where there are none.
pub data End : Type 0 where
  received : Packet → List Read → End
  waiting : End

-- memchr, and the bytes moved to the front of `buf_tmp`.
unfoldable pub from_header : List ℕ → List ℕ
from_header [] = []
from_header (b ∷ bs) = let later = from_header bs in if b == header then b ∷ bs else later

-- BCAP_SIZE_HEADER + BCAP_SIZE_LEN
abbrev pub size_start : ℕ
size_start = 5

abbrev pub len_min : ℕ
len_min = size_min + size_crc

-- `len_recv` of the bytes behind a header.
abbrev pub len_recv : List ℕ → ℕ
len_recv buf = of_le (take 4 (drop 1 buf))

-- From memchr to the copy into `buf_recv`. A length out of range goes back to `len_recved = 0`.
unfoldable pub settle : (ℕ → Bool) → List ℕ → Outcome Phase
settle malloc buf =
    if ltb (length buf) size_start
    then ok (gathering buf)
    else if ltb (len_recv buf) len_min || ltb udp_max_packet (len_recv buf)
    then ok (gathering [])
    else if malloc (len_recv buf)
    then ok (filling (len_recv buf) (take (len_recv buf) buf))
    else err e_outofmemory

abbrev room_left : Option ℕ → ℕ → Option ℕ
room_left (some n) argc = some n
room_left none argc = if argc == 0 then none else some (16 * argc)

-- `packet_recv` after bcap_bytary2packet.
abbrev pub left : Caller → Packet → Caller
left c packet = record { argc = packet.argc; room = room_left c.room packet.argc }

module _ (p : Platform) where
  -- The end of a round: a packet with a right checksum, or another round.
  unfoldable pub finish : ℕ → List ℕ → Caller → (Caller → Outcome End) → List Read → Outcome End
  finish n buf c retry later =
      bind (unpack p conn_com buf n c.argc c.room)
        (λ r. if r.1 then ok (received r.0 later) else retry (left c r.0))

  unfoldable pub proceed : (Phase → Caller → Outcome End) → List Read → Caller → Phase → Outcome End
  proceed recv later c (gathering buf) = recv (gathering buf) c
  proceed recv later c (filling n buf) =
      if leb n (length buf)
      then finish n buf c (recv (gathering [])) later
      else recv (filling n buf) c

  -- The loops; a read of more bytes than the driver was asked for is a fault.
  unfoldable pub recv_serial : List Read → Phase → Caller → Outcome End
  recv_serial [] phase c = ok waiting
  recv_serial (lost e ∷ later) phase c = err e
  recv_serial (read bytes ∷ later) (gathering buf) c =
      if leb (length buf + length bytes) udp_max_packet
      then bind (settle p.malloc (from_header (buf ++ bytes))) (proceed (recv_serial later) later c)
      else fault
  recv_serial (read bytes ∷ later) (filling n buf) c =
      if leb (length buf + length bytes) n
      then proceed (recv_serial later) later c (filling n (buf ++ bytes))
      else fault

  -- bcap_recv behind its checks.
  unfoldable pub bcap_recv_serial : List Read → ℕ → Option ℕ → Outcome End
  bcap_recv_serial reads argc room =
      recv_serial reads (gathering []) (record { argc = argc; room = room })
