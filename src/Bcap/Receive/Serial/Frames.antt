-- ===== src/Bcap/Receive/Serial/Frames.antt =====
-- bcap_send and bcap_recv of library/src/bcap_common.c on the two ends of a serial line.
use denso_ipc.Prelude.{
  ℕ, ◌+◌, ◌^◌, ◌≤◌, ◌<◌, ◌≡◌, ◌⊎◌, refl, sym, ap, ◌∙◌, ltb, ◌||◌, true, List, [], ◌∷◌, ◌++◌, map,
  none, some, length, to_le, length-append, length-to_le, of_le-to_le, arith, le→leb, le→ltb-false,
}
use denso_ipc.Bcap.Platform.{Platform}
use denso_ipc.Bcap.Packet.{Packet, header, terminator}
use denso_ipc.Bcap.Wire.{head, wire_size}
use denso_ipc.Bcap.Crc.{calc_crc}
use denso_ipc.Bcap.Decode.Exact.{IsExactPacket}
use denso_ipc.Bcap.Send.{size_crc, udp_max_packet}
use denso_ipc.Bcap.Send.Serial.{serial_frame, seal, sealed_part, parts, length-sealed_part}
use denso_ipc.Bcap.Receive.{unpack-serial_frame}
use denso_ipc.Bcap.Receive.Serial.{
  Read, read, Caller, gathering, from_header, size_start, len_min, len_recv, settle, proceed,
  recv_serial, bcap_recv_serial,
}
use denso_ipc.Bcap.Receive.Serial.Noise.{IsNoise}
use denso_ipc.Bcap.Receive.Serial.Chunks.{joined, AllFit, Carries, Delivers, recv_serial-noise}

module _ (p : Platform) (packet : Packet) where
  abbrev size : ℕ
  size = wire_size p packet + size_crc

  shape :
      serial_frame p packet
      ≡ (header ∷ []) ++ (sealed_part p packet size ++ (seal p packet ++ (terminator ∷ [])))
  unfolding serial_frame
  shape = parts p packet (seal p packet)

  length-seal : length (seal p packet) ≡ 2
  unfolding seal
  length-seal = length-to_le 2 (calc_crc (some (sealed_part p packet size)))

  pub length-serial_frame : length (serial_frame p packet) ≡ size
  length-serial_frame = rw shape (
      omega (
        arith,
        length-append (sealed_part p packet size) (seal p packet ++ (terminator ∷ [])),
        length-append (seal p packet) (terminator ∷ []),
        length-seal,
        length-sealed_part p packet,
      ))

  len_recv-serial_frame : size < 2 ^ 32 → len_recv (serial_frame p packet) ≡ size
  unfolding sealed_part head to_le
  len_recv-serial_frame small = rw shape (of_le-to_le 4 size small)

  size_least : len_min ≤ size
  unfolding wire_size
  size_least = omega arith

  serial_frame-Carries :
      ((n : ℕ) → p.malloc n ≡ true)
      → IsExactPacket p packet
      → size ≤ udp_max_packet
      → Carries p (record { argc = 0xffff; room = none }) (serial_frame p packet) packet
  serial_frame-Carries ample exact small = record {
    led = (sealed_part p packet size ++ (seal p packet ++ (terminator ∷ [])), shape);
    says = len_recv-serial_frame (omega (arith, small)) ∙ sym length-serial_frame;
    long = omega (arith, length-serial_frame, size_least);
    short = omega (arith, length-serial_frame, small);
    memory = ample (length (serial_frame p packet));
    decodes =
        rw length-serial_frame (unpack-serial_frame p ample packet exact (omega (arith, small)));
  }

  -- With enough memory, what a sender puts on a serial line for an exact packet that takes, with its checksum, at
  -- most 503 bytes, bcap_recv returns as the same packet, if the caller leaves the array of arguments to it, bytes
  -- before the frame are no header bytes, and the driver hands over all these bytes in pieces of at most 499.
  pub bcap_recv_serial-serial_frame :
      ((n : ℕ) → p.malloc n ≡ true)
      → IsExactPacket p packet
      → size ≤ udp_max_packet
      → (cs : List (List ℕ)) (noise : List ℕ) → joined cs ≡ noise ++ serial_frame p packet
      → IsNoise noise
      → AllFit cs
      → Delivers (bcap_recv_serial p (map read cs) 0xffff none) packet
  unfolding bcap_recv_serial
  bcap_recv_serial-serial_frame ample exact small cs noise e quiet fit =
      recv_serial-noise p (record { argc = 0xffff; room = none }) (serial_frame p packet) packet
        (serial_frame-Carries ample exact small) cs noise e quiet fit

-- The bytes that are gathered are dropped.
recv_serial-discards :
    (p : Platform) (c : Caller) (buf bytes rest : List ℕ) (later : List Read)
    → length buf + length bytes ≤ udp_max_packet
    → from_header (buf ++ bytes) ≡ rest
    → size_start ≤ length rest
    → (len_recv rest < len_min) ⊎ (udp_max_packet < len_recv rest)
    → recv_serial p (read bytes ∷ later) (gathering buf) c ≡ recv_serial p later (gathering []) c
unfolding recv_serial settle proceed
recv_serial-discards p c buf bytes rest later fits e long wrong =
    rw
      (
        le→leb (length buf + length bytes) udp_max_packet fits,
        e,
        le→ltb-false (length rest) size_start long,
        out_of_range (len_recv rest) wrong,
      )
      refl
  where
    out_of_range :
        (n : ℕ)
        → (n < len_min) ⊎ (udp_max_packet < n)
        → (ltb n len_min || ltb udp_max_packet n) ≡ true
    out_of_range n h = ground arith

-- A header byte with a length behind it.
abbrev pub start_of : ℕ → List ℕ
start_of l = header ∷ to_le 4 l

length-start_of : (l : ℕ) (bytes : List ℕ) → length (start_of l ++ bytes) ≡ 5 + length bytes
length-start_of l bytes = omega (arith, length-append (to_le 4 l) bytes, length-to_le 4 l)

len_recv-start_of : (l : ℕ) (bytes : List ℕ) → l < 2 ^ 32 → len_recv (start_of l ++ bytes) ≡ l
unfolding to_le
len_recv-start_of l bytes small = of_le-to_le 4 l small

-- With enough memory: if a read of at most 503 bytes begins with a header byte and a length below 18 or above 503, a whole
-- frame of another packet behind them in this read is lost; bcap_recv returns the exact packet of at most 503 bytes, with
-- its checksum, whose frame comes next, in pieces of at most 499 bytes, behind bytes that are no header bytes, if the
-- caller leaves the array of arguments to it.
pub bcap_recv_serial-skips :
    (p : Platform) (packet other : Packet)
    → ((n : ℕ) → p.malloc n ≡ true)
    → IsExactPacket p packet
    → size p packet ≤ udp_max_packet
    → size p other + 5 ≤ udp_max_packet
    → (l : ℕ) → l < 2 ^ 32
    → (l < len_min) ⊎ (udp_max_packet < l)
    → (cs : List (List ℕ)) (noise : List ℕ) → joined cs ≡ noise ++ serial_frame p packet
    → IsNoise noise
    → AllFit cs
    → Delivers
        (bcap_recv_serial p (map read ((start_of l ++ serial_frame p other) ∷ cs)) 0xffff none)
        packet
unfolding bcap_recv_serial from_header
bcap_recv_serial-skips p packet other ample exact small fits l low wrong cs noise e quiet fit =
    rw
      (recv_serial-discards p (record { argc = 0xffff; room = none }) []
        (start_of l ++ serial_frame p other) (start_of l ++ serial_frame p other) (map read cs)
        (omega (arith, fits, long)) refl (omega (arith, long))
        (rw (len_recv-start_of l (serial_frame p other) low) wrong))
      (bcap_recv_serial-serial_frame p packet ample exact small cs noise e quiet fit)
  where
    long : length (start_of l ++ serial_frame p other) ≡ 5 + size p other
    long = length-start_of l (serial_frame p other) ∙ ap (λ n. 5 + n) (length-serial_frame p other)
