-- ===== src/Bcap/Wire/Packets.antt =====
-- bcap_packet2bytary of library/src/bcap_common.c writes the described packet.
use denso_ipc.Prelude.{
  ℕ, suc, ◌+◌, ◌-◌, ◌^◌, ◌≤◌, ◌<◌, ◌≡◌, ap, ◌∙◌, true, some, List, [], ◌∷◌, ◌++◌, append_assoc,
  append-nil, length, drop, replicate, length-append, length-replicate, drop-length, drop-replicate,
  replicate-suc, to_le, length-to_le, le→ltb-false, arith,
}
use denso_ipc.Outcome.{ok}
use denso_ipc.Variant.{count}
use denso_ipc.Bcap.Platform.{Platform}
use denso_ipc.Bcap.Packet.{Packet, header, terminator, size_min}
use denso_ipc.Bcap.Writer.{Writer, copy, ◌>>◌, Emits, copy-Emits, Emits-seq, store, store-at}
use denso_ipc.Bcap.Encode.{vntary2bytary, write_packet, packet2bytary}
use denso_ipc.Bcap.Wire.{head, wire_size, frame, filled, entries, AllWhole}
use denso_ipc.Bcap.Wire.Emits.{vntary2bytary-Emits}

pub length-head : (packet : Packet) (len : ℕ) → length (head packet len) ≡ 15
unfolding head
length-head packet len = omega (
  arith,
  length-append (to_le 4 len) (
      to_le 2 packet.serial
      ++ (to_le 2 packet.reserv ++ (to_le 4 packet.id ++ to_le 2 packet.argc))),
  length-append (to_le 2 packet.serial)
      (to_le 2 packet.reserv ++ (to_le 4 packet.id ++ to_le 2 packet.argc)),
  length-append (to_le 2 packet.reserv) (to_le 4 packet.id ++ to_le 2 packet.argc),
  length-append (to_le 4 packet.id) (to_le 2 packet.argc),
  length-to_le 4 len,
  length-to_le 2 packet.serial,
  length-to_le 2 packet.reserv,
  length-to_le 4 packet.id,
  length-to_le 2 packet.argc,
)

head-append :
    (packet : Packet) (len : ℕ) (bs : List ℕ)
    → head packet len ++ bs
      ≡ (header ∷ [])
        ++ (to_le 4 len
            ++ (to_le 2 packet.serial
                ++ (to_le 2 packet.reserv ++ (to_le 4 packet.id ++ (to_le 2 packet.argc ++ bs)))))
unfolding head
head-append packet len bs = simp append_assoc

abbrev zeros : ℕ → List ℕ
zeros n = replicate n 0

module _ (p : Platform) (packet : Packet) (whole : AllWhole packet.args)
    (counted : packet.argc ≡ count packet.args) (len : ℕ) (small : len < 2 ^ 32)
    (room : wire_size p packet ≤ len) where
  abbrev lim : ℕ
  lim = len - 1

  then-Emits :
      (bs : List ℕ) (f : Writer) (cs : List ℕ)
      → Emits lim f cs
      → Emits lim (copy bs >> f) (bs ++ cs)
  then-Emits bs f cs h =
      Emits-seq lim (omega arith) (copy bs) f bs cs (copy-Emits lim (omega arith) bs) h

  args-Emits :
      Emits lim (vntary2bytary p lim packet.args packet.argc true) (entries p true packet.args)
  args-Emits = rw counted (vntary2bytary-Emits p lim (omega arith) packet.args whole true)

  write_packet-Emits :
      Emits lim (write_packet p packet len) (head packet len ++ entries p true packet.args)
  unfolding write_packet
  write_packet-Emits = rw (head-append packet len (entries p true packet.args)) (
      then-Emits _ _ _ (
        then-Emits _ _ _
          (then-Emits _ _ _ (then-Emits _ _ _ (then-Emits _ _ _ (then-Emits _ _ _ args-Emits))))))

  abbrev body : List ℕ
  body = head packet len ++ entries p true packet.args

  length-body : length body + 1 ≤ len
  unfolding wire_size
  length-body =
      omega (
        arith,
        length-append (head packet len) (entries p true packet.args),
        length-head packet len,
      )

  -- What `memset` leaves, up to the end of the buffer, behind the arguments.
  tail : drop {A = ℕ} (length body) (zeros len) ≡ replicate (len - wire_size p packet) 0 ++ (0 ∷ [])
  unfolding wire_size
  tail =
      rw
        (
          drop-replicate {A = ℕ} (length body) len 0,
          ← replicate-suc {A = ℕ} (len - wire_size p packet) 0,
        )
        (ap (λ k. replicate k 0) {x = len - length body} {y = suc (len - wire_size p packet)}
          (omega (
            arith,
            length-append (head packet len) (entries p true packet.args),
            length-head packet len,
          )))

  abbrev padding : List ℕ
  padding = zeros (len - wire_size p packet)

  length-padded : len - 1 ≡ length (body ++ padding)
  unfolding wire_size
  length-padded = omega (
    arith,
    length-append body padding,
    length-append (head packet len) (entries p true packet.args),
    length-head packet len,
    length-replicate {A = ℕ} (len - wire_size p packet) 0,
  )

  terminate :
      store (body ++ (padding ++ (0 ∷ []))) (len - 1) (terminator ∷ []) ≡ ok (frame p packet len)
  unfolding filled
  terminate =
      rw
        (
          ← append_assoc body padding (0 ∷ []),
          length-padded,
          store-at (body ++ padding) (0 ∷ []) (terminator ∷ []) (omega arith),
          append-nil,
        )
        (ap ok (
          append_assoc body padding (terminator ∷ [])
          ∙ append_assoc (head packet len) (entries p true packet.args)
              (padding ++ (terminator ∷ []))))

  -- If no array is NULL, `argc` counts the arguments, and `len` is no less than the packet takes and
  -- less than 2 ^ 32, bcap_packet2bytary fills a buffer of `len` bytes with the described frame.
  pub packet2bytary-frame :
      (dst : List ℕ)
      → length dst ≡ len
      → packet2bytary p (some packet) (some dst) len ≡ ok (frame p packet len)
  unfolding packet2bytary
  packet2bytary-frame dst e =
      rw
        (
          le→ltb-false len size_min (
              omega (
                arith,
                length-body,
                length-append (head packet len) (entries p true packet.args),
                length-head packet len,
              )),
          store-at [] dst (zeros len) (omega (arith, length-replicate {A = ℕ} len 0)),
          drop-length dst (length (zeros len)) (omega (arith, length-replicate {A = ℕ} len 0)),
          append-nil (zeros len),
          write_packet-Emits [] (zeros len) (omega (arith, length-body))
              (omega (arith, length-replicate {A = ℕ} len 0)),
          tail,
        )
        terminate
