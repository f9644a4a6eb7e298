-- ===== src/Bcap/Receive.antt =====
-- The last steps of bcap_recv in library/src/bcap_common.c: a whole buffer is decoded, and on a
-- serial line its checksum is compared.
pub mod Serial
use denso_ipc.Prelude.{
  ℕ, ◌+◌, ◌-◌, ◌^◌, ◌<◌, ◌≡◌, ◌≢◌, ap, subst, sym, refl, ◌∙◌, ◌==◌, if◌then◌else◌, Bool, true,
  false, List, [], ◌∷◌, ◌++◌, Option, none, some, append_assoc, length, length-to_le, of_le-to_le,
  of_le, arith, eq→==, ne→==,
}
use denso_ipc.Outcome.{Outcome, ok, err, fault, stuck, bind}
use denso_ipc.Device.{conn_com}
use denso_ipc.Bcap.Platform.{Platform}
use denso_ipc.Bcap.Packet.{Packet, header, terminator}
use denso_ipc.Bcap.Wire.{wire_size, filled}
use denso_ipc.Bcap.Reader.{load, load-at}
use denso_ipc.Bcap.Crc.{calc_crc, calc_crc-lt, calc_crc_changed, AllBytes}
use denso_ipc.Bcap.Decode.{bytary2packet}
use denso_ipc.Bcap.Decode.Exact.{IsExactPacket}
use denso_ipc.Bcap.RoundTrip.{bytary2packet-filled}
use denso_ipc.Bcap.Send.{size_crc}
use denso_ipc.Bcap.Send.Serial.{serial_frame, seal, sealed_part, length-sealed_part, parts}

-- `flag_crc`, which is 1 off a serial line.
unfoldable pub check_crc : ℕ → List ℕ → ℕ → Outcome Bool
check_crc kind buf len_recv =
    if kind == conn_com
    then bind (load buf 1 (len_recv - 1 - size_crc - 1)) (λ bytes.
      bind (load buf (len_recv - size_crc - 1) 2)
        (λ crc_recv. ok (calc_crc (some bytes) == of_le crc_recv)))
    else ok true

-- The packet, and whether the loop ends.
unfoldable pub unpack : Platform → ℕ → List ℕ → ℕ → ℕ → Option ℕ → Outcome (Packet × Bool)
unpack p kind buf len_recv argc args =
    bind (bytary2packet p (some buf) len_recv argc args)
      (λ packet. bind (check_crc kind buf len_recv) (λ flag_crc. ok (packet, flag_crc)))

-- A frame in its parts.
abbrev sealed : ℕ → List ℕ → List ℕ → ℕ → List ℕ
sealed first bytes crc last = (first ∷ []) ++ (bytes ++ (crc ++ (last ∷ [])))

check_crc-sealed :
    (first : ℕ) (bytes crc : List ℕ) (last : ℕ)
    → length crc ≡ 2
    → check_crc conn_com (sealed first bytes crc last) (length bytes + 4)
      ≡ ok (calc_crc (some bytes) == of_le crc)
unfolding check_crc
check_crc-sealed first bytes crc last two = rw (covered, stored) refl
  where
    covered : load (sealed first bytes crc last) 1 (length bytes + 4 - 1 - size_crc - 1) ≡ ok bytes
    covered =
        subst (λ n. load (sealed first bytes crc last) 1 n ≡ ok bytes) {x = length bytes}
          (omega arith) (load-at (first ∷ []) bytes (crc ++ (last ∷ [])))

    stored : load (sealed first bytes crc last) (length bytes + 4 - size_crc - 1) 2 ≡ ok crc
    stored =
        rw (← append_assoc (first ∷ []) bytes (crc ++ (last ∷ [])), place, ← two)
          (load-at ((first ∷ []) ++ bytes) crc (last ∷ []))
      where
        place : length bytes + 4 - size_crc - 1 ≡ length ((first ∷ []) ++ bytes)
        place = omega arith

is_right : Outcome Bool → Bool
is_right (ok b) = b
is_right (err e) = false
is_right fault = false
is_right stuck = false

equal : (x y : ℕ) → (x == y) ≡ true → x ≡ y
equal x y h = ground arith

-- If on a serial line the checksum of a frame is right, and one byte that it covers changes, and
-- the byte and the later ones are below 256, the receiver finds the checksum wrong.
pub check_crc_changed :
    (first : ℕ) (pre : List ℕ) (a b : ℕ) (post crc : List ℕ) (last : ℕ)
    → length crc ≡ 2
    → a < 2 ^ 8
    → b < 2 ^ 8
    → AllBytes post
    → a ≢ b
    → check_crc conn_com (sealed first (pre ++ a ∷ post) crc last) (length (pre ++ a ∷ post) + 4)
      ≡ ok true
    → check_crc conn_com (sealed first (pre ++ b ∷ post) crc last) (length (pre ++ b ∷ post) + 4)
      ≡ ok false
unfolding is_right
check_crc_changed first pre a b post crc last two ha hb hs ne right =
    check_crc-sealed first (pre ++ b ∷ post) crc last two
    ∙ ap ok (ne→== _ _ (λ e. calc_crc_changed pre a b post ha hb hs ne (same ∙ sym e)))
  where
    same : calc_crc (some (pre ++ a ∷ post)) ≡ of_le crc
    same =
        equal _ _
          (ap is_right (sym (check_crc-sealed first (pre ++ a ∷ post) crc last two) ∙ right))

-- With enough memory, what a sender puts on a serial line for an exact packet that takes, with its
-- checksum, fewer than 2 ^ 32 bytes, the receiver decodes as the same packet, and finds the
-- checksum right, if the caller leaves the array of arguments to it.
pub unpack-serial_frame :
    (p : Platform)
    → ((n : ℕ) → p.malloc n ≡ true)
    → (packet : Packet) → IsExactPacket p packet
    → wire_size p packet + size_crc < 2 ^ 32
    → unpack p conn_com (serial_frame p packet) (wire_size p packet + size_crc) 0xffff none
      ≡ ok (packet, true)
unfolding unpack serial_frame seal
unpack-serial_frame p ample packet exact small =
    rw
      (
        bytary2packet-filled p ample packet exact (wire_size p packet + size_crc) small
            (omega arith) (seal p packet) filling,
        checked,
      )
      refl
  where
    filling : length (seal p packet) ≡ wire_size p packet + size_crc - wire_size p packet
    filling = omega (
      arith,
      length-to_le 2 (calc_crc (some (sealed_part p packet (wire_size p packet + size_crc)))),
    )

    checked :
        check_crc conn_com
          (filled p packet (wire_size p packet + size_crc) (seal p packet))
          (wire_size p packet + size_crc)
        ≡ ok true
    checked = rw (parts p packet (seal p packet)) (
        subst
          (λ n.
            check_crc conn_com
              (sealed header (sealed_part p packet (wire_size p packet + size_crc)) (seal p packet)
                terminator)
              n
            ≡ ok true)
          (omega (arith, length-sealed_part p packet))
          (check_crc-sealed header (sealed_part p packet (wire_size p packet + size_crc))
              (seal p packet) terminator (omega (arith, filling))
            ∙ ap ok (eq→== _ _ (sym right))))
      where
        right :
            of_le (seal p packet)
            ≡ calc_crc (some (sealed_part p packet (wire_size p packet + size_crc)))
        right = of_le-to_le 2 _ (
            omega
              (arith, calc_crc-lt (some (sealed_part p packet (wire_size p packet + size_crc)))))
