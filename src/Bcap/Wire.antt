-- ===== src/Bcap/Wire.antt =====
-- The b-CAP packet as bytes, described apart from the code that writes them.
pub mod Emits
pub mod Packets
pub mod Sizes
use denso_ipc.Prelude.{
  ℕ, ◌+◌, ◌-◌, ◌*◌, Bool, true, false, List, [], ◌∷◌, ◌++◌, length, replicate, to_le, ◌==◌,
  if◌then◌else◌,
}
use denso_ipc.Variant.{
  Variant, scalar, string, null_array, numbers, strings, variants, Variants, nil, cons, Bstr,
  type_of, count, sys_string_len, vt_date, vt_ui1,
}
use denso_ipc.Bcap.Platform.{Platform}
use denso_ipc.Bcap.Packet.{Packet, header, terminator, size_min}
use denso_ipc.Bcap.Elements.{array_size, scalar_size, chars}
use denso_ipc.Bcap.Encode.{vntdate2bytary}

-- Fixed-width numbers in a row.
unfoldable pub words : ℕ → List ℕ → List ℕ
words size [] = []
words size (n ∷ ns) = to_le size n ++ words size ns

unfoldable pub text : Bstr → List ℕ
text s = to_le 4 (2 * sys_string_len s) ++ words 2 (chars s)

unfoldable pub texts : List Bstr → List ℕ
texts [] = []
texts (s ∷ ss) = text s ++ texts ss

-- The number that stands behind the type.
abbrev pub entry_count : Variant → ℕ
entry_count (scalar vt n) = 1
entry_count (string s) = 1
entry_count (null_array vt) = 0
entry_count (numbers vt ns) = length ns
entry_count (strings ss) = length ss
entry_count (variants vs) = count vs

-- In an argument of the packet the length of what follows stands first.
unfoldable pub framed : Bool → List ℕ → List ℕ
framed true bs = to_le 4 (length bs) ++ bs
framed false bs = bs

-- The fields in front of the arguments, for a packet of `len` bytes.
unfoldable pub head : Packet → ℕ → List ℕ
head packet len =
    (header ∷ [])
    ++ (to_le 4 len
        ++ (to_le 2 packet.serial
            ++ (to_le 2 packet.reserv ++ (to_le 4 packet.id ++ to_le 2 packet.argc))))

module _ (p : Platform) where
  unfoldable pub dates : List ℕ → List ℕ
  dates [] = []
  dates (n ∷ ns) = vntdate2bytary p n ++ dates ns

  unfoldable pub number_bytes : ℕ → List ℕ → List ℕ
  number_bytes vt ns =
      if vt == vt_ui1
      then words 1 ns
      else if vt == vt_date
      then dates ns
      else words (array_size vt) ns

  unfoldable pub scalar_bytes : ℕ → ℕ → List ℕ
  scalar_bytes vt n = if vt == vt_date then vntdate2bytary p n else to_le (scalar_size vt) n

  unfoldable mutual
    pub payload : Variant → List ℕ
    payload (scalar vt n) = scalar_bytes vt n
    payload (string s) = text s
    payload (null_array vt) = []
    payload (numbers vt ns) = number_bytes vt ns
    payload (strings ss) = texts ss
    payload (variants vs) = entries false vs

    pub entries : Bool → Variants → List ℕ
    entries flag nil = []
    entries flag (cons v vs) =
        framed flag (to_le 2 (type_of v) ++ (to_le 4 (entry_count v) ++ payload v))
        ++ entries flag vs

  unfoldable pub wire_size : Packet → ℕ
  wire_size packet = size_min + length (entries true packet.args)

  -- A packet of `len` bytes, with `fill` before the terminator.
  unfoldable pub filled : Packet → ℕ → List ℕ → List ℕ
  filled packet len fill =
      head packet len ++ (entries true packet.args ++ (fill ++ (terminator ∷ [])))

  -- A packet in a buffer of `len` bytes: zeros fill the room.
  abbrev pub frame : Packet → ℕ → List ℕ
  frame packet len = filled packet len (replicate (len - wire_size packet) 0)

  unfoldable pub wire : Packet → List ℕ
  wire packet = frame packet (wire_size packet)

-- No array is NULL, at any depth.
abbrev mutual
  pub IsWhole : Variant → Type 0
  IsWhole (scalar vt n) = Unit
  IsWhole (string s) = Unit
  IsWhole (null_array vt) = ⊥
  IsWhole (numbers vt ns) = Unit
  IsWhole (strings ss) = Unit
  IsWhole (variants vs) = AllWhole vs

  pub AllWhole : Variants → Type 0
  AllWhole nil = Unit
  AllWhole (cons v vs) = IsWhole v × AllWhole vs
