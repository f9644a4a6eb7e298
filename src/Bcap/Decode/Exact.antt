-- ===== src/Bcap/Decode/Exact.antt =====
-- The packets that a receiver gets as they were: each number fits the bytes that the packet gives
-- it, each string fits the room that `SysAllocStringLen` asks for, and the type says what the
-- variant holds.
use denso_ipc.Prelude.{ℕ, ◌*◌, ◌^◌, ◌<◌, ◌≡◌, ◌≢◌, ◌⊎◌, false, none, some, List, [], ◌∷◌, length}
use denso_ipc.Variant.{
  Variant, scalar, string, null_array, numbers, strings, variants, Variants, nil, cons, Bstr, count,
  is_array, vt_bstr, vt_date, vt_ui1,
}
use denso_ipc.Bcap.Platform.{Platform}
use denso_ipc.Bcap.Packet.{Packet}
use denso_ipc.Bcap.Elements.{array_size, scalar_size}
use denso_ipc.Bcap.Encode.{vntdate2bytary}
use denso_ipc.Bcap.Decode.{bytary2vntdate}

-- A character is no terminator, and its upper half is 0.
abbrev pub AllChars : List ℕ → Type 0
AllChars [] = Unit
AllChars (c ∷ cs) = (0 < c) × (c < 2 ^ 16) × AllChars cs

-- `4 * (length + 1)` fits a uint16_t.
abbrev pub IsShort : Bstr → Type 0
IsShort none = ⊥
IsShort (some cs) = (length cs < 16383) × AllChars cs

abbrev pub AllShort : List Bstr → Type 0
AllShort [] = Unit
AllShort (s ∷ ss) = IsShort s × AllShort ss

abbrev pub AllBelow : ℕ → List ℕ → Type 0
AllBelow bound [] = Unit
AllBelow bound (n ∷ ns) = (n < bound) × AllBelow bound ns

module _ (p : Platform) where
  -- The conversion to a double and back returns the date.
  abbrev pub IsDate : ℕ → Type 0
  IsDate n = bytary2vntdate p (vntdate2bytary p n) ≡ n

  abbrev pub AllDates : List ℕ → Type 0
  AllDates [] = Unit
  AllDates (n ∷ ns) = IsDate n × AllDates ns

  abbrev pub AreNumbers : ℕ → List ℕ → Type 0
  AreNumbers vt ns =
      ((vt ≡ vt_ui1) × AllBelow 256 ns)
      ⊎ (((vt ≡ vt_date) × AllDates ns) ⊎ ((0 < array_size vt) × AllBelow (256 ^ array_size vt) ns))

  abbrev pub IsScalar : ℕ → ℕ → Type 0
  IsScalar vt n =
      (vt < 2 ^ 16)
      × (is_array vt ≡ false)
      × (vt ≢ vt_bstr)
      × (((vt ≡ vt_date) × IsDate n) ⊎ ((vt ≢ vt_date) × (n < 256 ^ scalar_size vt)))

  abbrev mutual
    pub IsExact : Variant → Type 0
    IsExact (scalar vt n) = IsScalar vt n
    IsExact (string s) = IsShort s
    IsExact (null_array vt) = ⊥
    IsExact (numbers vt ns) = (8 * length ns < 2 ^ 32) × AreNumbers vt ns
    IsExact (strings ss) = (8 * length ss < 2 ^ 32) × AllShort ss
    IsExact (variants vs) = (16 * count vs < 2 ^ 32) × AllExact vs

    pub AllExact : Variants → Type 0
    AllExact nil = Unit
    AllExact (cons v vs) = IsExact v × AllExact vs

  pub record IsExactPacket (packet : Packet) : Type 0 where
    pub serial_fits : packet.serial < 2 ^ 16
    pub reserv_fits : packet.reserv < 2 ^ 16
    pub id_fits : packet.id < 2 ^ 32
    pub argc_fits : packet.argc < 2 ^ 16
    pub counted : packet.argc ≡ count packet.args
    pub exact : AllExact packet.args
