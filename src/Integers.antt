-- ===== src/Integers.antt =====
-- The integers, and the integer types of C: how a value is kept in bits, and conversions between types
-- (library/src/dn_common.c uses them in VariantChangeType).
use denso_ipc.Prelude.{
  ℕ, zero, suc, ◌-◌, ◌*◌, ◌%◌, ◌^◌, ltb, leb, ◌&&◌, if◌then◌else◌, Bool, true, false,
}

pub data ℤ : Type 0 where
  pos : ℕ → ℤ
  negsuc : ℕ → ℤ

-- `x < y`
abbrev pub ltz : ℤ → ℤ → Bool
ltz (pos a) (pos b) = ltb a b
ltz (pos a) (negsuc b) = false
ltz (negsuc a) (pos b) = true
ltz (negsuc a) (negsuc b) = ltb b a

abbrev pub is_zero : ℤ → Bool
is_zero (pos zero) = true
is_zero (pos (suc n)) = false
is_zero (negsuc n) = false

-- An integer type: its size in bytes, and whether it has a sign.
pub record IntType : Type 0 where
  pub size : ℕ
  pub signed : Bool

-- The bits of a value in a type of `w` bits.
unfoldable pub bits : ℕ → ℤ → ℕ
bits w (pos n) = n % 2 ^ w
bits w (negsuc n) = 2 ^ w - 1 - n % 2 ^ w

-- The value of `w` bits.
unfoldable pub of_bits : Bool → ℕ → ℕ → ℤ
of_bits signed w n = if signed && leb (2 ^ (w - 1)) n then negsuc (2 ^ w - 1 - n) else pos n

-- `(type) x`
unfoldable pub cast : IntType → ℤ → ℤ
unfolding bits of_bits
cast t x = of_bits t.signed (8 * t.size) (bits (8 * t.size) x)

-- Constants of limits.h on 64-bit Linux.
abbrev pub short_min : ℤ
short_min = negsuc (2 ^ 15 - 1)

abbrev pub short_max : ℤ
short_max = pos (2 ^ 15 - 1)

abbrev pub ushrt_max : ℤ
ushrt_max = pos (2 ^ 16 - 1)

abbrev pub long_min : ℤ
long_min = negsuc (2 ^ 63 - 1)

abbrev pub long_max : ℤ
long_max = pos (2 ^ 63 - 1)

abbrev pub ulong_max : ℤ
ulong_max = pos (2 ^ 64 - 1)
