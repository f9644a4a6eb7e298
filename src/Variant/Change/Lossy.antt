-- ===== src/Variant/Change/Lossy.antt =====
-- VariantChangeType of library/src/dn_common.c between integers whose checks on 64-bit Linux are not those of the types.
use denso_ipc.Prelude.{
  ℕ, ◌*◌, ◌%◌, ◌^◌, ◌<◌, ◌≡◌, refl, ap, leb, ◌||◌, Bool, Bool-cases, inl, inr, true, false, some,
  arith,
}
use denso_ipc.Outcome.{ok, err, overflow}
use denso_ipc.Integers.{
  ℤ, pos, negsuc, ltz, IntType, bits, of_bits, cast, ushrt_max, long_min, long_max, ulong_max,
}
use denso_ipc.Variant.{scalar, vt_i2, vt_i4, vt_cy, vt_ui1, vt_ui2, vt_ui4, vt_i8, vt_ui8}
use denso_ipc.Variant.Change.{
  Conversions, int_type, out_of_range, too_large, refuses, to_integer, sub_change_type, of_scalar,
  change_type,
}

no_middle : (v : ℤ) → (ltz v (pos 0) || ltz (negsuc 0) v) ≡ true
no_middle (pos n) = ground arith
no_middle (negsuc n) = refl

-- An I2 is never changed to an UI1, and neither an I8 nor a CY to an UI4, whatever the value: each is refused
-- with DISP_E_OVERFLOW.
pub change_type-refused :
    (c : Conversions) (n : ℕ)
    → (change_type c (scalar vt_i2 n) vt_ui1 ≡ err overflow)
      × (change_type c (scalar vt_i8 n) vt_ui4 ≡ err overflow)
      × (change_type c (scalar vt_cy n) vt_ui4 ≡ err overflow)
unfolding change_type of_scalar sub_change_type refuses cast of_bits bits
change_type-refused c n = (
  ap (λ b. to_integer vt_ui1 (int_type vt_ui1) b (of_bits true 16 n))
      (no_middle (of_bits true 16 n)),
  ap (λ b. to_integer vt_ui4 (int_type vt_ui4) b (of_bits true 64 n))
      (no_middle (of_bits true 64 n)),
  ap (λ b. to_integer vt_ui4 (int_type vt_ui4) b (of_bits true 64 n))
      (no_middle (of_bits true 64 n)),
)

abbrev long_type : Bool → IntType
long_type signed = record { size = 8; signed = signed }

abbrev ui2_type : IntType
ui2_type = record { size = 2; signed = false }

within_long :
    (n : ℕ)
    → n < 2 ^ 64
    → out_of_range 4 long_min long_max (long_type true) (of_bits true 64 n) ≡ false
unfolding of_bits bits cast
within_long n h = elim (Bool-cases (leb (2 ^ 63) n)) [
  | inl e ↦ rw e (ground arith)
  | inr e ↦ rw e (ground arith)
]

within_ulong : (n : ℕ) → n < 2 ^ 64 → too_large false 4 ulong_max (long_type false) (pos n) ≡ false
unfolding of_bits bits cast
within_ulong n h = ground arith

within_ushort : (n : ℕ) → n < 2 ^ 16 → too_large false 1 ushrt_max ui2_type (pos n) ≡ false
unfolding of_bits bits cast
within_ushort n h = ground arith

low_bits : (n : ℕ) → n < 2 ^ 64 → bits 32 (of_bits true 64 n) ≡ n % 2 ^ 32
unfolding of_bits bits
low_bits n h = elim (Bool-cases (leb (2 ^ 63) n)) [
  | inl e ↦ rw e (omega (arith, h))
  | inr e ↦ rw e refl
]

to_integer-ok :
    (vt : ℕ) (d : IntType) (b : Bool) (v : ℤ) (m : ℕ)
    → b ≡ false
    → bits (8 * d.size) v ≡ m
    → to_integer vt (some d) b v ≡ ok (scalar vt m)
to_integer-ok vt d b v m e f = rw (e, f) refl

-- An I8 is changed to an I4, an UI8 to an UI4 and an UI2 to an UI1 without any check: whatever the value,
-- its low bits are the result.
pub change_type-low_bits :
    (c : Conversions) (n m k : ℕ)
    → n < 2 ^ 64
    → m < 2 ^ 64
    → k < 2 ^ 16
    → (change_type c (scalar vt_i8 n) vt_i4 ≡ ok (scalar vt_i4 (n % 2 ^ 32)))
      × (change_type c (scalar vt_ui8 m) vt_ui4 ≡ ok (scalar vt_ui4 (m % 2 ^ 32)))
      × (change_type c (scalar vt_ui2 k) vt_ui1 ≡ ok (scalar vt_ui1 (k % 2 ^ 8)))
unfolding change_type of_scalar sub_change_type refuses of_bits bits
change_type-low_bits c n m k hn hm hk = (
  to_integer-ok vt_i4 (record { size = 4; signed = true })
      (out_of_range 4 long_min long_max (long_type true) (of_bits true 64 n)) (of_bits true 64 n)
      (n % 2 ^ 32) (within_long n hn) (low_bits n hn),
  to_integer-ok vt_ui4 (record { size = 4; signed = false })
      (too_large false 4 ulong_max (long_type false) (pos m)) (pos m) (m % 2 ^ 32)
      (within_ulong m hm) refl,
  to_integer-ok vt_ui1 (record { size = 1; signed = false })
      (too_large false 1 ushrt_max ui2_type (pos k)) (pos k) (k % 2 ^ 8) (within_ushort k hk) refl,
)
