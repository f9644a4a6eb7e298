-- ===== src/Variant/Change/Exact.antt =====
-- VariantChangeType of library/src/dn_common.c from wider integers to VT_I2.
use denso_ipc.Prelude.{
  ℕ, ◌-◌, ◌%◌, ◌^◌, ◌≤◌, ◌<◌, ◌≡◌, ◌≢◌, ◌⊎◌, refl, ap, ltb, leb, ◌||◌, Bool, Bool-cases, inl, inr,
  true, false, some, lt→leb-false, le→leb, arith,
}
use denso_ipc.Outcome.{Outcome, ok, err, overflow}
use denso_ipc.Integers.{ℤ, pos, negsuc, ltz, IntType, bits, of_bits, cast, short_min, short_max}
use denso_ipc.Variant.{Variant, scalar, vt_i2, vt_i4, vt_cy, vt_ui4, vt_i8, vt_ui8}
use denso_ipc.Variant.Change.{
  Conversions, refuses, to_integer, sub_change_type, of_scalar, change_type,
}

abbrev pub i2_type : IntType
i2_type = record { size = 2; signed = true }

-- The outcome of a change to VT_I2: a VARIANT with the same value, or DISP_E_OVERFLOW where an `int16_t` cannot have
-- the value.
abbrev pub IsExact : ℤ → Outcome Variant → Type 0
IsExact v o =
    ((m : ℕ) × (o ≡ ok (scalar vt_i2 m)) × (of_bits true 16 m ≡ v))
    ⊎ ((o ≡ err overflow) × (cast i2_type v ≢ v))

magnitude : ℤ → ℕ
magnitude (pos n) = n
magnitude (negsuc n) = n

is_negative : ℤ → Bool
is_negative (pos n) = false
is_negative (negsuc n) = true

misfit : ℤ → Bool
misfit v = ltz v short_min || ltz short_max v

cast-pos : (n : ℕ) → 2 ^ 15 ≤ n → cast i2_type (pos n) ≢ pos n
unfolding cast bits of_bits magnitude is_negative
cast-pos n h e = elim (Bool-cases (leb (2 ^ 15) (n % 2 ^ 16))) [
  | inl f ↦ absurd (true-ne-false (ap is_negative (rw f at e)))
  | inr f ↦ small (ap magnitude (rw f at e)) f
]
  where
    true-ne-false : true ≢ false
    true-ne-false e = cc

    small : n % 2 ^ 16 ≡ n → leb (2 ^ 15) (n % 2 ^ 16) ≡ false → ⊥
    small g f = ground (arith, h)

cast-negsuc : (n : ℕ) → 2 ^ 15 ≤ n → cast i2_type (negsuc n) ≢ negsuc n
unfolding cast bits of_bits magnitude is_negative
cast-negsuc n h e = elim (Bool-cases (leb (2 ^ 15) (2 ^ 16 - 1 - n % 2 ^ 16))) [
  | inl f ↦ small (ap magnitude (rw f at e)) f
  | inr f ↦ absurd (false-ne-true (ap is_negative (rw f at e)))
]
  where
    false-ne-true : false ≢ true
    false-ne-true e = cc

    small :
        2 ^ 16 - 1 - (2 ^ 16 - 1 - n % 2 ^ 16) ≡ n
        → leb (2 ^ 15) (2 ^ 16 - 1 - n % 2 ^ 16) ≡ true
        → ⊥
    small g f = ground (arith, h)

kept-pos : (n : ℕ) → n < 2 ^ 15 → of_bits true 16 (bits 16 (pos n)) ≡ pos n
unfolding bits of_bits
kept-pos n h =
    rw (lt→leb-false (2 ^ 15) (n % 2 ^ 16) (omega (arith, h))) (ap pos (omega (arith, h)))

kept-negsuc : (n : ℕ) → n < 2 ^ 15 → of_bits true 16 (bits 16 (negsuc n)) ≡ negsuc n
unfolding bits of_bits
kept-negsuc n h =
    rw (le→leb (2 ^ 15) (2 ^ 16 - 1 - n % 2 ^ 16) (omega (arith, h))) (ap negsuc (omega (arith, h)))

to_integer-IsExact : (v : ℤ) → IsExact v (to_integer vt_i2 (some i2_type) (misfit v) v)
unfolding misfit
to_integer-IsExact (pos n) = elim (Bool-cases (ltb (2 ^ 15 - 1) n)) [
  | inl e ↦ inr (rw e refl, cast-pos n (ground arith))
  | inr e ↦ inl (bits 16 (pos n), rw e refl, kept-pos n (ground arith))
]
to_integer-IsExact (negsuc n) = elim (Bool-cases (ltb (2 ^ 15 - 1) n)) [
  | inl e ↦ inr (rw e refl, cast-negsuc n (ground arith))
  | inr e ↦ inl (bits 16 (negsuc n), rw e refl, kept-negsuc n (ground arith))
]

-- An I4, I8, CY, UI4 or UI8 is changed to an I2 with the same value where an `int16_t` can have it, and refused
-- with DISP_E_OVERFLOW where it cannot.
pub change_type-IsExact :
    (c : Conversions) (n : ℕ)
    → IsExact (of_bits true 32 n) (change_type c (scalar vt_i4 n) vt_i2)
      × IsExact (of_bits true 64 n) (change_type c (scalar vt_i8 n) vt_i2)
      × IsExact (of_bits true 64 n) (change_type c (scalar vt_cy n) vt_i2)
      × IsExact (pos n) (change_type c (scalar vt_ui4 n) vt_i2)
      × IsExact (pos n) (change_type c (scalar vt_ui8 n) vt_i2)
unfolding change_type of_scalar sub_change_type refuses cast of_bits bits misfit
change_type-IsExact c n = (
  to_integer-IsExact (of_bits true 32 n),
  to_integer-IsExact (of_bits true 64 n),
  to_integer-IsExact (of_bits true 64 n),
  to_integer-IsExact (pos n),
  to_integer-IsExact (pos n),
)
