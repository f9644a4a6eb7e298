-- ===== src/Variant/Change.antt =====
-- VariantChangeType of library/src/dn_common.c where source and destination are one VARIANT, on 64-bit Linux. Floats and
-- strings are converted by functions of the machine and its C library.
pub mod Lossy
pub mod Exact
mod Tests
use denso_ipc.Prelude.{
  ℕ, ◌*◌, ◌==◌, ltb, ◌&&◌, ◌||◌, not, if◌then◌else◌, Bool, true, false, List, [], Option, none,
  some,
}
use denso_ipc.Outcome.{Outcome, ok, err, bind, badvartype, typemismatch, overflow}
use denso_ipc.Integers.{
  ℤ, pos, ltz, is_zero, IntType, bits, of_bits, cast, short_min, short_max, ushrt_max, long_min,
  long_max, ulong_max,
}
use denso_ipc.Variant.{
  Variant, Bstr, scalar, string, type_of, vt_i2, vt_i4, vt_r4, vt_r8, vt_cy, vt_date, vt_bstr,
  vt_error, vt_bool, vt_ui1, vt_ui2, vt_ui4, vt_i8, vt_ui8,
}

abbrev pub vt_empty : ℕ
vt_empty = 0

abbrev pub vt_null : ℕ
vt_null = 1

-- The bits of a float and of a double for an integer, Variant2Bstr with swprintf, and the conversions from a float, a double
-- and a BSTR.
pub record Conversions : Type 0 where
  pub to_r4 : ℤ → ℕ
  pub to_r8 : ℤ → ℕ
  pub to_bstr : Variant → Outcome Bstr
  pub of_float : Variant → ℕ → Outcome Variant
  pub of_bstr : Bstr → ℕ → Outcome Variant

-- The C type of a member, where it is an integer that VARIANT can be changed to with a check.
abbrev pub int_type : ℕ → Option IntType
int_type vt =
    if vt == vt_i2
    then some (record { size = 2; signed = true })
    else if vt == vt_i4
    then some (record { size = 4; signed = true })
    else if (vt == vt_i8) || (vt == vt_cy)
    then some (record { size = 8; signed = true })
    else if vt == vt_ui1
    then some (record { size = 1; signed = false })
    else if vt == vt_ui2
    then some (record { size = 2; signed = false })
    else if vt == vt_ui4
    then some (record { size = 4; signed = false })
    else if vt == vt_ui8
    then some (record { size = 8; signed = false })
    else none

-- CheckOverflow, where the source is no float.
abbrev pub check_overflow : ℕ → IntType → Bool
check_overflow size t = ltb size t.size

-- The tests for a signed destination with its two limits.
abbrev pub out_of_range : ℕ → ℤ → ℤ → IntType → ℤ → Bool
out_of_range size least most t v =
    check_overflow size t && ((t.signed && ltz v (cast t least)) || ltz (cast t most) v)

-- The tests for an unsigned destination with its limit; `any_sign` skips the test of the sign.
abbrev pub too_large : Bool → ℕ → ℤ → IntType → ℤ → Bool
too_large any_sign size most t v =
    (not any_sign && ltz v (pos 0)) || (check_overflow size t && ltz (cast t most) v)

-- `chk` and the tests of a destination.
unfoldable pub refuses : ℕ → IntType → ℤ → ℕ → Bool
refuses src t v vt =
    if vt == vt_i2
    then out_of_range 2 short_min short_max t v
    else if vt == vt_i4
    then out_of_range 4 long_min long_max t v
    else if (vt == vt_i8) || (vt == vt_cy)
    then out_of_range 8 long_min long_max t v
    else if vt == vt_ui1
    then too_large false 1 ushrt_max t v
    else if vt == vt_ui2
    then too_large (src == vt_i2) 2 ushrt_max t v
    else if vt == vt_ui4
    then too_large (src == vt_i4) 4 ulong_max t v
    else if vt == vt_ui8
    then too_large (src == vt_i8) 8 ulong_max t v
    else false

abbrev pub to_integer : ℕ → Option IntType → Bool → ℤ → Outcome Variant
to_integer vt none refused v = err badvartype
to_integer vt (some d) true v = err overflow
to_integer vt (some d) false v = ok (scalar vt (bits (8 * d.size) v))

-- SubChangeType, for a member of type `t` with the value `v`; `self` is the source.
unfoldable pub sub_change_type : Conversions → Variant → IntType → ℤ → Bool → ℕ → Outcome Variant
sub_change_type c self t v chk vt =
    if (vt == vt_empty) || (vt == vt_null)
    then ok (scalar vt 0)
    else if vt == vt_error
    then err typemismatch
    else if vt == vt_r4
    then ok (scalar vt (c.to_r4 v))
    else if vt == vt_r8
    then ok (scalar vt (c.to_r8 v))
    else if vt == vt_date
    then ok (scalar vt (bits 64 v))
    else if vt == vt_bstr
    then bind (c.to_bstr self) (λ s. ok (string s))
    else if vt == vt_bool
    then ok (scalar vt (if is_zero v then 0 else 0xffff))
    else to_integer vt (int_type vt) (chk && refuses (type_of self) t v vt) v

abbrev pub of_integer : Conversions → ℕ → ℕ → Option IntType → ℕ → Outcome Variant
of_integer c src n none vt = err badvartype
of_integer c src n (some t) vt =
    sub_change_type c (scalar src n) t (of_bits t.signed (8 * t.size) n) true vt

abbrev pub of_empty : ℕ → Outcome Variant
of_empty vt =
    if vt == vt_bstr
    then ok (string (some []))
    else if vt == vt_error
    then err typemismatch
    else ok (scalar vt 0)

unfoldable pub of_scalar : Conversions → ℕ → ℕ → ℕ → Outcome Variant
of_scalar c src n vt =
    if src == vt_empty
    then of_empty vt
    else if (src == vt_null) || (src == vt_error)
    then err typemismatch
    else if (src == vt_r4) || (src == vt_r8)
    then c.of_float (scalar src n) vt
    else if src == vt_date
    then sub_change_type c (scalar src n) (record { size = 8; signed = true }) (of_bits true 64 n)
        true vt
    else if src == vt_bool
    then sub_change_type c (scalar src n) (record { size = 2; signed = true }) (of_bits true 16 n)
        false vt
    else of_integer c src n (int_type src) vt

-- An array has a type that the `switch` does not list.
unfoldable pub change_type : Conversions → Variant → ℕ → Outcome Variant
change_type c v vt = if vt == type_of v then ok v else change c v vt
  where
    change : Conversions → Variant → ℕ → Outcome Variant
    change c (scalar src n) vt = of_scalar c src n vt
    change c (string s) vt = c.of_bstr s vt
    change c _ vt = err badvartype
