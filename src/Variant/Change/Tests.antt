-- ===== src/Variant/Change/Tests.antt =====
-- Changes of integers, with conversions of floats and strings that are never used.
use denso_ipc.Prelude.{true, ◌≡◌, [], some, arith}
use denso_ipc.Outcome.{ok, err, overflow}
use denso_ipc.Integers.{pos, of_bits}
use denso_ipc.Variant.{scalar, vt_i2, vt_i4, vt_cy, vt_ui1, vt_ui2, vt_ui4, vt_i8, vt_ui8}
use denso_ipc.Variant.Change.{Conversions, change_type}
use denso_ipc.Variant.Change.Lossy.{change_type-refused, change_type-low_bits}
use denso_ipc.Variant.Change.Exact.{IsExact, change_type-IsExact}

abbrev conversions : Conversions
conversions = record {
  to_r4 = λ v. 0;
  to_r8 = λ v. 0;
  to_bstr = λ v. ok (some []);
  of_float = λ v vt. err overflow;
  of_bstr = λ s vt. err overflow;
}

change_type-refused_example :
    (change_type conversions (scalar vt_i2 7) vt_ui1 ≡ err overflow)
    × (change_type conversions (scalar vt_i8 7) vt_ui4 ≡ err overflow)
    × (change_type conversions (scalar vt_cy 7) vt_ui4 ≡ err overflow)
change_type-refused_example = change_type-refused conversions 7

change_type-low_bits_example :
    (change_type conversions (scalar vt_i8 0x100000005) vt_i4 ≡ ok (scalar vt_i4 5))
    × (change_type conversions (scalar vt_ui8 0x100000006) vt_ui4 ≡ ok (scalar vt_ui4 6))
    × (change_type conversions (scalar vt_ui2 0x107) vt_ui1 ≡ ok (scalar vt_ui1 7))
change_type-low_bits_example =
    change_type-low_bits conversions 0x100000005 0x100000006 0x107 (omega arith) (omega arith)
      (omega arith)

change_type-IsExact_example :
    IsExact (of_bits true 32 40000) (change_type conversions (scalar vt_i4 40000) vt_i2)
    × IsExact (of_bits true 64 40000) (change_type conversions (scalar vt_i8 40000) vt_i2)
    × IsExact (of_bits true 64 40000) (change_type conversions (scalar vt_cy 40000) vt_i2)
    × IsExact (pos 40000) (change_type conversions (scalar vt_ui4 40000) vt_i2)
    × IsExact (pos 40000) (change_type conversions (scalar vt_ui8 40000) vt_i2)
change_type-IsExact_example = change_type-IsExact conversions 40000
