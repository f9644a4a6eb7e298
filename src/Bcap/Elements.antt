-- ===== src/Bcap/Elements.antt =====
-- The sizes that library/src/bcap_common.c gives to the elements of arrays and to single values,
-- and what a packet carries of a BSTR.
use denso_ipc.Prelude.{
  ℕ, ◌||◌, Option, none, some, List, [], ◌∷◌, ◌++◌, length, take, to_le, ◌==◌, if◌then◌else◌,
}
use denso_ipc.Variant.{
  Variant, scalar, string, null_array, numbers, strings, variants, Bstr, count, sys_string_len,
  vt_i2, vt_i4, vt_r4, vt_r8, vt_cy, vt_date, vt_error, vt_bool, vt_ui1, vt_ui2, vt_ui4, vt_i8,
  vt_ui8,
}

-- The `size` that the switch of bcap_vnt2bytary and of bcap_bytary2vnt sets for the elements of an
-- array. VT_UI1 and VT_DATE have code of their own.
unfoldable pub array_size : ℕ → ℕ
array_size vt =
    if vt == vt_i2 || vt == vt_ui2 || vt == vt_bool
    then 2
    else if vt == vt_i4 || vt == vt_ui4 || vt == vt_r4
    then 4
    else if vt == vt_i8 || vt == vt_ui8 || vt == vt_r8 || vt == vt_cy
    then 8
    else 0

-- The same for a single value. VT_DATE has code of its own.
unfoldable pub scalar_size : ℕ → ℕ
scalar_size vt =
    if vt == vt_ui1
    then 1
    else if vt == vt_i2 || vt == vt_ui2 || vt == vt_bool
    then 2
    else if vt == vt_i4 || vt == vt_ui4 || vt == vt_r4 || vt == vt_error
    then 4
    else if vt == vt_i8 || vt == vt_ui8 || vt == vt_r8 || vt == vt_cy
    then 8
    else 0

-- The characters of a BSTR that a packet carries.
abbrev pub chars : Bstr → List ℕ
chars none = []
chars (some cs) = take (sys_string_len (some cs)) cs

-- `cnt` in bcap_vntary2bytary; none for a NULL array.
abbrev pub element_count : Variant → Option ℕ
element_count (scalar vt n) = some 1
element_count (string s) = some 1
element_count (null_array vt) = none
element_count (numbers vt ns) = some (length ns)
element_count (strings ss) = some (length ss)
element_count (variants vs) = some (count vs)

-- The elements of an array of VT_UI1 in memory.
unfoldable pub bytes_of : List ℕ → List ℕ
bytes_of [] = []
bytes_of (n ∷ ns) = to_le 1 n ++ bytes_of ns

-- The bytes that an element of an array of numbers takes, in a packet and in memory.
unfoldable pub numeric_size : ℕ → ℕ
numeric_size vt = if vt == vt_ui1 then 1 else if vt == vt_date then 8 else array_size vt
