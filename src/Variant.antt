-- ===== src/Variant.antt =====
-- VARIANT, BSTR and SAFEARRAY of library/include/dn_common.h and library/src/dn_common.c.
pub mod Change
pub mod Gather
use denso_ipc.Prelude.{
  ℕ, suc, ◌+◌, ◌*◌, ◌%◌, ◌^◌, ◌/◌, Bool, Option, none, some, List, [], ◌∷◌, ◌==◌, ◌||◌,
  if◌then◌else◌,
}

-- `enum VARENUM`
abbrev pub vt_i2 : ℕ
vt_i2 = 2

abbrev pub vt_i4 : ℕ
vt_i4 = 3

abbrev pub vt_r4 : ℕ
vt_r4 = 4

abbrev pub vt_r8 : ℕ
vt_r8 = 5

abbrev pub vt_cy : ℕ
vt_cy = 6

abbrev pub vt_date : ℕ
vt_date = 7

abbrev pub vt_bstr : ℕ
vt_bstr = 8

abbrev pub vt_error : ℕ
vt_error = 10

abbrev pub vt_bool : ℕ
vt_bool = 11

abbrev pub vt_variant : ℕ
vt_variant = 12

abbrev pub vt_ui1 : ℕ
vt_ui1 = 17

abbrev pub vt_ui2 : ℕ
vt_ui2 = 18

abbrev pub vt_ui4 : ℕ
vt_ui4 = 19

abbrev pub vt_i8 : ℕ
vt_i8 = 20

abbrev pub vt_ui8 : ℕ
vt_ui8 = 21

abbrev pub vt_array : ℕ
vt_array = 0x2000

-- `(vt & VT_ARRAY) != 0`: one bit of the word.
abbrev pub is_array : ℕ → Bool
is_array vt = vt / vt_array % 2 == 1

-- A BSTR is NULL, or a buffer of `wchar_t` with one more, which is 0.
abbrev pub Bstr : Type 0
Bstr = Option (List ℕ)

-- A VARIANT with the member of the union that its `vt` selects. A number is the bit pattern of the
-- member. The argument of an array's constructor is `vt ^ VT_ARRAY`; `null_array` has a NULL
-- `parray`. `numbers` is a SAFEARRAY of any element type but BSTR and VARIANT.
mutual
  pub data Variant : Type 0 where
    scalar : ℕ → ℕ → Variant
    string : Bstr → Variant
    null_array : ℕ → Variant
    numbers : ℕ → List ℕ → Variant
    strings : List Bstr → Variant
    variants : Variants → Variant

  pub data Variants : Type 0 where
    nil : Variants
    cons : Variant → Variants → Variants

-- `vnt->vt`
abbrev pub type_of : Variant → ℕ
type_of (scalar vt n) = vt
type_of (string s) = vt_bstr
type_of (null_array vt) = vt + vt_array
type_of (numbers vt ns) = vt + vt_array
type_of (strings ss) = vt_bstr + vt_array
type_of (variants vs) = vt_variant + vt_array

abbrev pub count : Variants → ℕ
count nil = 0
count (cons v vs) = suc (count vs)

-- `wcslen`: the characters before the first 0.
unfoldable pub wcslen : List ℕ → ℕ
wcslen [] = 0
wcslen (c ∷ cs) = if c == 0 then 0 else suc (wcslen cs)

unfoldable pub sys_string_len : Bstr → ℕ
unfolding wcslen
sys_string_len none = 0
sys_string_len (some cs) = wcslen cs % 2 ^ 16

-- `sizeof(wchar_t)` on Linux.
abbrev pub wchar_size : ℕ
wchar_size = 4

-- `SysAllocStringLen`: the bytes that it asks `malloc` for. `minlen` is a uint16_t.
unfoldable pub string_bytes : ℕ → ℕ
string_bytes len = wchar_size * (len % 2 ^ 16 + 1) % 2 ^ 16

-- `SafeArrayCreateVector`: the size of an element, none at a type that it refuses. A `time_t`, a
-- pointer and a VARIANT take 8, 8 and 16 bytes on 64-bit Linux.
unfoldable pub element_size : ℕ → Option ℕ
element_size vt =
    if vt == vt_ui1
    then some 1
    else if vt == vt_i2 || vt == vt_ui2 || vt == vt_bool
    then some 2
    else if vt == vt_i4 || vt == vt_ui4 || vt == vt_r4
    then some 4
    else if vt == vt_i8 || vt == vt_ui8 || vt == vt_r8 || vt == vt_cy
    then some 8
    else if vt == vt_date || vt == vt_bstr
    then some 8
    else if vt == vt_variant
    then some 16
    else none

-- `SafeArrayCreateVector`: the room in bytes behind `pvData`, none for NULL. `malloc n` says
-- whether a request for `n` bytes is met. The SAFEARRAY itself takes 32 bytes. `cElements * sz` is
-- a uint32_t.
unfoldable pub create_vector : (ℕ → Bool) → ℕ → ℕ → Option ℕ
create_vector malloc vt n =
    if malloc 32
    then (if n == 0 then some 0 else elim (element_size vt) [
      | none ↦ none
      | some sz ↦ (if malloc (n * sz % 2 ^ 32) then some (n * sz % 2 ^ 32) else none)
    ])
    else none
