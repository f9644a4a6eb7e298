-- ===== src/Variant/Gather.antt =====
-- ChangeVarType and VariantCopy of library/src/dn_common.c, where the destination is an array of VARIANTs in memory, on 64-bit Linux.
use denso_ipc.Prelude.{
  ℕ, zero, suc, ◌+◌, ◌-◌, ◌*◌, ◌%◌, ◌^◌, ◌==◌, leb, ltb, length, map, not, ◌&&◌, ◌||◌,
  if◌then◌else◌, Bool, true, false, List, [], ◌∷◌, ◌++◌, Option, none, some, take, drop, replicate,
  of_le, to_le,
}
use denso_ipc.Outcome.{Outcome, ok, fault, bind, catch}
use denso_ipc.Bcap.Writer.{store}
use denso_ipc.Variant.{
  Variant, Variants, scalar, string, null_array, numbers, strings, variants, nil, cons, is_array,
  vt_array, vt_bstr, vt_variant, vt_error, vt_ui1, element_size,
}
use denso_ipc.Variant.Change.{Conversions, change_type, vt_empty, vt_null}

-- The `switch` of VariantCopy over a type that is no array.
abbrev pub is_scalar_type : ℕ → Bool
is_scalar_type vt =
    ((vt == vt_empty) || (vt == vt_null))
    || ((vt == vt_error)
        || (not (vt == vt_bstr) && (not (vt == vt_variant) && has_size (element_size vt))))
  where
    has_size : Option ℕ → Bool
    has_size none = false
    has_size (some n) = true

-- VariantCopy into a VARIANT that is clear, where there is memory. Its code is not looked at: another type leaves VT_EMPTY.
unfoldable mutual
  pub variant_copy : Variant → Outcome Variant
  variant_copy (scalar vt n) = ok (if is_scalar_type vt then scalar vt n else scalar vt_empty 0)
  variant_copy (string s) = ok (string s)
  variant_copy (null_array vt) = fault
  variant_copy (numbers vt ns) = ok (numbers vt ns)
  variant_copy (strings ss) = ok (strings ss)
  variant_copy (variants vs) = bind (copy_all vs) (λ ws. ok (variants ws))

  pub copy_all : Variants → Outcome Variants
  copy_all nil = ok nil
  copy_all (cons v vs) = bind (variant_copy v) (λ w. bind (copy_all vs) (λ ws. ok (cons w ws)))

-- The bytes of a VARIANT with a number.
unfoldable pub cell : ℕ → ℕ → List ℕ
cell vt n = to_le 2 vt ++ (replicate 6 0 ++ to_le 8 n)

abbrev pub vt_at : List ℕ → ℕ → ℕ
vt_at mem i = of_le (take 2 (drop i mem))

abbrev pub word_at : List ℕ → ℕ → ℕ
word_at mem i = of_le (take 8 (drop (i + 8) mem))

-- VariantClear would free what no allocation returned.
abbrev pub owns : ℕ → ℕ → Bool
owns vt word = (is_array vt || (vt == vt_bstr)) && not (word == 0)

-- VariantClear and memcpy.
unfoldable pub put_variant : List ℕ → ℕ → ℕ → ℕ → Outcome (List ℕ)
put_variant mem i vt n =
    if owns (vt_at mem i) (word_at mem i) then fault else store mem i (cell vt n)

-- The loop over an array of numbers; `pPos` goes on by the size of an element of the source.
unfoldable pub gather : ℕ → ℕ → ℕ → List ℕ → ℕ → ℕ → List ℕ → Outcome (ℕ × List ℕ)
unfolding put_variant
gather vt size room [] i done mem = ok (done, mem)
gather vt size room (n ∷ ns) i done mem = bind (put_variant mem i vt n) (λ mem'.
    if leb room (done + 1)
    then ok (done + 1, mem')
    else gather vt size room ns (i + size) (done + 1) mem')

unfoldable pub gather_numbers : ℕ → List ℕ → ℕ → List ℕ → Outcome (ℕ × List ℕ)
unfolding gather
gather_numbers vt ns room mem = gather_by (element_size vt) vt ns room mem
  where
    gather_by : Option ℕ → ℕ → List ℕ → ℕ → List ℕ → Outcome (ℕ × List ℕ)
    gather_by none vt ns room mem = ok (0, mem)
    gather_by (some size) vt ns room mem = gather vt size room ns 0 0 mem

abbrev pub member : Option ℕ → ℕ → ℕ
member none word = word
member (some size) word = word % 2 ^ (8 * size)

-- The VARIANT that the code finds in 16 bytes.
unfoldable pub variant_at : List ℕ → ℕ → Outcome Variant
variant_at mem i =
    if owns (vt_at mem i) (word_at mem i)
    then fault
    else if is_array (vt_at mem i)
    then ok (null_array (vt_at mem i - vt_array))
    else if vt_at mem i == vt_bstr
    then ok (string none)
    else ok (scalar (vt_at mem i) (member (element_size (vt_at mem i)) (word_at mem i)))

unfoldable pub all_at : List ℕ → ℕ → ℕ → Outcome (List Variant)
all_at mem zero i = ok []
all_at mem (suc n) i =
    bind (variant_at mem i) (λ v. bind (all_at mem n (i + 16)) (λ vs. ok (v ∷ vs)))

abbrev pub put_before : Variant → Option (List Variant) → Option (List Variant)
put_before v none = none
put_before v (some vs) = some (v ∷ vs)

-- The first VARIANTs, copied.
unfoldable pub take_copies : ℕ → Variants → Outcome (Option (List Variant))
take_copies zero vs = ok (some [])
take_copies (suc room) nil = ok none
take_copies (suc room) (cons v vs) =
    bind (variant_copy v) (λ w. bind (take_copies room vs) (λ o. ok (put_before w o)))

abbrev pub full : ℕ → ℕ × List ℕ → Outcome (Option (List Variant))
full room r = if ltb r.0 room then ok none else bind (all_at r.1 room 0) (λ vs. ok (some vs))

-- ChangeVarType with VT_VARIANT into `room` VARIANTs that are clear, two or more: what stands there, if `room` of them
-- were written. Two strings are written over each other, and the pointer that is left is no string.
unfoldable pub change_to_variants : ℕ → Variant → Outcome (Option (List Variant))
unfolding gather_numbers all_at take_copies
change_to_variants room (scalar vt n) = ok none
change_to_variants room (string s) = ok none
change_to_variants room (null_array vt) = fault
change_to_variants room (numbers vt ns) =
    bind (gather_numbers vt ns room (replicate (16 * room) 0)) (full room)
change_to_variants room (strings ss) = if ltb 1 (length ss) then fault else ok none
change_to_variants room (variants vs) = take_copies room vs

-- The byte of a VARIANT with VT_UI1.
abbrev pub byte_of : Variant → ℕ
byte_of (scalar vt n) = n
byte_of _ = 0

-- ChangeVarType with VT_UI1 into four bytes, from the elements of an array of `size` bytes each; a fault past them.
unfoldable pub bytes_from : Conversions → ℕ → List Variant → ℕ → ℕ → List ℕ → Outcome (ℕ × List ℕ)
bytes_from c size [] i done mem = ok (done, mem)
bytes_from c size (v ∷ vs) i done mem = bind (variant_copy v) (λ w.
    catch (change_type c w vt_ui1) (λ e. ok (done, mem))
      (λ b. bind (store mem i (byte_of b ∷ [])) (λ mem'.
        if leb 4 (done + 1)
        then ok (done + 1, mem')
        else bytes_from c size vs (i + size) (done + 1) mem')))

abbrev list_of : Variants → List Variant
list_of nil = []
list_of (cons v vs) = v ∷ list_of vs

abbrev size_or : Option ℕ → ℕ
size_or none = 0
size_or (some n) = n

-- An element that is an array ends the loop, as one that is refused does.
unfoldable pub change_to_bytes : Conversions → Variant → List ℕ → Outcome (ℕ × List ℕ)
unfolding bytes_from
change_to_bytes c (scalar vt n) mem = bytes_from c 0 (scalar vt n ∷ []) 0 0 mem
change_to_bytes c (string s) mem = bytes_from c 0 (string s ∷ []) 0 0 mem
change_to_bytes c (null_array vt) mem = fault
change_to_bytes c (numbers vt ns) mem =
    bytes_from c (size_or (element_size vt)) (map (scalar vt) ns) 0 0 mem
change_to_bytes c (strings ss) mem = bytes_from c 8 (map string ss) 0 0 mem
change_to_bytes c (variants vs) mem = bytes_from c 16 (list_of vs) 0 0 mem
