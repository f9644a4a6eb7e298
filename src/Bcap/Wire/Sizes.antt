-- ===== src/Bcap/Wire/Sizes.antt =====
-- bcap_calc_size_packet of library/src/bcap_common.c against the described bytes.
use denso_ipc.Prelude.{
  ℕ, ◌+◌, ◌*◌, ◌%◌, ◌^◌, ◌≤◌, ◌<◌, ◌≡◌, refl, ap, ◌∙◌, true, false, some, none, List, [], ◌∷◌, ◌++◌,
  length, length-append, length-take, to_le, length-to_le, arith,
}
use denso_ipc.Outcome.{ok}
use denso_ipc.Variant.{
  Variant, scalar, string, null_array, numbers, strings, variants, Variants, nil, cons, Bstr,
  type_of, count, sys_string_len, wcslen,
}
use denso_ipc.Bcap.Platform.{Platform}
use denso_ipc.Bcap.Packet.{Packet, size_min}
use denso_ipc.Bcap.Elements.{array_size, scalar_size, chars}
use denso_ipc.Bcap.Encode.{vntdate2bytary}
use denso_ipc.Bcap.Size.{
  calc_array, calc_scalar, calc_string, calc_strings, calc_size_variant, calc_variants, calc_args,
  calc_size_packet,
}
use denso_ipc.Bcap.Wire.{
  words, text, texts, entry_count, framed, dates, number_bytes, scalar_bytes, payload, entries,
  wire_size,
}

pub length-words : (size : ℕ) (ns : List ℕ) → length (words size ns) ≡ length ns * size
unfolding words
length-words size [] = omega arith
length-words size (n ∷ ns) =
    omega (
      arith,
      length-append (to_le size n) (words size ns),
      length-to_le size n,
      length-words size ns,
    )

wcslen-le : (cs : List ℕ) → wcslen cs ≤ length cs
unfolding wcslen
wcslen-le [] = omega arith
wcslen-le (c ∷ cs) = ground (arith, wcslen-le cs)

pub length-chars : (s : Bstr) → length (chars s) ≡ sys_string_len s
unfolding sys_string_len
length-chars none = refl
length-chars (some cs) = omega (arith, length-take (sys_string_len (some cs)) cs, wcslen-le cs)

length-text : (s : Bstr) → length (text s) ≡ calc_string s
unfolding text calc_string
length-text s = omega (
  arith,
  length-append (to_le 4 (2 * sys_string_len s)) (words 2 (chars s)),
  length-to_le 4 (2 * sys_string_len s),
  length-words 2 (chars s),
  length-chars s,
)

calc_strings-texts :
    (ss : List Bstr) (ret : ℕ)
    → ret < 2 ^ 32
    → calc_strings ss ret ≡ (ret + length (texts ss)) % 2 ^ 32
unfolding texts calc_strings
calc_strings-texts [] ret h = omega arith
calc_strings-texts (s ∷ ss) ret h = omega (
  arith,
  calc_strings-texts ss ((ret + calc_string s) % 2 ^ 32) (omega arith),
  length-append (text s) (texts ss),
  length-text s,
)

pub length-framed-true : (bs : List ℕ) → length (framed true bs) ≡ 4 + length bs
unfolding framed
length-framed-true bs =
    omega (arith, length-append (to_le 4 (length bs)) bs, length-to_le 4 (length bs))

framed-false : (bs : List ℕ) → framed false bs ≡ bs
unfolding framed
framed-false bs = refl

calc_string-lt : (s : Bstr) → calc_string s < 2 ^ 18
unfolding calc_string sys_string_len
calc_string-lt none = omega arith
calc_string-lt (some cs) = omega arith

calc_scalar-le : (vt : ℕ) → calc_scalar vt ≤ 8
unfolding calc_scalar
calc_scalar-le vt = ground arith

-- A type, a count, and the payload.
pub length-entry :
    (v : Variant) (bs : List ℕ)
    → length (to_le 2 (type_of v) ++ (to_le 4 (entry_count v) ++ bs)) ≡ 6 + length bs
length-entry v bs = omega (
  arith,
  length-append (to_le 2 (type_of v)) (to_le 4 (entry_count v) ++ bs),
  length-append (to_le 4 (entry_count v)) bs,
  length-to_le 2 (type_of v),
  length-to_le 4 (entry_count v),
)

module _ (p : Platform) where
  pub length-date : (n : ℕ) → length (vntdate2bytary p n) ≡ 8
  unfolding vntdate2bytary
  length-date n = ground (
    arith,
    length-to_le 8 0,
    length-to_le 8 (p.add (p.div (p.double_of n) (p.double_of 86400)) (p.double_of 25569)),
  )

  length-dates : (ns : List ℕ) → length (dates p ns) ≡ length ns * 8
  unfolding dates
  length-dates [] = omega arith
  length-dates (n ∷ ns) =
      omega (arith, length-append (vntdate2bytary p n) (dates p ns), length-date n, length-dates ns)

  length-number_bytes :
      (vt : ℕ) (ns : List ℕ) → length (number_bytes p vt ns) ≡ length ns * calc_array vt
  unfolding number_bytes calc_array array_size
  length-number_bytes vt ns = ground (
    arith,
    length-dates ns,
    length-words 0 ns,
    length-words 1 ns,
    length-words 2 ns,
    length-words 4 ns,
    length-words 8 ns,
  )

  length-scalar_bytes : (vt n : ℕ) → length (scalar_bytes p vt n) ≡ calc_scalar vt
  unfolding scalar_bytes calc_scalar scalar_size
  length-scalar_bytes vt n = ground (
    arith,
    length-date n,
    length-to_le 0 n,
    length-to_le 1 n,
    length-to_le 2 n,
    length-to_le 4 n,
    length-to_le 8 n,
  )

  mutual
    unfolding payload calc_size_variant

    calc_size_variant-payload : (v : Variant) → calc_size_variant v ≡ length (payload p v) % 2 ^ 32
    calc_size_variant-payload (scalar vt n) =
        omega (arith, length-scalar_bytes vt n, calc_scalar-le vt)
    calc_size_variant-payload (string s) = omega (arith, length-text s, calc_string-lt s)
    calc_size_variant-payload (null_array vt) = omega arith
    calc_size_variant-payload (numbers vt ns) = omega (arith, length-number_bytes vt ns)
    calc_size_variant-payload (strings ss) = omega (arith, calc_strings-texts ss 0 (omega arith))
    calc_size_variant-payload (variants vs) =
        omega (arith, calc_variants-entries vs 0 (omega arith))

    calc_variants-entries :
        (vs : Variants) (ret : ℕ)
        → ret < 2 ^ 32
        → calc_variants vs ret ≡ (ret + length (entries p false vs)) % 2 ^ 32
    calc_variants-entries nil ret h = omega arith
    calc_variants-entries (cons v vs) ret h = rw framed-false (
        omega (
          arith,
          calc_variants-entries vs ((ret + 6 + calc_size_variant v) % 2 ^ 32) (omega arith),
          calc_size_variant-payload v,
          length-append (to_le 2 (type_of v) ++ (to_le 4 (entry_count v) ++ payload p v))
              (entries p false vs),
          length-entry v (payload p v),
        ))

  calc_args-entries :
      (vs : Variants) (ret : ℕ)
      → ret < 2 ^ 32
      → calc_args vs (count vs) ret ≡ ok ((ret + length (entries p true vs)) % 2 ^ 32)
  unfolding payload calc_args
  calc_args-entries nil ret h = ap ok (omega arith)
  calc_args-entries (cons v vs) ret h =
      calc_args-entries vs ((ret + 10 + calc_size_variant v) % 2 ^ 32) (omega arith)
      ∙ ap ok (
          omega (
            arith,
            calc_size_variant-payload v,
            length-append
                (framed true (to_le 2 (type_of v) ++ (to_le 4 (entry_count v) ++ payload p v)))
                (entries p true vs),
            length-framed-true (to_le 2 (type_of v) ++ (to_le 4 (entry_count v) ++ payload p v)),
            length-entry v (payload p v),
          ))

  -- If `argc` counts the arguments, bcap_calc_size_packet returns the size of the described packet
  -- modulo 2 ^ 32.
  pub calc_size_packet-wire_size :
      (packet : Packet)
      → packet.argc ≡ count packet.args
      → calc_size_packet (some packet) ≡ ok (wire_size p packet % 2 ^ 32)
  unfolding calc_size_packet wire_size
  calc_size_packet-wire_size packet e = rw e (calc_args-entries packet.args size_min (omega arith))
