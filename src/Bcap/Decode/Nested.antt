-- ===== src/Bcap/Decode/Nested.antt =====
-- Variants of any depth are taken back.
use native.Mathlib.Nat.{mod-eq_of_lt}
use denso_ipc.Prelude.{
  ℕ, suc, ◌+◌, ◌-◌, ◌*◌, ◌%◌, ◌^◌, ◌≤◌, ◌<◌, ◌≡◌, refl, ap, subst, subst₂, sym, inl, inr, Bool,
  true, false, some, List, [], ◌++◌, length, length-append, to_le, of_le, length-to_le, of_le-to_le,
  ◌==◌, eq→==, arith, Bool-cases,
}
use denso_ipc.Outcome.{ok}
use denso_ipc.Variant.{
  Variant, scalar, string, null_array, numbers, strings, variants, Variants, nil, cons, Bstr,
  type_of, count, vt_bstr, vt_variant, is_array, create_vector, element_size, vt_array,
}
use denso_ipc.Bcap.Platform.{Platform}
use denso_ipc.Bcap.Elements.{array_size, numeric_size}
use denso_ipc.Bcap.Reader.{
  Reader, Parses, get, pure, ◌>>=◌, ◌>>◌, pure-Parses, bind-Parses, map-Parses, inside,
  inside-Parses,
}
use denso_ipc.Bcap.Wire.{text, texts, entry_count, framed, number_bytes, payload, entries}
use denso_ipc.Bcap.Wire.Sizes.{length-entry}
use denso_ipc.Bcap.Decode.{
  skip, get_entry, get_entries, get_string, get_strings, get_single, get_array, bytary2vnt,
}
use denso_ipc.Bcap.Decode.Exact.{IsShort, AllShort, AreNumbers, IsExact, AllExact}
use denso_ipc.Bcap.Decode.Parses.{
  word-Parses, get_string-Parses, get_strings-Parses, get_array-Parses, get_single-Parses,
}

-- What the type of an array of numbers says.
record IsNumeric (vt : ℕ) : Type 0 where
  low : vt < 22
  sized : element_size vt ≡ some (numeric_size vt)
  narrow : numeric_size vt ≤ 8
  not_variant : (vt == vt_variant) ≡ false

array_size-IsNumeric : (vt : ℕ) → 0 < array_size vt → IsNumeric vt
unfolding array_size element_size numeric_size
array_size-IsNumeric vt h = ground arith

AreNumbers-IsNumeric : (p : Platform) (vt : ℕ) (ns : List ℕ) → AreNumbers p vt ns → IsNumeric vt
unfolding array_size element_size numeric_size
AreNumbers-IsNumeric p vt ns (inl (e, h)) = ground arith
AreNumbers-IsNumeric p vt ns (inr (inl (e, h))) = ground arith
AreNumbers-IsNumeric p vt ns (inr (inr (e, h))) = array_size-IsNumeric vt e

element_size-bstr : element_size vt_bstr ≡ some 8
unfolding element_size
element_size-bstr = refl

element_size-variant : element_size vt_variant ≡ some 16
unfolding element_size
element_size-variant = refl

is_array_above : (vt : ℕ) → vt < 0x2000 → is_array (vt + vt_array) ≡ true
is_array_above vt h = eq→== _ 1 (omega arith)

length-le-framed : (flag : Bool) (bs : List ℕ) → length bs ≤ length (framed flag bs)
unfolding framed
length-le-framed false bs = omega arith
length-le-framed true bs = omega (arith, length-append (to_le 4 (length bs)) bs)

module _ (p : Platform) (ample : (n : ℕ) → p.malloc n ≡ true) where
  create_vector-some :
      (vt n sz : ℕ)
      → element_size vt ≡ some sz
      → n * sz < 2 ^ 32
      → create_vector p.malloc vt n ≡ some (n * sz)
  unfolding create_vector
  create_vector-some vt n sz e h = rw (ample 32) (elim (Bool-cases (n == 0)) [
    | inl z ↦ rw z (
        ap (λ k. some k) {x = 0} {y = n * sz}
          (let z' : n ≡ 0 = ground arith in rw z' (omega arith)))
    | inr z ↦ rw (z, e, ample (n * sz % 2 ^ 32), mod-eq_of_lt {n = n * sz} {m = 2 ^ 32} h)
  ])

  module _ (len_src : ℕ) (small : len_src < 2 ^ 32) where
    skip-Parses : (bs : List ℕ) → length bs ≡ 4 → Parses len_src (skip true) bs tt
    unfolding skip
    skip-Parses bs e pre post fits =
        ap (λ i. ok (tt, i)) {x = (length pre + 4) % 2 ^ 32} {y = length (pre ++ bs)}
          (omega (arith, length-append pre bs))

    framed-Parses :
        {A : Type 0} (flag : Bool) (m : Reader A) (bs : List ℕ) (a : A)
        → Parses len_src m bs a
        → Parses len_src (skip flag >> m) (framed flag bs) a
    unfolding framed skip
    framed-Parses false m bs a h = h
    framed-Parses true m bs a h =
        bind-Parses len_src small (skip true) (λ _. m) (to_le 4 (length bs)) bs tt a
          (skip-Parses (to_le 4 (length bs)) (length-to_le 4 (length bs))) h

    get_entry-Parses :
        (vnt : ℕ → ℕ → Reader Variant) (flag : Bool) (v : Variant) (bs : List ℕ)
        → type_of v < 2 ^ 16
        → entry_count v < 2 ^ 32
        → Parses len_src (vnt (type_of v) (entry_count v)) bs v
        → Parses len_src
            (get_entry len_src vnt flag)
            (framed flag (to_le 2 (type_of v) ++ (to_le 4 (entry_count v) ++ bs)))
            v
    unfolding get_entry
    get_entry-Parses vnt flag v bs ht hc h =
        framed-Parses flag
          (get len_src 2 >>= λ vt. get len_src 4 >>= λ cnt. vnt (of_le vt) (of_le cnt))
          (to_le 2 (type_of v) ++ (to_le 4 (entry_count v) ++ bs)) v
          (bind-Parses len_src small (get len_src 2)
            (λ vt. get len_src 4 >>= λ cnt. vnt (of_le vt) (of_le cnt)) (to_le 2 (type_of v))
            (to_le 4 (entry_count v) ++ bs) (to_le 2 (type_of v)) v
            (word-Parses len_src small 2 (type_of v))
            (bind-Parses len_src small (get len_src 4)
              (λ cnt. vnt (of_le (to_le 2 (type_of v))) (of_le cnt)) (to_le 4 (entry_count v)) bs
              (to_le 4 (entry_count v)) v (word-Parses len_src small 4 (entry_count v))
              (subst₂ (λ t n. Parses len_src (vnt t n) bs v) (sym (of_le-to_le 2 (type_of v) ht))
                (sym (of_le-to_le 4 (entry_count v) hc)) h)))

    IsExact-type : (v : Variant) → IsExact p v → (type_of v < 2 ^ 16) × (entry_count v < 2 ^ 32)
    IsExact-type (scalar vt n) h = (h.0, omega arith)
    IsExact-type (string s) h = omega arith
    IsExact-type (null_array vt) h = absurd h
    IsExact-type (numbers vt ns) h =
        let k : IsNumeric vt = AreNumbers-IsNumeric p vt ns h.1 in
        (omega (arith, k.low), omega (arith, h.0))
    IsExact-type (strings ss) h = omega (arith, h.0)
    IsExact-type (variants vs) h = omega (arith, h.0)

    get_single-string :
        (s : Bstr) → IsShort s → Parses len_src (get_single p len_src vt_bstr) (text s) (string s)
    unfolding get_single
    get_single-string s h =
        map-Parses len_src small (get_string p len_src) (λ t. string t) (text s) s
          (get_string-Parses p ample len_src small s h)

    get_array-strings :
        (ss : List Bstr)
        → AllShort ss
        → Parses len_src
            (get_array p len_src vt_bstr (length ss * 8) (length ss))
            (texts ss)
            (strings ss)
    unfolding get_array
    get_array-strings ss h =
        map-Parses len_src small (get_strings p len_src (length ss * 8) (length ss) 0)
          (λ ts. strings ts) (texts ss) ss
          (get_strings-Parses p ample len_src small (length ss * 8) ss 0 h (omega arith))

    bytary2vnt-numbers :
        (vt : ℕ) (ns : List ℕ) (fuel : ℕ)
        → 8 * length ns < 2 ^ 32
        → AreNumbers p vt ns
        → Parses len_src
            (bytary2vnt p len_src (suc fuel) (vt + vt_array) (length ns))
            (number_bytes p vt ns)
            (numbers vt ns)
    unfolding bytary2vnt
    bytary2vnt-numbers vt ns fuel hn h =
        rw
          (
            is_array_above vt (omega (arith, k.low)),
            same,
            create_vector-some vt (length ns) (numeric_size vt) k.sized bound,
            k.not_variant,
          )
          (get_array-Parses p ample len_src small vt (length ns * numeric_size vt) ns h
            (omega arith) bound)
      where
        k : IsNumeric vt
        k = AreNumbers-IsNumeric p vt ns h

        same : vt + vt_array - vt_array ≡ vt
        same = omega arith

        bound : length ns * numeric_size vt < 2 ^ 32
        bound = grind (arith, k.narrow)

    bytary2vnt-strings :
        (ss : List Bstr) (fuel : ℕ)
        → 8 * length ss < 2 ^ 32
        → AllShort ss
        → Parses len_src
            (bytary2vnt p len_src (suc fuel) (vt_bstr + vt_array) (length ss))
            (texts ss)
            (strings ss)
    unfolding bytary2vnt
    bytary2vnt-strings ss fuel hn h =
        rw (create_vector-some vt_bstr (length ss) 8 element_size-bstr (omega arith))
          (get_array-strings ss h)

    mutual
      unfolding payload get_entries bytary2vnt

      pub bytary2vnt-Parses :
          (v : Variant) (fuel : ℕ)
          → IsExact p v
          → length (payload p v) ≤ fuel
          → Parses len_src
              (bytary2vnt p len_src (suc fuel) (type_of v) (entry_count v))
              (payload p v)
              v
      bytary2vnt-Parses (scalar vt n) fuel h d =
          rw (h.1) (get_single-Parses p ample len_src small vt n h)
      bytary2vnt-Parses (string s) fuel h d = get_single-string s h
      bytary2vnt-Parses (null_array vt) fuel h d = absurd h
      bytary2vnt-Parses (numbers vt ns) fuel h d = bytary2vnt-numbers vt ns fuel h.0 h.1
      bytary2vnt-Parses (strings ss) fuel h d = bytary2vnt-strings ss fuel h.0 h.1
      bytary2vnt-Parses (variants vs) fuel h d =
          rw (create_vector-some vt_variant (count vs) 16 element_size-variant (omega (arith, h.0)))
            (map-Parses len_src small
              (get_entries len_src (bytary2vnt p len_src fuel) false (count vs * 16) (count vs) 0)
              (λ ws. variants ws) (entries p false vs) vs
              (get_entries-Parses vs false fuel (count vs * 16) 0 h.1 (omega arith) d))

      pub get_entries-Parses :
          (vs : Variants) (flag : Bool) (fuel room i : ℕ)
          → AllExact p vs
          → 16 * (i + count vs) ≤ room
          → length (entries p flag vs) ≤ fuel
          → Parses len_src
              (get_entries len_src (bytary2vnt p len_src fuel) flag room (count vs) i)
              (entries p flag vs)
              vs
      get_entries-Parses nil flag fuel room i h r d = pure-Parses len_src small nil
      get_entries-Parses (cons v vs) flag fuel room i h r d =
          bind-Parses len_src small (inside room (16 * i + 16))
            (λ _. get_entry len_src (bytary2vnt p len_src fuel) flag >>= λ w.
              rest >>= λ ws. pure (cons w ws))
            [] (e ++ entries p flag vs) tt (cons v vs)
            (inside-Parses len_src small room (16 * i + 16) (omega arith))
            (bind-Parses len_src small (get_entry len_src (bytary2vnt p len_src fuel) flag)
              (λ w. rest >>= λ ws. pure (cons w ws)) e (entries p flag vs) v (cons v vs)
              (get_entry-Parses (bytary2vnt p len_src fuel) flag v (payload p v)
                (IsExact-type v h.0).0 (IsExact-type v h.0).1
                (subst
                  (λ k.
                    Parses len_src (bytary2vnt p len_src k (type_of v) (entry_count v))
                      (payload p v) v)
                  {x = suc (fuel - 1)} {y = fuel} (omega (arith, deeper))
                  (bytary2vnt-Parses v (fuel - 1) h.0 (omega (arith, deeper)))))
              (map-Parses len_src small rest (λ ws. cons v ws) (entries p flag vs) vs
                (get_entries-Parses vs flag fuel room (i + 1) h.1 (omega arith)
                  (omega (arith, deeper)))))
        where
          e : List ℕ
          e = framed flag (to_le 2 (type_of v) ++ (to_le 4 (entry_count v) ++ payload p v))

          rest : Reader Variants
          rest = get_entries len_src (bytary2vnt p len_src fuel) flag room (count vs) (i + 1)

          deeper : 6 + length (payload p v) + length (entries p flag vs) ≤ fuel
          deeper = omega (
            arith,
            length-append e (entries p flag vs),
            length-le-framed flag (to_le 2 (type_of v) ++ (to_le 4 (entry_count v) ++ payload p v)),
            length-entry v (payload p v),
          )
