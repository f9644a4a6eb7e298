-- ===== src/Bcap/Decode/Parses.antt =====
-- The reader of library/src/bcap_common.c takes the described bytes back, part by part.
use denso_ipc.Prelude.{
  ℕ, zero, suc, ◌+◌, ◌*◌, ◌/◌, ◌%◌, ◌^◌, ◌≤◌, ◌<◌, ◌≡◌, refl, ap, ap₂, subst, inl, inr, true, false,
  some, none, List, [], ◌∷◌, ◌++◌, append-nil, length, take, to_le, of_le, length-to_le,
  of_le-to_le, ◌==◌, ltb, lt→ltb, ne→==, if◌then◌else◌, arith,
}
use denso_ipc.Outcome.{e_invalidarg}
use denso_ipc.Variant.{
  scalar, numbers, Bstr, sys_string_len, wcslen, string_bytes, vt_bstr, vt_date, vt_ui1,
}
use denso_ipc.Bcap.Platform.{Platform}
use denso_ipc.Bcap.Elements.{array_size, scalar_size, chars, numeric_size}
use denso_ipc.Bcap.Reader.{
  Parses, get, get_or_fail, inside, pure, ◌>>=◌, ◌>>◌, get-Parses, pure-Parses, bind-Parses,
  map-Parses, element-Parses, inside-Parses,
}
use denso_ipc.Bcap.Encode.{vntdate2bytary}
use denso_ipc.Bcap.Wire.{words, text, texts, dates, number_bytes, scalar_bytes}
use denso_ipc.Bcap.Wire.Sizes.{length-words, length-date}
use denso_ipc.Bcap.Decode.{
  elements, bytary2vntdate, get_all, get_chars, get_bytes, get_dates, alloc_string, get_string,
  get_strings, get_single, get_array,
}
use denso_ipc.Bcap.Decode.Exact.{
  AllChars, IsShort, AllShort, AllBelow, AllDates, AreNumbers, IsScalar,
}

pub wcslen_of_chars : (cs : List ℕ) → AllChars cs → wcslen cs ≡ length cs
unfolding wcslen
wcslen_of_chars [] h = refl
wcslen_of_chars (c ∷ cs) h = ground (arith, wcslen_of_chars cs h.2)

pub take-length : (cs : List ℕ) (n : ℕ) → n ≡ length cs → take n cs ≡ cs
take-length [] zero e = refl
take-length [] (suc n) e = refl
take-length (c ∷ cs) zero e = absurd (omega arith)
take-length (c ∷ cs) (suc n) e = ap (λ t. c ∷ t) (take-length cs n (omega arith))

string_len_of_short : (cs : List ℕ) → IsShort (some cs) → sys_string_len (some cs) ≡ length cs
unfolding sys_string_len
string_len_of_short cs h = omega (arith, wcslen_of_chars cs h.1)

chars_of_short : (cs : List ℕ) → IsShort (some cs) → chars (some cs) ≡ cs
chars_of_short cs h = take-length cs (sys_string_len (some cs)) (string_len_of_short cs h)

elements-words : (ns : List ℕ) → AllBelow 256 ns → elements (words 1 ns) ≡ ns
unfolding elements words to_le of_le
elements-words [] h = refl
elements-words (n ∷ ns) h = ap₂ ◌∷◌ (omega arith) (elements-words ns h.1)

array_size-pos :
    (vt : ℕ)
    → 0 < array_size vt
    → ((vt == vt_ui1) ≡ false) × ((vt == vt_date) ≡ false) × ((vt == vt_bstr) ≡ false)
unfolding array_size
array_size-pos vt h = ground arith

pub numeric_size-pos : (vt : ℕ) → 0 < array_size vt → numeric_size vt ≡ array_size vt
unfolding numeric_size
numeric_size-pos vt h = rw ((array_size-pos vt h).0, (array_size-pos vt h).1)

module _ (len_src : ℕ) (small : len_src < 2 ^ 32) where
  pub word-Parses : (n v : ℕ) → Parses len_src (get len_src n) (to_le n v) (to_le n v)
  word-Parses n v = get-Parses len_src small _ n (to_le n v) (length-to_le n v)

  get_chars-Parses :
      (room : ℕ) (cs : List ℕ) (j : ℕ)
      → AllChars cs
      → 4 * (j + length cs) ≤ room
      → Parses len_src (get_chars len_src room (length cs) j) (words 2 cs) cs
  unfolding get_chars words
  get_chars-Parses room [] j h r = pure-Parses len_src small []
  get_chars-Parses room (c ∷ cs) j h r =
      subst
        (λ x.
          Parses len_src (get_chars len_src room (suc (length cs)) j) (to_le 2 c ++ words 2 cs)
            (x ∷ cs))
        (of_le-to_le 2 c h.1)
        (element-Parses len_src small (get len_src 2) room (4 * j + 2)
          (get_chars len_src room (length cs) (j + 1)) (λ bs ns. of_le bs ∷ ns) (to_le 2 c)
          (words 2 cs) (to_le 2 c) cs (word-Parses 2 c) (omega arith)
          (get_chars-Parses room cs (j + 1) h.2 (omega arith)))

  get_all-Parses :
      (room size : ℕ) (ns : List ℕ) (i : ℕ)
      → AllBelow (256 ^ size) ns
      → (i + length ns) * size ≤ room
      → room < 2 ^ 32
      → Parses len_src (get_all len_src room size (length ns) i) (words size ns) ns
  unfolding get_all words
  get_all-Parses room size [] i h r b = pure-Parses len_src small []
  get_all-Parses room size (n ∷ ns) i h r b =
      subst
        (λ x.
          Parses len_src (get_all len_src room size (suc (length ns)) i)
            (to_le size n ++ words size ns) (x ∷ ns))
        (of_le-to_le size n h.0)
        (element-Parses len_src small (get len_src size) room (i * size % 2 ^ 32 + size)
          (get_all len_src room size (length ns) (i + 1)) (λ bs ms. of_le bs ∷ ms) (to_le size n)
          (words size ns) (to_le size n) ns (word-Parses size n) (omega arith)
          (get_all-Parses room size ns (i + 1) h.1 (omega arith) b))

module _ (p : Platform) (ample : (n : ℕ) → p.malloc n ≡ true) (len_src : ℕ)
    (small : len_src < 2 ^ 32) where
  get_dates-Parses :
      (room : ℕ) (ns : List ℕ) (i : ℕ)
      → AllDates p ns
      → 8 * (i + length ns) ≤ room
      → Parses len_src (get_dates p len_src room (length ns) i) (dates p ns) ns
  unfolding get_dates dates
  get_dates-Parses room [] i h r = pure-Parses len_src small []
  get_dates-Parses room (n ∷ ns) i h r =
      subst
        (λ x.
          Parses len_src (get_dates p len_src room (suc (length ns)) i)
            (vntdate2bytary p n ++ dates p ns) (x ∷ ns))
        (h.0)
        (element-Parses len_src small (get len_src 8) room (8 * i + 8)
          (get_dates p len_src room (length ns) (i + 1)) (λ bs ms. bytary2vntdate p bs ∷ ms)
          (vntdate2bytary p n) (dates p ns) (vntdate2bytary p n) ns
          (get-Parses len_src small _ 8 (vntdate2bytary p n) (length-date p n)) (omega arith)
          (get_dates-Parses room ns (i + 1) h.1 (omega arith)))

  alloc_string-Parses :
      (cs : List ℕ)
      → IsShort (some cs)
      → Parses len_src (alloc_string p len_src (length cs)) (words 2 cs) (some cs)
  unfolding alloc_string string_bytes
  alloc_string-Parses cs h = rw (ample (string_bytes (length cs))) (
      map-Parses len_src small (get_chars len_src (string_bytes (length cs)) (length cs) 0) some
        (words 2 cs) cs
        (get_chars-Parses len_src small (string_bytes (length cs)) cs 0 h.1 (omega arith)))

  pub get_string-Parses : (s : Bstr) → IsShort s → Parses len_src (get_string p len_src) (text s) s
  unfolding get_string text
  get_string-Parses none h = absurd h
  get_string-Parses (some cs) h =
      bind-Parses len_src small (get len_src 4) (λ bs. alloc_string p len_src (of_le bs / 2))
        (to_le 4 (2 * sys_string_len (some cs))) (words 2 (chars (some cs)))
        (to_le 4 (2 * sys_string_len (some cs))) (some cs)
        (word-Parses len_src small 4 (2 * sys_string_len (some cs)))
        (subst
          (λ k. Parses len_src (alloc_string p len_src k) (words 2 (chars (some cs))) (some cs))
          same (rw (chars_of_short cs h) (alloc_string-Parses cs h)))
    where
      same : length cs ≡ of_le (to_le 4 (2 * sys_string_len (some cs))) / 2
      same = omega (
        arith,
        string_len_of_short cs h,
        of_le-to_le 4 (2 * sys_string_len (some cs)) (omega (arith, string_len_of_short cs h)),
      )

  pub get_strings-Parses :
      (room : ℕ) (ss : List Bstr) (i : ℕ)
      → AllShort ss
      → 8 * (i + length ss) ≤ room
      → Parses len_src (get_strings p len_src room (length ss) i) (texts ss) ss
  unfolding get_strings texts
  get_strings-Parses room [] i h r = pure-Parses len_src small []
  get_strings-Parses room (s ∷ ss) i h r =
      element-Parses len_src small (get_string p len_src) room (8 * i + 8)
        (get_strings p len_src room (length ss) (i + 1)) (λ t ts. t ∷ ts) (text s) (texts ss) s ss
        (get_string-Parses s h.0) (omega arith)
        (get_strings-Parses room ss (i + 1) h.1 (omega arith))

  get_bytes-Parses :
      (room : ℕ) (ns : List ℕ)
      → AllBelow 256 ns
      → length ns ≤ room
      → Parses len_src (get_bytes len_src room (length ns)) (words 1 ns) ns
  unfolding get_bytes
  get_bytes-Parses room ns h r =
      subst (λ x. Parses len_src (get_bytes len_src room (length ns)) (words 1 ns) x)
        (elements-words ns h)
        (subst
          (λ bs. Parses len_src (get_bytes len_src room (length ns)) bs (elements (words 1 ns)))
          (append-nil (words 1 ns))
          (bind-Parses len_src small (get_or_fail e_invalidarg len_src (length ns))
            (λ bs. inside room (length ns) >> pure (elements bs)) (words 1 ns) [] (words 1 ns)
            (elements (words 1 ns))
            (get-Parses len_src small e_invalidarg (length ns) (words 1 ns)
              (omega (arith, length-words 1 ns)))
            (map-Parses len_src small (inside room (length ns)) (λ _. elements (words 1 ns)) [] tt
              (inside-Parses len_src small room (length ns) r))))

  pub get_array-Parses :
      (vt room : ℕ) (ns : List ℕ)
      → AreNumbers p vt ns
      → length ns * numeric_size vt ≤ room
      → room < 2 ^ 32
      → Parses len_src
          (get_array p len_src vt room (length ns))
          (number_bytes p vt ns)
          (numbers vt ns)
  unfolding get_array number_bytes numeric_size
  get_array-Parses vt room ns (inl (e, h)) r b = rw e (
      map-Parses len_src small (get_bytes len_src room (length ns)) (λ ms. numbers vt_ui1 ms)
        (words 1 ns) ns
        (get_bytes-Parses room ns h
          (let r' : length ns * numeric_size vt_ui1 ≤ room = rw e at r in omega arith)))
  get_array-Parses vt room ns (inr (inl (e, h))) r b = rw e (
      map-Parses len_src small (get_dates p len_src room (length ns) 0) (λ ms. numbers vt_date ms)
        (dates p ns) ns
        (get_dates-Parses room ns 0 h
          (let r' : length ns * numeric_size vt_date ≤ room = rw e at r in omega arith)))
  get_array-Parses vt room ns (inr (inr (e, h))) r b =
      rw (not_ui1, not_date, not_bstr, lt→ltb 0 (array_size vt) e)
        (map-Parses len_src small (get_all len_src room (array_size vt) (length ns) 0)
          (λ ms. numbers vt ms) (words (array_size vt) ns) ns
          (get_all-Parses len_src small room (array_size vt) ns 0 h
            (let r' : length ns * array_size vt ≤ room = rw (numeric_size-pos vt e) at r in
              omega arith)
            b))
    where
      not_ui1 : (vt == vt_ui1) ≡ false
      not_ui1 = (array_size-pos vt e).0

      not_date : (vt == vt_date) ≡ false
      not_date = (array_size-pos vt e).1

      not_bstr : (vt == vt_bstr) ≡ false
      not_bstr = (array_size-pos vt e).2

  sized-Parses :
      (size vt n : ℕ)
      → n < 256 ^ size
      → Parses len_src
          (if ltb 0 size
            then (get len_src size >>= λ bs. pure (scalar vt (of_le bs)))
            else pure (scalar vt 0))
          (to_le size n)
          (scalar vt n)
  unfolding to_le
  sized-Parses zero vt n h =
      subst (λ k. Parses len_src (pure (scalar vt 0)) [] (scalar vt k)) {x = 0} {y = n}
        (omega arith) (pure-Parses len_src small (scalar vt 0))
  sized-Parses (suc size) vt n h = rw (lt→ltb 0 (suc size) (omega arith)) (
      subst
        (λ k.
          Parses len_src (get len_src (suc size) >>= λ bs. pure (scalar vt (of_le bs)))
            (to_le (suc size) n) (scalar vt k))
        (of_le-to_le (suc size) n h)
        (map-Parses len_src small (get len_src (suc size)) (λ bs. scalar vt (of_le bs))
          (to_le (suc size) n) (to_le (suc size) n) (word-Parses len_src small (suc size) n)))

  pub get_single-Parses :
      (vt n : ℕ)
      → IsScalar p vt n
      → Parses len_src (get_single p len_src vt) (scalar_bytes p vt n) (scalar vt n)
  unfolding get_single scalar_bytes
  get_single-Parses vt n (a, b, c, inl (e, h)) = rw e (
      subst
        (λ k.
          Parses len_src (get len_src 8 >>= λ bs. pure (scalar vt_date (bytary2vntdate p bs)))
            (vntdate2bytary p n) (scalar vt_date k))
        h
        (map-Parses len_src small (get len_src 8) (λ bs. scalar vt_date (bytary2vntdate p bs))
          (vntdate2bytary p n) (vntdate2bytary p n)
          (get-Parses len_src small _ 8 (vntdate2bytary p n) (length-date p n))))
  get_single-Parses vt n (a, b, c, inr (e, h)) =
      rw (ne→== vt vt_date e, ne→== vt vt_bstr c) (sized-Parses (scalar_size vt) vt n h)
