-- ===== src/Bcap/Decode/Overflow.antt =====
-- Where the reader of library/src/bcap_common.c leaves the objects that it reads and fills: the
-- uint16_t of `SysAllocStringLen`, and the uint32_t sum in the test before the `memcpy` of VT_UI1.
use denso_ipc.Prelude.{
  ℕ, ◌+◌, ◌*◌, ◌/◌, ◌^◌, ◌≤◌, ◌<◌, ◌≡◌, true, some, List, [], ◌∷◌, ◌++◌, length, take, drop,
  length-append, append_assoc, leb, Bool-cases, inl, inr, arith, to_le, of_le, of_le-to_le,
}
use denso_ipc.Outcome.{ok, err, fault, e_invalidarg}
use denso_ipc.Variant.{string_bytes, sys_string_len}
use denso_ipc.Bcap.Platform.{Platform}
use denso_ipc.Bcap.Elements.{chars}
use denso_ipc.Bcap.Reader.{Reader, get_or_fail, load, inside}
use denso_ipc.Bcap.Wire.{words, text}
use denso_ipc.Bcap.Decode.{get_bytes, get_chars, alloc_string, get_string, elements}
use denso_ipc.Bcap.Decode.Exact.{AllChars}
use denso_ipc.Bcap.Decode.Parses.{word-Parses, wcslen_of_chars, take-length}

-- Where `bs` stands at the offset, below the limit, the reader leaves an object.
abbrev Overruns : {A : Type 0} → ℕ → Reader A → List ℕ → Type 0
Overruns len_src m bs =
    (pre post : List ℕ)
    → length pre + length bs ≤ len_src
    → m (pre ++ (bs ++ post)) (length pre) ≡ fault

narrow_string : (n : ℕ) → 16383 ≤ n → n < 2 ^ 16 → string_bytes n + 2 < 4 * (0 + n)
unfolding string_bytes
narrow_string n lo hi = omega arith

pub string_len :
    (cs : List ℕ) → AllChars cs → length cs < 2 ^ 16 → sys_string_len (some cs) ≡ length cs
unfolding sys_string_len
string_len cs h hi = omega (arith, wcslen_of_chars cs h)

module _ (len_src : ℕ) (small : len_src < 2 ^ 32) where
  -- The room ends before the last character.
  get_chars-Overruns :
      (room : ℕ) (cs : List ℕ) (j : ℕ)
      → 4 * j ≤ room + 2
      → room + 2 < 4 * (j + length cs)
      → Overruns len_src (get_chars len_src room (length cs) j) (words 2 cs)
  unfolding get_chars words inside
  get_chars-Overruns room [] j lo hi pre post fits = absurd (omega arith)
  get_chars-Overruns room (c ∷ cs) j lo hi pre post fits =
      elim (Bool-cases (leb (4 * j + 2) room)) [
        | inl e ↦ rw (
          append_assoc (to_le 2 c) (words 2 cs) post,
          word-Parses len_src small 2 c pre (words 2 cs ++ post) first,
          e,
          ← append_assoc pre (to_le 2 c) (words 2 cs ++ post),
          get_chars-Overruns room cs (j + 1) (ground arith) (omega arith) (pre ++ to_le 2 c) post (
              omega (arith, length-append pre (to_le 2 c), length-append (to_le 2 c) (words 2 cs))),
        )
        | inr e ↦ rw (
          append_assoc (to_le 2 c) (words 2 cs) post,
          word-Parses len_src small 2 c pre (words 2 cs ++ post) first,
          e,
        )
      ]
    where
      first : length pre + length (to_le 2 c) ≤ len_src
      first = omega (arith, length-append (to_le 2 c) (words 2 cs))

  alloc_string-Overruns :
      (p : Platform) (cs : List ℕ)
      → 16383 ≤ length cs
      → length cs < 2 ^ 16
      → p.malloc (string_bytes (length cs)) ≡ true
      → Overruns len_src (alloc_string p len_src (length cs)) (words 2 cs)
  unfolding alloc_string
  alloc_string-Overruns p cs lo hi m pre post fits =
      rw (m, get_chars-Overruns (string_bytes (length cs)) cs 0 (omega arith) narrow pre post fits)
    where
      narrow : string_bytes (length cs) + 2 < 4 * (0 + length cs)
      narrow = narrow_string (length cs) lo hi

  -- A BSTR of 16383 to 65535 characters, none of them 0 or wider than 16 bits, as
  -- bcap_packet2bytary writes it, is written past the end of the memory that `SysAllocStringLen`
  -- asked for, if it gets that memory.
  pub get_string-overflow :
      (p : Platform) (cs : List ℕ)
      → AllChars cs
      → 16383 ≤ length cs
      → length cs < 2 ^ 16
      → p.malloc (string_bytes (length cs)) ≡ true
      → (pre post : List ℕ) → length pre + length (text (some cs)) ≤ len_src
      → get_string p len_src (pre ++ (text (some cs) ++ post)) (length pre) ≡ fault
  unfolding get_string text
  get_string-overflow p cs h lo hi m pre post fits =
      rw
        (
          all,
          measure,
          append_assoc count_bytes (words 2 cs) post,
          word-Parses len_src small 4 (2 * length cs) pre (words 2 cs ++ post)
              (omega (arith, fits', length-append count_bytes (words 2 cs))),
          half,
          ← append_assoc pre count_bytes (words 2 cs ++ post),
        )
        (alloc_string-Overruns p cs lo hi m (pre ++ count_bytes) post (
          omega
            (arith, fits', length-append count_bytes (words 2 cs), length-append pre count_bytes)))
    where
      measure : sys_string_len (some cs) ≡ length cs
      measure = string_len cs h hi

      all : chars (some cs) ≡ cs
      all = take-length cs (sys_string_len (some cs)) measure

      count_bytes : List ℕ
      count_bytes = to_le 4 (2 * length cs)

      fits' : length pre + length (count_bytes ++ words 2 cs) ≤ len_src
      fits' = rw (all, measure) at fits

      half : of_le (to_le 4 (2 * length cs)) / 2 ≡ length cs
      half = omega (arith, of_le-to_le 4 (2 * length cs) (omega arith))

-- The bytes of an array of VT_UI1 are copied if they lie below the limit and there is room for
-- them, refused with E_INVALIDARG if the sum of offset and count passes the limit, and read from
-- behind the buffer if that sum reaches 2 ^ 32. The offset lies below the limit, and the limit is
-- inside the buffer.
pub get_bytes_cases :
    (len_src room argc : ℕ) (src : List ℕ) (pos : ℕ)
    → pos ≤ len_src
    → len_src ≤ length src
    → length src < 2 ^ 32
    → argc < 2 ^ 32
    → argc ≤ room
    → (pos + argc ≤ len_src
        → get_bytes len_src room argc src pos
          ≡ ok (elements (take argc (drop pos src)), pos + argc))
      × (len_src < pos + argc
          → pos + argc < 2 ^ 32
          → get_bytes len_src room argc src pos ≡ err e_invalidarg)
      × (2 ^ 32 ≤ pos + argc → get_bytes len_src room argc src pos ≡ fault)
unfolding get_bytes get_or_fail load inside
get_bytes_cases len_src room argc src pos a b c d e =
    (λ h. ground arith, λ h k. ground arith, λ h. ground arith)
