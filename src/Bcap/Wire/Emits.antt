-- ===== src/Bcap/Wire/Emits.antt =====
-- The writer of library/src/bcap_common.c emits the described bytes, part by part.
use denso_ipc.Prelude.{
  ℕ, zero, suc, ◌+◌, ◌-◌, ◌*◌, ◌%◌, ◌^◌, ◌<◌, ◌≡◌, refl, ap, ap₂, Bool, true, false, List, [], ◌∷◌,
  ◌++◌, append_assoc, length, take, drop, take-append-drop, length-append, length-drop, drop-drop,
  length-take, to_le, length-to_le, ◌==◌, ltb, lt→ltb, if◌then◌else◌, arith,
}
use denso_ipc.Outcome.{ok, bind}
use denso_ipc.Variant.{
  Variant, scalar, string, null_array, numbers, strings, variants, Variants, nil, cons, Bstr,
  type_of, count, sys_string_len, vt_date, vt_ui1,
}
use denso_ipc.Bcap.Platform.{Platform}
use denso_ipc.Bcap.Elements.{array_size, scalar_size, chars, bytes_of}
use denso_ipc.Bcap.Writer.{
  Writer, at, put, ◌>>◌, Emits, put-Emits, Emits-nil, Emits-seq, store_middle, Cursor,
}
use denso_ipc.Bcap.Encode.{
  vntdate2bytary, skip_length, write_length, put_all, put_string, put_strings, put_count, put_entry,
  put_dates, put_numbers, put_scalar, vnt2bytary, vntary2bytary,
}
use denso_ipc.Bcap.Wire.{
  words, text, texts, entry_count, framed, dates, number_bytes, scalar_bytes, payload, entries,
  IsWhole, AllWhole,
}

if-Emits :
    (len_dst : ℕ) (b : Bool) (f g : Writer) (bs cs : List ℕ)
    → Emits len_dst f bs
    → Emits len_dst g cs
    → Emits len_dst (if b then f else g) (if b then bs else cs)
if-Emits len_dst true f g bs cs hf hg = hf
if-Emits len_dst false f g bs cs hf hg = hg

pub length-framed : (bs : List ℕ) → length (to_le 4 (length bs) ++ bs) ≡ 4 + length bs
length-framed bs = omega (arith, length-append (to_le 4 (length bs)) bs, length-to_le 4 (length bs))

words-zero : (ns : List ℕ) → words 0 ns ≡ []
unfolding words to_le
words-zero [] = refl
words-zero (n ∷ ns) = words-zero ns

bytes_of-words : (ns : List ℕ) → bytes_of ns ≡ words 1 ns
unfolding words bytes_of
bytes_of-words [] = refl
bytes_of-words (n ∷ ns) = ap (λ t. to_le 1 n ++ t) (bytes_of-words ns)

module _ (len_dst : ℕ) (small : len_dst < 2 ^ 32) where
  put_all-Emits : (size : ℕ) (ns : List ℕ) → Emits len_dst (put_all len_dst size ns) (words size ns)
  unfolding put_all words
  put_all-Emits size [] = Emits-nil len_dst small
  put_all-Emits size (n ∷ ns) =
      Emits-seq len_dst small (put len_dst (to_le size n)) (put_all len_dst size ns) (to_le size n)
        (words size ns) (put-Emits len_dst small (to_le size n)) (put_all-Emits size ns)

  put_string-Emits : (s : Bstr) → Emits len_dst (put_string len_dst s) (text s)
  unfolding put_string text
  put_string-Emits s =
      Emits-seq len_dst small (put len_dst (to_le 4 (2 * sys_string_len s)))
        (put_all len_dst 2 (chars s)) (to_le 4 (2 * sys_string_len s)) (words 2 (chars s))
        (put-Emits len_dst small _) (put_all-Emits 2 (chars s))

  put_strings-Emits : (ss : List Bstr) → Emits len_dst (put_strings len_dst ss) (texts ss)
  unfolding put_strings texts
  put_strings-Emits [] = Emits-nil len_dst small
  put_strings-Emits (s ∷ ss) =
      Emits-seq len_dst small (put_string len_dst s) (put_strings len_dst ss) (text s) (texts ss)
        (put_string-Emits s) (put_strings-Emits ss)

  put_count-Emits :
      (v : Variant) → IsWhole v → Emits len_dst (put_count len_dst v) (to_le 4 (entry_count v))
  unfolding put_count
  put_count-Emits (scalar vt n) w = put-Emits len_dst small (to_le 4 1)
  put_count-Emits (string s) w = put-Emits len_dst small (to_le 4 1)
  put_count-Emits (null_array vt) w = absurd w
  put_count-Emits (numbers vt ns) w = put-Emits len_dst small (to_le 4 (length ns))
  put_count-Emits (strings ss) w = put-Emits len_dst small (to_le 4 (length ss))
  put_count-Emits (variants vs) w = put-Emits len_dst small (to_le 4 (count vs))

  -- Skipping four bytes and writing them afterwards is writing the length first.
  write_length-Emits :
      (flag : Bool) (body : Writer) (bs : List ℕ)
      → Emits len_dst body bs
      → Emits len_dst
          (λ c. bind ((skip_length flag >> body) c) (write_length flag c.pos))
          (framed flag bs)
  unfolding skip_length write_length framed
  write_length-Emits false body bs h pre rest fits room = rw (h pre rest fits room)
  write_length-Emits true body bs h pre rest fits room =
      rw
        (
          start,
          h (pre ++ take 4 rest) (drop 4 rest)
              (omega (arith, length-append pre (take 4 rest), measured, length-framed bs))
              (omega (arith, length-append pre (take 4 rest), measured, length-drop 4 rest)),
          number,
          store_middle pre (take 4 rest) bs (drop (length bs) (drop 4 rest)) (to_le 4 (length bs))
              (omega (arith, measured, length-to_le 4 (length bs))),
        )
        (ap₂ (λ b i. ok (record { buf = b; pos = i })) same_bytes same_place)
    where
      measured : length (take 4 rest) ≡ 4
      measured = omega (arith, length-take 4 rest, length-framed bs)

      start :
          ◌≡◌ {A = Cursor}
            (record { buf = pre ++ rest; pos = (length pre + 4) % 2 ^ 32 })
            (at (pre ++ take 4 rest) (drop 4 rest))
      start =
          ap₂ (λ b i. record { buf = b; pos = i })
            (rw (append_assoc pre (take 4 rest) (drop 4 rest), take-append-drop 4 rest))
            (omega (arith, length-append pre (take 4 rest), measured, length-framed bs))

      number :
          (length ((pre ++ take 4 rest) ++ bs) + 2 ^ 32 - length pre + 2 ^ 32 - 4) % 2 ^ 32
          ≡ length bs
      number = omega (
        arith,
        length-append (pre ++ take 4 rest) bs,
        length-append pre (take 4 rest),
        measured,
        length-framed bs,
      )

      same_bytes :
          ((pre ++ to_le 4 (length bs)) ++ bs) ++ drop (length bs) (drop 4 rest)
          ≡ (pre ++ (to_le 4 (length bs) ++ bs)) ++ drop (length (to_le 4 (length bs) ++ bs)) rest
      same_bytes = rw (
        append_assoc pre (to_le 4 (length bs)) bs,
        drop-drop 4 (length bs) (length (to_le 4 (length bs) ++ bs)) rest
            (omega (arith, length-framed bs)),
      )

      same_place : length ((pre ++ take 4 rest) ++ bs) ≡ length (pre ++ (to_le 4 (length bs) ++ bs))
      same_place = omega (
        arith,
        length-append (pre ++ take 4 rest) bs,
        length-append pre (take 4 rest),
        measured,
        length-append pre (to_le 4 (length bs) ++ bs),
        length-framed bs,
      )

  put_entry-Emits :
      (flag : Bool) (v : Variant) (body : Writer) (bs : List ℕ)
      → IsWhole v
      → Emits len_dst body bs
      → Emits len_dst
          (put_entry len_dst flag v body)
          (framed flag (to_le 2 (type_of v) ++ (to_le 4 (entry_count v) ++ bs)))
  unfolding put_entry
  put_entry-Emits flag v body bs w h =
      write_length-Emits flag (put len_dst (to_le 2 (type_of v)) >> (put_count len_dst v >> body))
        (to_le 2 (type_of v) ++ (to_le 4 (entry_count v) ++ bs))
        (Emits-seq len_dst small (put len_dst (to_le 2 (type_of v))) (put_count len_dst v >> body)
          (to_le 2 (type_of v)) (to_le 4 (entry_count v) ++ bs) (put-Emits len_dst small _)
          (Emits-seq len_dst small (put_count len_dst v) body (to_le 4 (entry_count v)) bs
            (put_count-Emits v w) h))

  -- A size of 0 writes nothing.
  sized-Emits :
      (size : ℕ) (ns : List ℕ)
      → Emits len_dst (if ltb 0 size then put_all len_dst size ns else ok) (words size ns)
  sized-Emits zero ns = rw (words-zero ns) (Emits-nil len_dst small)
  sized-Emits (suc size) ns = rw (lt→ltb 0 (suc size) (omega arith)) (put_all-Emits (suc size) ns)

  single-Emits :
      (size n : ℕ)
      → Emits len_dst (if ltb 0 size then put len_dst (to_le size n) else ok) (to_le size n)
  unfolding to_le
  single-Emits zero n = Emits-nil len_dst small
  single-Emits (suc size) n =
      rw (lt→ltb 0 (suc size) (omega arith)) (put-Emits len_dst small (to_le (suc size) n))

module _ (p : Platform) (len_dst : ℕ) (small : len_dst < 2 ^ 32) where
  put_dates-Emits : (ns : List ℕ) → Emits len_dst (put_dates p len_dst ns) (dates p ns)
  unfolding put_dates dates
  put_dates-Emits [] = Emits-nil len_dst small
  put_dates-Emits (n ∷ ns) =
      Emits-seq len_dst small (put len_dst (vntdate2bytary p n)) (put_dates p len_dst ns)
        (vntdate2bytary p n) (dates p ns) (put-Emits len_dst small _) (put_dates-Emits ns)

  put_numbers-Emits :
      (vt : ℕ) (ns : List ℕ) → Emits len_dst (put_numbers p len_dst vt ns) (number_bytes p vt ns)
  unfolding put_numbers number_bytes
  put_numbers-Emits vt ns =
      if-Emits len_dst (vt == vt_ui1) _ _ _ _
        (rw (bytes_of-words ns) (put-Emits len_dst small (words 1 ns)))
        (if-Emits len_dst (vt == vt_date) _ _ _ _ (put_dates-Emits ns)
          (sized-Emits len_dst small (array_size vt) ns))

  put_scalar-Emits : (vt n : ℕ) → Emits len_dst (put_scalar p len_dst vt n) (scalar_bytes p vt n)
  unfolding put_scalar scalar_bytes
  put_scalar-Emits vt n =
      if-Emits len_dst (vt == vt_date) _ _ _ _ (put-Emits len_dst small (vntdate2bytary p n))
        (single-Emits len_dst small (scalar_size vt) n)

  mutual
    unfolding vnt2bytary payload

    pub vnt2bytary-Emits :
        (v : Variant) → IsWhole v → Emits len_dst (vnt2bytary p len_dst v) (payload p v)
    vnt2bytary-Emits (scalar vt n) w = put_scalar-Emits vt n
    vnt2bytary-Emits (string s) w = put_string-Emits len_dst small s
    vnt2bytary-Emits (null_array vt) w = absurd w
    vnt2bytary-Emits (numbers vt ns) w = put_numbers-Emits vt ns
    vnt2bytary-Emits (strings ss) w = put_strings-Emits len_dst small ss
    vnt2bytary-Emits (variants vs) w = vntary2bytary-Emits vs w false

    pub vntary2bytary-Emits :
        (vs : Variants)
        → AllWhole vs
        → (flag : Bool)
        → Emits len_dst (vntary2bytary p len_dst vs (count vs) flag) (entries p flag vs)
    vntary2bytary-Emits nil w flag = Emits-nil len_dst small
    vntary2bytary-Emits (cons v vs) w flag =
        Emits-seq len_dst small (put_entry len_dst flag v (vnt2bytary p len_dst v))
          (vntary2bytary p len_dst vs (count vs) flag)
          (framed flag (to_le 2 (type_of v) ++ (to_le 4 (entry_count v) ++ payload p v)))
          (entries p flag vs)
          (put_entry-Emits len_dst small flag v (vnt2bytary p len_dst v) (payload p v) w.0
            (vnt2bytary-Emits v w.0))
          (vntary2bytary-Emits vs w.1 flag)
