-- ===== src/Bcap/Writer.antt =====
-- The writing half of library/src/bcap_common.c: a buffer `dst` of bytes and the offset in it.
use denso_ipc.Prelude.{
  ℕ, ◌+◌, ◌%◌, ◌^◌, ◌≤◌, ◌<◌, ◌≡◌, refl, List, [], ◌++◌, append-nil, append_assoc, length, take,
  drop, length-append, length-drop, take-append, drop-append, drop-append_add, drop-drop, arith,
  leb, le→leb, if◌then◌else◌,
}
use native.Mathlib.Nat.{mod-eq_of_lt}
use denso_ipc.Outcome.{Outcome, ok, err, fault, bind, e_invalidarg}

pub record Cursor : Type 0 where
  pub buf : List ℕ
  pub pos : ℕ

abbrev pub Writer : Type 0
Writer = Cursor → Outcome Cursor

-- `memcpy` into `dst`.
unfoldable pub store : List ℕ → ℕ → List ℕ → Outcome (List ℕ)
store dst i bs =
    if leb (i + length bs) (length dst)
    then ok (take i dst ++ bs ++ drop (i + length bs) dst)
    else fault

-- `if (*offset + size > len_dst) return E_INVALIDARG; memcpy_le(&dst[*offset], …, size);
-- *offset += size;` in uint32_t arithmetic.
unfoldable pub put : ℕ → List ℕ → Writer
unfolding store
put len_dst bs c =
    if leb ((c.pos + length bs) % 2 ^ 32) len_dst
    then bind (store c.buf c.pos bs)
        (λ dst. ok (record { buf = dst; pos = (c.pos + length bs) % 2 ^ 32 }))
    else err e_invalidarg

infixl 5 ◌>>◌
abbrev pub ◌>>◌ : Writer → Writer → Writer
◌>>◌ f g c = bind (f c) g

-- A write without a check, `memcpy_le(&dst[*offset], …, size); *offset += size;`.
unfoldable pub copy : List ℕ → Writer
unfolding store
copy bs c =
    bind (store c.buf c.pos bs)
      (λ dst. ok (record { buf = dst; pos = (c.pos + length bs) % 2 ^ 32 }))

-- The offset stands behind `pre`, before `rest`.
abbrev pub at : List ℕ → List ℕ → Cursor
at pre rest = record { buf = pre ++ rest; pos = length pre }

-- `f` succeeds where `bs` fits below the limit: it writes `bs` at the offset, moves the offset
-- behind them, and leaves the other bytes.
abbrev pub Emits : ℕ → Writer → List ℕ → Type 0
Emits len_dst f bs =
    (pre rest : List ℕ)
    → length pre + length bs ≤ len_dst
    → len_dst ≤ length pre + length rest
    → f (at pre rest) ≡ ok (at (pre ++ bs) (drop (length bs) rest))

-- A write at the offset.
pub store-at :
    (pre rest bs : List ℕ)
    → length bs ≤ length rest
    → store (pre ++ rest) (length pre) bs ≡ ok (pre ++ bs ++ drop (length bs) rest)
unfolding store
store-at pre rest bs h = rw (
  le→leb (length pre + length bs) (length (pre ++ rest)) (omega (arith, length-append pre rest)),
  take-append pre rest,
  drop-append_add pre rest (length bs) (length pre + length bs) refl,
)

module _ (len_dst : ℕ) (small : len_dst < 2 ^ 32) where
  pub put-Emits : (bs : List ℕ) → Emits len_dst (put len_dst bs) bs
  unfolding put
  put-Emits bs pre rest fits room = rw (
    mod-eq_of_lt {n = length pre + length bs} {m = 2 ^ 32} (omega arith),
    le→leb _ _ fits,
    store-at pre rest bs (omega arith),
    length-append pre bs,
  )

  pub copy-Emits : (bs : List ℕ) → Emits len_dst (copy bs) bs
  unfolding copy
  copy-Emits bs pre rest fits room = rw (
    mod-eq_of_lt {n = length pre + length bs} {m = 2 ^ 32} (omega arith),
    store-at pre rest bs (omega arith),
    length-append pre bs,
  )

  pub Emits-nil : Emits len_dst ok []
  Emits-nil pre rest fits room = rw append-nil

  pub Emits-seq :
      (f g : Writer) (bs cs : List ℕ)
      → Emits len_dst f bs
      → Emits len_dst g cs
      → Emits len_dst (f >> g) (bs ++ cs)
  Emits-seq f g bs cs hf hg pre rest fits room = rw (
    hf pre rest (omega (arith, length-append bs cs)) room,
    hg (pre ++ bs) (drop (length bs) rest)
        (omega (arith, length-append bs cs, length-append pre bs))
        (omega (arith, length-append bs cs, length-append pre bs, length-drop (length bs) rest)),
    drop-drop (length bs) (length cs) (length (bs ++ cs)) rest (length-append bs cs),
    append_assoc pre bs cs,
  )

-- A write into the middle, over as many bytes.
pub store_middle :
    (pre old bs rest new : List ℕ)
    → length old ≡ length new
    → store (((pre ++ old) ++ bs) ++ rest) (length pre) new ≡ ok (((pre ++ new) ++ bs) ++ rest)
store_middle pre old bs rest new e = rw (
  append_assoc (pre ++ old) bs rest,
  append_assoc pre old (bs ++ rest),
  store-at pre (old ++ (bs ++ rest)) new (omega (arith, length-append old (bs ++ rest))),
  ← e,
  drop-append old (bs ++ rest),
  append_assoc (pre ++ new) bs rest,
)
