-- ===== src/Bcap/Reader.antt =====
-- The reading half of library/src/bcap_common.c: a buffer `src` of bytes and the offset in it.
use native.Mathlib.Nat.{mod-eq_of_lt}
use denso_ipc.Prelude.{
  ℕ, ◌+◌, ◌%◌, ◌^◌, ◌≤◌, ◌<◌, ◌≡◌, List, [], ◌++◌, append-nil, append_assoc, length, take, drop,
  length-append, take-append, drop-append, arith, leb, le→leb, if◌then◌else◌,
}
use denso_ipc.Outcome.{Outcome, ok, err, fault, bind, Hresult, e_invalidpacket}

abbrev pub Reader : Type 0 → Type 0
Reader A = List ℕ → ℕ → Outcome (A × ℕ)

infixl 5 ◌>>=◌ ◌>>◌
abbrev pub ◌>>=◌ : {A B : Type 0} → Reader A → (A → Reader B) → Reader B
◌>>=◌ m k src pos = bind (m src pos) (λ r. k r.0 src r.1)

abbrev pub ◌>>◌ : {B : Type 0} → Reader (Unit {0}) → Reader B → Reader B
m >> k = m >>= λ _. k

abbrev pub pure : {A : Type 0} → A → Reader A
pure a src pos = ok (a, pos)

abbrev pub fail : {A : Type 0} → Hresult → Reader A
fail e src pos = err e

-- A write of bytes up to `last` into an object of `room` bytes.
unfoldable pub inside : ℕ → ℕ → Reader (Unit {0})
inside room last src pos = if leb last room then ok (tt, pos) else fault

-- `memcpy` out of `src`.
unfoldable pub load : List ℕ → ℕ → ℕ → Outcome (List ℕ)
load src i n = if leb (i + n) (length src) then ok (take n (drop i src)) else fault

-- `if (*offset + size > len_src) return e; memcpy_le(…, &src[*offset], size); *offset += size;`
unfoldable pub get_or_fail : Hresult → ℕ → ℕ → Reader (List ℕ)
unfolding load
get_or_fail e len_src n src pos =
    if leb ((pos + n) % 2 ^ 32) len_src
    then bind (load src pos n) (λ bs. ok (bs, (pos + n) % 2 ^ 32))
    else err e

abbrev pub get : ℕ → ℕ → Reader (List ℕ)
get = get_or_fail e_invalidpacket

-- `memcpy_le(…, &src[offset], size); offset += size;`, without a check.
unfoldable pub fetch : ℕ → Reader (List ℕ)
unfolding load
fetch n src pos = bind (load src pos n) (λ bs. ok (bs, (pos + n) % 2 ^ 32))

-- Where `bs` stands at the offset, below the limit, `m` returns `a` and stops behind `bs`.
abbrev pub Parses : {A : Type 0} → ℕ → Reader A → List ℕ → A → Type 0
Parses {A} len_src m bs a =
    (pre post : List ℕ)
    → length pre + length bs ≤ len_src
    → m (pre ++ (bs ++ post)) (length pre) ≡ ok (a, length (pre ++ bs))

pub load-at : (pre bs post : List ℕ) → load (pre ++ (bs ++ post)) (length pre) (length bs) ≡ ok bs
unfolding load
load-at pre bs post = rw (
  le→leb (length pre + length bs) (length (pre ++ (bs ++ post)))
      (omega (arith, length-append pre (bs ++ post), length-append bs post)),
  drop-append pre (bs ++ post),
  take-append bs post,
)

module _ (len_src : ℕ) (small : len_src < 2 ^ 32) where
  pub get-Parses :
      (e : Hresult) (n : ℕ) (bs : List ℕ)
      → length bs ≡ n
      → Parses len_src (get_or_fail e len_src n) bs bs
  unfolding get_or_fail
  get-Parses e n bs h pre post fits = rw (
    ← h,
    mod-eq_of_lt {n = length pre + length bs} {m = 2 ^ 32} (omega arith),
    le→leb _ _ fits,
    load-at pre bs post,
    length-append pre bs,
  )

  pub fetch-Parses : (n : ℕ) (bs : List ℕ) → length bs ≡ n → Parses len_src (fetch n) bs bs
  unfolding fetch
  fetch-Parses n bs h pre post fits = rw (
    ← h,
    load-at pre bs post,
    mod-eq_of_lt {n = length pre + length bs} {m = 2 ^ 32} (omega arith),
    length-append pre bs,
  )

  pub pure-Parses : {A : Type 0} (a : A) → Parses len_src (pure a) [] a
  pure-Parses a pre post fits = rw (append-nil pre)

  pub inside-Parses : (room last : ℕ) → last ≤ room → Parses len_src (inside room last) [] tt
  unfolding inside
  inside-Parses room last h pre post fits = rw (le→leb last room h, append-nil pre)

  pub bind-Parses :
      {A B : Type 0} (m : Reader A) (k : A → Reader B) (bs cs : List ℕ) (a : A) (b : B)
      → Parses len_src m bs a
      → Parses len_src (k a) cs b
      → Parses len_src (m >>= k) (bs ++ cs) b
  bind-Parses m k bs cs a b hm hk pre post fits = rw (
    append_assoc bs cs post,
    hm pre (cs ++ post) (omega (arith, length-append bs cs)),
    ← append_assoc pre bs (cs ++ post),
    hk (pre ++ bs) post (omega (arith, length-append bs cs, length-append pre bs)),
    append_assoc pre bs cs,
  )

  pub map-Parses :
      {A B : Type 0} (m : Reader A) (f : A → B) (bs : List ℕ) (a : A)
      → Parses len_src m bs a
      → Parses len_src (m >>= λ x. pure (f x)) bs (f a)
  map-Parses m f bs a hm pre post fits = rw (hm pre post fits)

  -- One round of a loop that reads an element, stores it, and goes on.
  pub element-Parses :
      {A B C : Type 0} (m : Reader A) (room last : ℕ) (rest : Reader B) (f : A → B → C)
      (bs cs : List ℕ) (a : A) (b : B)
      → Parses len_src m bs a
      → last ≤ room
      → Parses len_src rest cs b
      → Parses len_src
          (m >>= λ x. inside room last >> (rest >>= λ y. pure (f x y)))
          (bs ++ cs)
          (f a b)
  element-Parses m room last rest f bs cs a b hm h hr =
      bind-Parses m (λ x. inside room last >> (rest >>= λ y. pure (f x y))) bs cs a (f a b) hm
        (bind-Parses (inside room last) (λ _. rest >>= λ y. pure (f a y)) [] cs tt (f a b)
          (inside-Parses room last h) (map-Parses rest (f a) cs b hr))
