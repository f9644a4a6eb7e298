-- ===== src/Bcap/Decode/Total.antt =====
-- The reader of library/src/bcap_common.c always ends: each level of an array of VARIANT takes at
-- least six bytes, so the fuel that bytary2packet gives is enough.
use denso_ipc.Prelude.{
  ℕ, zero, suc, ◌+◌, ◌-◌, ◌*◌, ◌/◌, ◌%◌, ◌^◌, ◌≤◌, ◌<◌, ◌≡◌, ◌≢◌, refl, Bool, true, false, Option,
  some, none, List, [], ◌∷◌, length, of_le, ltb, if◌then◌else◌, ◌==◌, Bool-cases, inl, inr, arith,
}
use denso_ipc.Outcome.{Outcome, ok, err, fault, stuck, bind, Hresult, e_invalidarg}
use denso_ipc.Variant.{
  Variant, Variants, scalar, string, numbers, strings, variants, cons, create_vector, is_array,
  string_bytes, vt_array, vt_bstr, vt_date, vt_ui1, vt_variant,
}
use denso_ipc.Bcap.Platform.{Platform}
use denso_ipc.Bcap.Packet.{Packet}
use denso_ipc.Bcap.Elements.{array_size, scalar_size}
use denso_ipc.Bcap.Reader.{Reader, load, fetch, get, get_or_fail, inside, pure, ◌>>=◌, ◌>>◌}
use denso_ipc.Bcap.Decode.{
  elements, bytary2vntdate, skip, get_all, get_chars, get_bytes, get_entry, get_entries, get_dates,
  alloc_string, get_string, get_strings, get_single, get_array, bytary2vnt, lift, prepare_args,
  read_packet, bytary2packet, with_room,
}

-- The reader ended, and if it succeeded it stands at `lo` or behind, inside `src`.
abbrev Ends : {A : Type 0} → List ℕ → ℕ → Outcome (A × ℕ) → Type 0
Ends src lo (ok r) = (lo ≤ r.1) × (r.1 ≤ length src)
Ends src lo (err e) = Unit
Ends src lo fault = Unit
Ends src lo stuck = ⊥

not-stuck : {A : Type 0} (src : List ℕ) (lo : ℕ) (o : Outcome (A × ℕ)) → Ends src lo o → o ≢ stuck
not-stuck src lo stuck h e = h
not-stuck src lo (ok r) h e = cc
not-stuck src lo (err x) h e = cc
not-stuck src lo fault h e = cc

record IsSafe {A : Type 0} (src : List ℕ) (pos : ℕ) (m : Reader A) : Type 0 where
  ends : Ends src pos (m src pos)

bind-Ends :
    {A B : Type 0} (src : List ℕ) (lo hi : ℕ) (o : Outcome (A × ℕ)) (k : A → Reader B)
    → Ends src lo o
    → ((a : A) (pos : ℕ) → lo ≤ pos → pos ≤ length src → Ends src hi (k a src pos))
    → Ends src hi (bind o (λ r. k r.0 src r.1))
bind-Ends src lo hi (ok r) k h f = f r.0 r.1 h.0 h.1
bind-Ends src lo hi (err e) k h f = tt
bind-Ends src lo hi fault k h f = tt
bind-Ends src lo hi stuck k h f = absurd h

module _ (src : List ℕ) (small : length src + 4 < 2 ^ 32) where
  get_or_fail-Ends :
      (e : Hresult) (len_src n pos : ℕ) → Ends src (pos + n) (get_or_fail e len_src n src pos)
  unfolding get_or_fail load
  get_or_fail-Ends e len_src n pos = ground arith

  fetch-Ends : (n pos : ℕ) → Ends src (pos + n) (fetch n src pos)
  unfolding fetch load
  fetch-Ends n pos = ground arith

  inside-Ends : (room last pos : ℕ) → pos ≤ length src → Ends src pos (inside room last src pos)
  unfolding inside
  inside-Ends room last pos h = ground arith

  -- One round of a loop.
  element-Ends :
      {A B C : Type 0} (m : Reader A) (room last : ℕ) (rest : Reader B) (f : A → B → C) (pos : ℕ)
      → Ends src pos (m src pos)
      → ((pos' : ℕ) → pos ≤ pos' → pos' ≤ length src → Ends src pos' (rest src pos'))
      → Ends src pos ((m >>= λ x. inside room last >> (rest >>= λ y. pure (f x y))) src pos)
  element-Ends m room last rest f pos hm hr =
      bind-Ends src pos pos (m src pos) (λ x. inside room last >> (rest >>= λ y. pure (f x y))) hm
        (λ a p l h.
          bind-Ends src p pos (inside room last src p) (λ _. rest >>= λ y. pure (f a y))
            (inside-Ends room last p h)
            (λ u q l' h'.
              bind-Ends src q pos (rest src q) (λ y. pure (f a y)) (hr q (omega arith) h')
                (λ b r l'' h''. (omega arith, h''))))

  weaken : {A : Type 0} (lo hi : ℕ) (o : Outcome (A × ℕ)) → hi ≤ lo → Ends src lo o → Ends src hi o
  weaken lo hi (ok r) l h = (omega arith, h.1)
  weaken lo hi (err e) l h = tt
  weaken lo hi fault l h = tt
  weaken lo hi stuck l h = absurd h

  get-Ends : (e : Hresult) (len_src n pos : ℕ) → Ends src pos (get_or_fail e len_src n src pos)
  get-Ends e len_src n pos =
      weaken (pos + n) pos (get_or_fail e len_src n src pos) (omega arith)
        (get_or_fail-Ends e len_src n pos)

  pure-Ends : {A : Type 0} (a : A) (pos : ℕ) → pos ≤ length src → Ends src pos (pure a src pos)
  pure-Ends a pos h = (omega arith, h)

  -- A reading and a value made of what it read.
  map-Ends :
      {A B : Type 0} (m : Reader A) (f : A → B) (pos : ℕ)
      → Ends src pos (m src pos)
      → Ends src pos ((m >>= λ x. pure (f x)) src pos)
  map-Ends m f pos h = bind-Ends src pos pos (m src pos) (λ x. pure (f x)) h (λ a p l q. (l, q))

  get_all-Ends :
      (len_src room size left i pos : ℕ)
      → pos ≤ length src
      → Ends src pos (get_all len_src room size left i src pos)
  unfolding get_all
  get_all-Ends len_src room size zero i pos h = (omega arith, h)
  get_all-Ends len_src room size (suc left) i pos h =
      element-Ends (get len_src size) room (i * size % 2 ^ 32 + size)
        (get_all len_src room size left (i + 1)) (λ bs ns. of_le bs ∷ ns) pos
        (get-Ends _ len_src size pos) (λ q l h'. get_all-Ends len_src room size left (i + 1) q h')

  get_chars-Ends :
      (len_src room left j pos : ℕ)
      → pos ≤ length src
      → Ends src pos (get_chars len_src room left j src pos)
  unfolding get_chars
  get_chars-Ends len_src room zero j pos h = (omega arith, h)
  get_chars-Ends len_src room (suc left) j pos h =
      element-Ends (get len_src 2) room (4 * j + 2) (get_chars len_src room left (j + 1))
        (λ bs ns. of_le bs ∷ ns) pos (get-Ends _ len_src 2 pos)
        (λ q l h'. get_chars-Ends len_src room left (j + 1) q h')

  get_bytes-Ends : (len_src room argc pos : ℕ) → Ends src pos (get_bytes len_src room argc src pos)
  unfolding get_bytes
  get_bytes-Ends len_src room argc pos =
      bind-Ends src pos pos (get_or_fail e_invalidarg len_src argc src pos)
        (λ bs. inside room argc >> pure (elements bs)) (get-Ends e_invalidarg len_src argc pos)
        (λ a p l h.
          bind-Ends src p pos (inside room argc src p) (λ _. pure (elements a))
            (inside-Ends room argc p h) (λ u q l' h'. (omega arith, h')))

  module _ (p : Platform) (len_src : ℕ) where
    get_dates-Ends :
        (room left i pos : ℕ)
        → pos ≤ length src
        → Ends src pos (get_dates p len_src room left i src pos)
    unfolding get_dates
    get_dates-Ends room zero i pos h = (omega arith, h)
    get_dates-Ends room (suc left) i pos h =
        element-Ends (get len_src 8) room (8 * i + 8) (get_dates p len_src room left (i + 1))
          (λ bs ns. bytary2vntdate p bs ∷ ns) pos (get-Ends _ len_src 8 pos)
          (λ q l h'. get_dates-Ends room left (i + 1) q h')

    alloc_string-Ends :
        (n pos : ℕ) → pos ≤ length src → Ends src pos (alloc_string p len_src n src pos)
    unfolding alloc_string
    alloc_string-Ends n pos h = elim (Bool-cases (p.malloc (string_bytes n))) [
      | inl e ↦ rw e (
          map-Ends (get_chars len_src (string_bytes n) n 0) some pos
            (get_chars-Ends len_src (string_bytes n) n 0 pos h))
      | inr e ↦ rw e tt
    ]

    get_string-Ends : (pos : ℕ) → Ends src pos (get_string p len_src src pos)
    unfolding get_string
    get_string-Ends pos =
        bind-Ends src pos pos (get len_src 4 src pos) (λ bs. alloc_string p len_src (of_le bs / 2))
          (get-Ends _ len_src 4 pos)
          (λ bs q l h.
            weaken q pos (alloc_string p len_src (of_le bs / 2) src q) l
              (alloc_string-Ends (of_le bs / 2) q h))

    get_strings-Ends :
        (room left i pos : ℕ)
        → pos ≤ length src
        → Ends src pos (get_strings p len_src room left i src pos)
    unfolding get_strings
    get_strings-Ends room zero i pos h = (omega arith, h)
    get_strings-Ends room (suc left) i pos h =
        element-Ends (get_string p len_src) room (8 * i + 8)
          (get_strings p len_src room left (i + 1)) (λ s ss. s ∷ ss) pos (get_string-Ends pos)
          (λ q l h'. get_strings-Ends room left (i + 1) q h')

    if-IsSafe :
        {A : Type 0} (b : Bool) (m n : Reader A) (pos : ℕ)
        → IsSafe src pos m
        → IsSafe src pos n
        → IsSafe src pos (if b then m else n)
    if-IsSafe true m n pos h k = h
    if-IsSafe false m n pos h k = k

    mapped :
        {A B : Type 0} (m : Reader A) (f : A → B) (pos : ℕ)
        → Ends src pos (m src pos)
        → IsSafe src pos (m >>= λ x. pure (f x))
    mapped m f pos h = record { ends = map-Ends m f pos h }

    pured : {A : Type 0} (a : A) (pos : ℕ) → pos ≤ length src → IsSafe src pos (pure a)
    pured a pos h = record { ends = pure-Ends a pos h }

    get_single-IsSafe : (vt pos : ℕ) → pos ≤ length src → IsSafe src pos (get_single p len_src vt)
    unfolding get_single
    get_single-IsSafe vt pos h =
        if-IsSafe (vt == vt_date) _ _ pos
          (mapped (get len_src 8) (λ bs. scalar vt (bytary2vntdate p bs)) pos
            (get-Ends _ len_src 8 pos))
          (if-IsSafe (vt == vt_bstr) _ _ pos
            (mapped (get_string p len_src) string pos (get_string-Ends pos))
            (if-IsSafe (ltb 0 (scalar_size vt)) _ _ pos
              (mapped (get len_src (scalar_size vt)) (λ bs. scalar vt (of_le bs)) pos
                (get-Ends _ len_src (scalar_size vt) pos))
              (pured (scalar vt 0) pos h)))

    get_array-IsSafe :
        (vt room argc pos : ℕ)
        → pos ≤ length src
        → IsSafe src pos (get_array p len_src vt room argc)
    unfolding get_array
    get_array-IsSafe vt room argc pos h =
        if-IsSafe (vt == vt_ui1) _ _ pos
          (mapped (get_bytes len_src room argc) (numbers vt) pos
            (get_bytes-Ends len_src room argc pos))
          (if-IsSafe (vt == vt_date) _ _ pos
            (mapped (get_dates p len_src room argc 0) (numbers vt) pos
              (get_dates-Ends room argc 0 pos h))
            (if-IsSafe (vt == vt_bstr) _ _ pos
              (mapped (get_strings p len_src room argc 0) strings pos
                (get_strings-Ends room argc 0 pos h))
              (if-IsSafe (ltb 0 (array_size vt)) _ _ pos
                (mapped (get_all len_src room (array_size vt) argc 0) (numbers vt) pos
                  (get_all-Ends len_src room (array_size vt) argc 0 pos h))
                (pured (numbers vt []) pos h))))

    -- The six bytes of the type and the count.
    get_entry-Ends :
        (vnt : ℕ → ℕ → Reader Variant) (flag : Bool) (pos : ℕ)
        → pos ≤ length src
        → ((vt argc q : ℕ) → pos + 6 ≤ q → q ≤ length src → Ends src q (vnt vt argc src q))
        → Ends src pos (get_entry len_src vnt flag src pos)
    unfolding get_entry skip
    get_entry-Ends vnt flag pos h f = elim (Bool-cases flag) [
      | inl e ↦ rw e (fields ((pos + 4) % 2 ^ 32) (omega arith))
      | inr e ↦ rw e (fields pos (omega arith))
    ]
      where
        fields :
            (q : ℕ)
            → pos ≤ q
            → Ends src pos (
                (get len_src 2 >>= λ vt. get len_src 4 >>= λ cnt. vnt (of_le vt) (of_le cnt)) src q)
        fields q l =
            bind-Ends src (q + 2) pos (get len_src 2 src q)
              (λ vt. get len_src 4 >>= λ cnt. vnt (of_le vt) (of_le cnt))
              (get_or_fail-Ends _ len_src 2 q)
              (λ vt r l' h'.
                bind-Ends src (r + 4) pos (get len_src 4 src r) (λ cnt. vnt (of_le vt) (of_le cnt))
                  (get_or_fail-Ends _ len_src 4 r)
                  (λ cnt t l'' h''.
                    weaken t pos (vnt (of_le vt) (of_le cnt) src t) (omega arith)
                      (f (of_le vt) (of_le cnt) t (omega arith) h'')))

    get_entries-Ends :
        (vnt : ℕ → ℕ → Reader Variant) (flag : Bool) (room left i pos : ℕ)
        → pos ≤ length src
        → ((vt argc q : ℕ) → pos + 6 ≤ q → q ≤ length src → Ends src q (vnt vt argc src q))
        → Ends src pos (get_entries len_src vnt flag room left i src pos)
    unfolding get_entries
    get_entries-Ends vnt flag room zero i pos h f = (omega arith, h)
    get_entries-Ends vnt flag room (suc left) i pos h f =
        bind-Ends src pos pos (inside room (16 * i + 16) src pos)
          (λ _. get_entry len_src vnt flag >>= λ v.
            get_entries len_src vnt flag room left (i + 1) >>= λ vs. pure (cons v vs))
          (inside-Ends room (16 * i + 16) pos h)
          (λ u q l h1.
            bind-Ends src q pos (get_entry len_src vnt flag src q)
              (λ v. get_entries len_src vnt flag room left (i + 1) >>= λ vs. pure (cons v vs))
              (get_entry-Ends vnt flag q h1 (λ vt argc t l' h'. f vt argc t (omega arith) h'))
              (λ v t l' h2.
                weaken t pos
                  ((get_entries len_src vnt flag room left (i + 1) >>= λ vs. pure (cons v vs)) src
                    t)
                  (omega arith)
                  (map-Ends (get_entries len_src vnt flag room left (i + 1)) (λ vs. cons v vs) t
                    (get_entries-Ends vnt flag room left (i + 1) t h2
                      (λ vt argc x l'' h''. f vt argc x (omega arith) h'')))))

    room-IsSafe :
        (o : Option ℕ) (k : ℕ → Reader Variant) (pos : ℕ)
        → ((room : ℕ) → IsSafe src pos (k room))
        → IsSafe src pos (with_room o k)
    room-IsSafe none k pos h = record { ends = tt }
    room-IsSafe (some room) k pos h = h room

    bytary2vnt-IsSafe :
        (fuel vt argc pos : ℕ)
        → pos ≤ length src
        → length src < pos + fuel
        → IsSafe src pos (bytary2vnt p len_src fuel vt argc)
    unfolding bytary2vnt
    bytary2vnt-IsSafe zero vt argc pos h d = absurd (omega arith)
    bytary2vnt-IsSafe (suc fuel) vt argc pos h d =
        if-IsSafe (is_array vt) _ _ pos
          (room-IsSafe (create_vector p.malloc (vt - vt_array) argc) _ pos (λ room.
            if-IsSafe (vt - vt_array == vt_variant) _ _ pos
              (mapped (get_entries len_src (bytary2vnt p len_src fuel) false room argc 0) variants
                pos
                (get_entries-Ends (bytary2vnt p len_src fuel) false room argc 0 pos h
                  (λ vt' argc' q l h'. (bytary2vnt-IsSafe fuel vt' argc' q h' (omega arith)).ends)))
              (get_array-IsSafe (vt - vt_array) room argc pos h)))
          (get_single-IsSafe vt pos h)

module _ (p : Platform) (src : List ℕ) (small : length src + 4 < 2 ^ 32) (len_src argc : ℕ)
    (args : Option ℕ) (same : len_src ≡ length src) where
  lift-Ends :
      {A B : Type 0} (o : Outcome A) (k : A → Reader B) (pos : ℕ)
      → o ≢ stuck
      → ((a : A) → Ends src pos (k a src pos))
      → Ends src pos ((lift o >>= k) src pos)
  lift-Ends (ok a) k pos h f = f a
  lift-Ends (err e) k pos h f = tt
  lift-Ends fault k pos h f = tt
  lift-Ends stuck k pos h f = absurd (h refl)

  prepare_args-ne-stuck : (n : ℕ) → prepare_args p argc args n ≢ stuck
  unfolding prepare_args
  prepare_args-ne-stuck n = ground arith

  abbrev field : {A : Type 0} → ℕ → (ℕ → Reader A) → Reader A
  field n k = fetch n >>= λ w. k (of_le w)

  field-Ends :
      {A : Type 0} (n : ℕ) (k : ℕ → Reader A) (pos : ℕ)
      → ((v q : ℕ) → pos ≤ q → q ≤ length src → Ends src q (k v src q))
      → Ends src pos (field n k src pos)
  field-Ends n k pos f =
      bind-Ends src pos pos (fetch n src pos) (λ w. k (of_le w))
        (weaken src small (pos + n) pos (fetch n src pos) (omega arith)
          (fetch-Ends src small n pos))
        (λ w q l h. weaken src small q pos (k (of_le w) src q) l (f (of_le w) q l h))

  abbrev result : ℕ → ℕ → ℕ → ℕ → Variants → Packet
  result s r i n vs = record { serial = s; reserv = r; id = i; argc = n; args = vs }

  abbrev args_of : ℕ → ℕ → ℕ → ℕ → Reader Packet
  args_of s r i n = lift (prepare_args p argc args n) >>= λ room.
      get_entries (len_src - 1) (bytary2vnt p (len_src - 1) len_src) true room n 0 >>= λ vs.
      pure (result s r i n vs)

  abbrev from_id : ℕ → ℕ → ℕ → Reader Packet
  from_id s r i = field 2 (args_of s r i)

  abbrev from_reserv : ℕ → ℕ → Reader Packet
  from_reserv s r = field 4 (from_id s r)

  abbrev from_serial : ℕ → Reader Packet
  from_serial s = field 2 (from_reserv s)

  args_of-Ends :
      (s r i n pos : ℕ) → 0 < pos → pos ≤ length src → Ends src pos (args_of s r i n src pos)
  args_of-Ends s r i n pos h h' =
      lift-Ends (prepare_args p argc args n)
        (λ room.
          get_entries (len_src - 1) (bytary2vnt p (len_src - 1) len_src) true room n 0 >>= λ vs.
          pure (result s r i n vs))
        pos (prepare_args-ne-stuck n)
        (λ room.
          map-Ends src small
            (get_entries (len_src - 1) (bytary2vnt p (len_src - 1) len_src) true room n 0)
            (λ vs. result s r i n vs) pos
            (get_entries-Ends src small p (len_src - 1) (bytary2vnt p (len_src - 1) len_src) true
              room n 0 pos h'
              (λ vt cnt q l h''.
                (bytary2vnt-IsSafe src small p (len_src - 1) len_src vt cnt q h''
                  (omega arith)).ends)))

  read_packet-Ends : (pos : ℕ) → 0 < pos → Ends src pos (read_packet p len_src argc args src pos)
  unfolding read_packet
  read_packet-Ends pos h = field-Ends 2 from_serial pos (λ s q1 l1 h1.
      field-Ends 2 (from_reserv s) q1 (λ r q2 l2 h2. field-Ends 4 (from_id s r) q2 (λ i q3 l3 h3.
        field-Ends 2 (args_of s r i) q3 (λ n q4 l4 h4. args_of-Ends s r i n q4 (omega arith) h4))))

-- For any bytes, fewer than 2 ^ 32 - 4, of the length that is given for them, and anything that the
-- caller put into `dst`, bcap_bytary2packet comes to an end: the model's fuel does not run out.
pub bytary2packet-ne-stuck :
    (p : Platform) (src : List ℕ) (len_src argc : ℕ) (args : Option ℕ)
    → length src + 4 < 2 ^ 32
    → len_src ≡ length src
    → bytary2packet p (some src) len_src argc args ≢ stuck
unfolding bytary2packet load
bytary2packet-ne-stuck p src len_src argc args small same e = ground (
  arith,
  not-stuck src 5 (read_packet p len_src argc args src 5)
      (read_packet-Ends p src small len_src argc args same 5 (omega arith)),
)
