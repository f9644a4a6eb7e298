-- ===== src/Bcap/Decode.antt =====
-- From bytes to packets: bcap_bytary2vnt, bcap_bytary2vntary and bcap_bytary2packet of
-- library/src/bcap_common.c. What a failing call leaves in `dst` is dropped. A `room` is the size in
-- bytes of the object that a loop fills.
pub mod Exact
pub mod Parses
pub mod Nested
pub mod Total
pub mod Overflow
use denso_ipc.Prelude.{
  ℕ, zero, suc, ◌+◌, ◌-◌, ◌*◌, ◌/◌, ◌%◌, ◌^◌, Bool, true, false, ◌||◌, not, Option, none, some,
  List, [], ◌∷◌, of_le, length, ltb, leb, ◌==◌, if◌then◌else◌,
}
use denso_ipc.Outcome.{Outcome, ok, err, stuck, bind, e_invalidarg, e_invalidpacket, e_outofmemory}
use denso_ipc.Variant.{
  Variant, scalar, string, numbers, strings, variants, Variants, nil, cons, Bstr, is_array,
  string_bytes, create_vector, vt_array, vt_bstr, vt_date, vt_ui1, vt_variant, wchar_size,
}
use denso_ipc.Bcap.Platform.{Platform}
use denso_ipc.Bcap.Packet.{Packet, header, terminator, size_min, size_data_len}
use denso_ipc.Bcap.Elements.{array_size, scalar_size}
use denso_ipc.Bcap.Reader.{Reader, get, get_or_fail, load, fetch, inside, pure, fail, ◌>>=◌, ◌>>◌}

-- The bytes of an array of VT_UI1 as its elements.
unfoldable pub elements : List ℕ → List ℕ
elements [] = []
elements (b ∷ bs) = of_le (b ∷ []) ∷ elements bs

-- bcap_bytary2vntdate, without Windows, into a variable that holds 0.
unfoldable pub bytary2vntdate : Platform → List ℕ → ℕ
bytary2vntdate p bs =
    let dbl = of_le bs in
    if p.is_positive dbl
    then p.time_of (p.mul (p.sub dbl (p.double_of 25569)) (p.double_of 86400))
    else 0

unfoldable pub skip : Bool → Reader (Unit {0})
skip flag src pos = if flag then ok (tt, (pos + size_data_len) % 2 ^ 32) else ok (tt, pos)

module _ (len_src : ℕ) where
  -- The loop `memcpy_le((char *) parray + i * size, &src[*offset], size)`.
  unfoldable pub get_all : ℕ → ℕ → ℕ → ℕ → Reader (List ℕ)
  get_all room size zero i = pure []
  get_all room size (suc left) i = do
    bs ← get len_src size
    inside room (i * size % 2 ^ 32 + size)
    ns ← get_all room size left (i + 1)
    pure (of_le bs ∷ ns)

  -- Two bytes of each `wchar_t`; the others are 0.
  unfoldable pub get_chars : ℕ → ℕ → ℕ → Reader (List ℕ)
  get_chars room zero j = pure []
  get_chars room (suc left) j = do
    bs ← get len_src 2
    inside room (wchar_size * j + 2)
    cs ← get_chars room left (j + 1)
    pure (of_le bs ∷ cs)

  -- One `memcpy` for VT_UI1, with a HRESULT of its own.
  unfoldable pub get_bytes : ℕ → ℕ → Reader (List ℕ)
  get_bytes room argc = do
    bs ← get_or_fail e_invalidarg len_src argc
    inside room argc
    pure (elements bs)

  -- The body of the loop of bcap_bytary2vntary around the call `vnt` of bcap_bytary2vnt.
  unfoldable pub get_entry : (ℕ → ℕ → Reader Variant) → Bool → Reader Variant
  get_entry vnt flag = do
    skip flag
    vt ← get len_src 2
    cnt ← get len_src 4
    vnt (of_le vt) (of_le cnt)

  -- The loop. It clears each VARIANT, of 16 bytes, before it reads.
  unfoldable pub get_entries : (ℕ → ℕ → Reader Variant) → Bool → ℕ → ℕ → ℕ → Reader Variants
  get_entries vnt flag room zero i = pure nil
  get_entries vnt flag room (suc left) i = do
    inside room (16 * i + 16)
    v ← get_entry vnt flag
    vs ← get_entries vnt flag room left (i + 1)
    pure (cons v vs)

-- `if (dst->parray == NULL) return E_OUTOFMEMORY;`
abbrev pub with_room : {A : Type 0} → Option ℕ → (ℕ → Reader A) → Reader A
with_room none k = fail e_outofmemory
with_room (some room) k = k room

module _ (p : Platform) (len_src : ℕ) where
  unfoldable pub get_dates : ℕ → ℕ → ℕ → Reader (List ℕ)
  get_dates room zero i = pure []
  get_dates room (suc left) i = do
    bs ← get len_src 8
    inside room (8 * i + 8)
    ns ← get_dates room left (i + 1)
    pure (bytary2vntdate p bs ∷ ns)

  -- `SysAllocStringLen(L"", len_bstr)` and the loop over its characters.
  unfoldable pub alloc_string : ℕ → Reader Bstr
  alloc_string len_bstr =
      if p.malloc (string_bytes len_bstr)
      then (get_chars len_src (string_bytes len_bstr) len_bstr 0 >>= λ cs. pure (some cs))
      else fail e_outofmemory

  unfoldable pub get_string : Reader Bstr
  get_string = get len_src 4 >>= λ bs. alloc_string (of_le bs / 2)

  unfoldable pub get_strings : ℕ → ℕ → ℕ → Reader (List Bstr)
  get_strings room zero i = pure []
  get_strings room (suc left) i = do
    s ← get_string
    inside room (8 * i + 8)
    ss ← get_strings room left (i + 1)
    pure (s ∷ ss)

  -- The switch for single values.
  unfoldable pub get_single : ℕ → Reader Variant
  get_single vt =
      if vt == vt_date
      then (get len_src 8 >>= λ bs. pure (scalar vt (bytary2vntdate p bs)))
      else if vt == vt_bstr
      then (get_string >>= λ s. pure (string s))
      else if ltb 0 (scalar_size vt)
      then (get len_src (scalar_size vt) >>= λ bs. pure (scalar vt (of_le bs)))
      else pure (scalar vt 0)

  -- The switch for arrays, but for VT_VARIANT.
  unfoldable pub get_array : ℕ → ℕ → ℕ → Reader Variant
  get_array vt room argc =
      if vt == vt_ui1
      then (get_bytes len_src room argc >>= λ ns. pure (numbers vt ns))
      else if vt == vt_date
      then (get_dates room argc 0 >>= λ ns. pure (numbers vt ns))
      else if vt == vt_bstr
      then (get_strings room argc 0 >>= λ ss. pure (strings ss))
      else if ltb 0 (array_size vt)
      then (get_all len_src room (array_size vt) argc 0 >>= λ ns. pure (numbers vt ns))
      else pure (numbers vt [])

  -- The fuel bounds how deep arrays of VARIANT nest.
  unfoldable pub bytary2vnt : ℕ → ℕ → ℕ → Reader Variant
  bytary2vnt zero vt argc = λ src pos. stuck
  bytary2vnt (suc fuel) vt argc =
      let nested = λ (room : ℕ). get_entries len_src (bytary2vnt fuel) false room argc 0 in
      if is_array vt
      then with_room (create_vector p.malloc (vt - vt_array) argc) (λ room.
        if vt - vt_array == vt_variant
        then (nested room >>= λ vs. pure (variants vs))
        else get_array (vt - vt_array) room argc)
      else get_single vt

-- `dst->argc` and `dst->args` as bcap_bytary2packet leaves them: the number of arguments, and the
-- room of the array, which it allocates where `args` is NULL. `argc` is 0xFFFF for -1.
unfoldable pub prepare_args : Platform → ℕ → Option ℕ → ℕ → Outcome ℕ
prepare_args p argc args tmp_argc =
    if argc == 0xffff
    then elim args [
      | some room ↦ err e_invalidarg
      | none ↦
          (if tmp_argc == 0 || p.malloc (16 * tmp_argc)
            then ok (16 * tmp_argc)
            else err e_outofmemory)
    ]
    else elim args [
      | some room ↦ (if ltb argc tmp_argc then err e_invalidpacket else ok room)
      | none ↦
          (if ltb 0 argc
            then err e_invalidarg
            else if ltb argc tmp_argc
            then err e_invalidpacket
            else ok 0)
    ]

-- A call that does not read.
abbrev pub lift : {A : Type 0} → Outcome A → Reader A
lift o src pos = bind o (λ a. ok (a, pos))

-- The fields behind the length, without a check, and the arguments.
unfoldable pub read_packet : Platform → ℕ → ℕ → Option ℕ → Reader Packet
read_packet p len_src argc args = do
  serial ← fetch 2
  reserv ← fetch 2
  id ← fetch 4
  tmp_argc ← fetch 2
  room ← lift (prepare_args p argc args (of_le tmp_argc))
  vs ← get_entries (len_src - 1) (bytary2vnt p (len_src - 1) len_src) true room (of_le tmp_argc) 0
  pure (record {
    serial = of_le serial;
    reserv = of_le reserv;
    id = of_le id;
    argc = of_le tmp_argc;
    args = vs;
  })

-- `none` is a NULL `src`. `argc` and `args` are what the caller put into `dst`, with the room in
-- bytes of the array; the fuel is the length of the packet.
unfoldable pub bytary2packet : Platform → Option (List ℕ) → ℕ → ℕ → Option ℕ → Outcome Packet
bytary2packet p none len_src argc args = err e_invalidarg
bytary2packet p (some src) len_src argc args =
    if ltb len_src size_min
    then err e_invalidpacket
    else bind (load src 1 4) (λ len_tmp.
      if not (of_le len_tmp == len_src)
      then err e_invalidpacket
      else bind (load src 0 1) (λ first. bind (load src (len_src - 1) 1) (λ last.
        if not (of_le first == header) || not (of_le last == terminator)
        then err e_invalidpacket
        else bind (read_packet p len_src argc args src 5) (λ r. ok r.0))))
