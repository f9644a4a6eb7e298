-- ===== src/Bcap/Encode.antt =====
-- From packets to bytes: bcap_vnt2bytary, bcap_vntary2bytary and bcap_packet2bytary of
-- library/src/bcap_common.c. A HRESULT that is not S_OK drops the buffer.
use denso_ipc.Prelude.{
  ℕ, zero, suc, ◌+◌, ◌-◌, ◌*◌, ◌%◌, ◌^◌, Bool, true, false, ◌&&◌, Option, none, some, List, [], ◌∷◌,
  replicate, to_le, ltb, ◌==◌, if◌then◌else◌,
}
use denso_ipc.Outcome.{Outcome, ok, err, fault, bind, e_invalidarg}
use denso_ipc.Variant.{
  Variant, scalar, string, null_array, numbers, strings, variants, Variants, nil, cons, Bstr,
  type_of, count, sys_string_len, vt_date, vt_ui1,
}
use denso_ipc.Bcap.Platform.{Platform}
use denso_ipc.Bcap.Packet.{Packet, header, terminator, size_min, size_data_len}
use denso_ipc.Bcap.Elements.{array_size, scalar_size, chars, element_count, bytes_of}
use denso_ipc.Bcap.Writer.{Writer, put, copy, store, ◌>>◌}

-- bcap_vntdate2bytary, without Windows. A `time_t` is signed.
unfoldable pub vntdate2bytary : Platform → ℕ → List ℕ
vntdate2bytary p date =
    if ltb 0 date && ltb date (2 ^ 63)
    then to_le 8 (p.add (p.div (p.double_of date) (p.double_of 86400)) (p.double_of 25569))
    else to_le 8 0

-- `*offset += BCAP_SIZE_DATA_LEN`, with no check.
unfoldable pub skip_length : Bool → Writer
skip_length flag c = if flag then ok (record c { pos = (c.pos + size_data_len) % 2 ^ 32 }) else ok c

-- `len_vnt`, written at the offset where the entry began.
unfoldable pub write_length : Bool → ℕ → Writer
write_length flag offset_tmp c =
    if flag
    then bind
        (store c.buf offset_tmp
          (to_le 4 ((c.pos + 2 ^ 32 - offset_tmp + 2 ^ 32 - size_data_len) % 2 ^ 32)))
        (λ dst. ok (record c { buf = dst }))
    else ok c

module _ (len_dst : ℕ) where
  -- The loop `memcpy_le(&dst[*offset], (char *) parray + i * size, size)`.
  unfoldable pub put_all : ℕ → List ℕ → Writer
  put_all size [] = ok
  put_all size (n ∷ ns) = put len_dst (to_le size n) >> put_all size ns

  -- `len_bstr` counts bytes, two for each character.
  unfoldable pub put_string : Bstr → Writer
  put_string s = put len_dst (to_le 4 (2 * sys_string_len s)) >> put_all 2 (chars s)

  unfoldable pub put_strings : List Bstr → Writer
  put_strings [] = ok
  put_strings (s ∷ ss) = put_string s >> put_strings ss

  unfoldable pub put_count : Variant → Writer
  put_count v = elim (element_count v) [
    | none ↦ (λ c. err e_invalidarg)
    | some n ↦ put len_dst (to_le 4 n)
  ]

  -- The body of the loop of bcap_vntary2bytary, around the call of bcap_vnt2bytary.
  unfoldable pub put_entry : Bool → Variant → Writer → Writer
  put_entry flag v payload c =
      bind ((skip_length flag >> (put len_dst (to_le 2 (type_of v)) >> (put_count v >> payload))) c)
        (write_length flag c.pos)

module _ (p : Platform) (len_dst : ℕ) where
  unfoldable pub put_dates : List ℕ → Writer
  put_dates [] = ok
  put_dates (n ∷ ns) = put len_dst (vntdate2bytary p n) >> put_dates ns

  -- VT_UI1 is one `memcpy`.
  unfoldable pub put_numbers : ℕ → List ℕ → Writer
  put_numbers vt ns =
      if vt == vt_ui1
      then put len_dst (bytes_of ns)
      else if vt == vt_date
      then put_dates ns
      else if ltb 0 (array_size vt)
      then put_all len_dst (array_size vt) ns
      else ok

  unfoldable pub put_scalar : ℕ → ℕ → Writer
  put_scalar vt n =
      if vt == vt_date
      then put len_dst (vntdate2bytary p n)
      else if ltb 0 (scalar_size vt)
      then put len_dst (to_le (scalar_size vt) n)
      else ok

  unfoldable mutual
    pub vnt2bytary : Variant → Writer
    vnt2bytary (scalar vt n) = put_scalar vt n
    vnt2bytary (string s) = put_string len_dst s
    vnt2bytary (null_array vt) = ok
    vnt2bytary (numbers vt ns) = put_numbers vt ns
    vnt2bytary (strings ss) = put_strings len_dst ss
    vnt2bytary (variants vs) = vntary2bytary vs (count vs) false

    -- `argc` entries; a read behind the last is a fault.
    pub vntary2bytary : Variants → ℕ → Bool → Writer
    vntary2bytary nil zero flag = ok
    vntary2bytary nil (suc argc) flag = λ c. fault
    vntary2bytary (cons v vs) zero flag = ok
    vntary2bytary (cons v vs) (suc argc) flag =
        put_entry len_dst flag v (vnt2bytary v) >> vntary2bytary vs argc flag

-- The part of bcap_packet2bytary behind its tests, `dst` cleared.
unfoldable pub write_packet : Platform → Packet → ℕ → Writer
write_packet p src len_dst =
    copy (header ∷ [])
    >> (copy (to_le 4 len_dst)
        >> (copy (to_le 2 src.serial)
            >> (copy (to_le 2 src.reserv)
                >> (copy (to_le 4 src.id)
                    >> (copy (to_le 2 src.argc)
                        >> vntary2bytary p (len_dst - 1) src.args src.argc true)))))

-- `none` is a NULL pointer. `memset` clears `len_dst` bytes, the terminator is the last of them.
unfoldable pub packet2bytary : Platform → Option Packet → Option (List ℕ) → ℕ → Outcome (List ℕ)
packet2bytary p none dst len_dst = err e_invalidarg
packet2bytary p (some src) none len_dst = err e_invalidarg
packet2bytary p (some src) (some dst) len_dst =
    if ltb len_dst size_min
    then err e_invalidarg
    else bind (store dst 0 (replicate len_dst 0)) (λ cleared.
      bind (write_packet p src len_dst (record { buf = cleared; pos = 0 }))
        (λ c. store c.buf (len_dst - 1) (terminator ∷ [])))
