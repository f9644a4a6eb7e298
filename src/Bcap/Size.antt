-- ===== src/Bcap/Size.antt =====
-- bcap_calc_size_variant and bcap_calc_size_packet of library/src/bcap_common.c, in uint32_t.
use denso_ipc.Prelude.{
  ℕ, zero, suc, ◌+◌, ◌*◌, ◌%◌, ◌^◌, ◌||◌, Option, none, some, List, [], ◌∷◌, length, ◌==◌,
  if◌then◌else◌,
}
use denso_ipc.Outcome.{Outcome, ok, fault}
use denso_ipc.Variant.{
  Variant, scalar, string, null_array, numbers, strings, variants, Variants, nil, cons, Bstr,
  sys_string_len, vt_i2, vt_i4, vt_r4, vt_r8, vt_cy, vt_date, vt_error, vt_bool, vt_ui1, vt_ui2,
  vt_ui4, vt_i8, vt_ui8,
}
use denso_ipc.Bcap.Packet.{Packet, size_min}

-- The factor of `cnt` in the switch for arrays.
unfoldable pub calc_array : ℕ → ℕ
calc_array vt =
    if vt == vt_ui1
    then 1
    else if vt == vt_i2 || vt == vt_ui2 || vt == vt_bool
    then 2
    else if vt == vt_i4 || vt == vt_ui4 || vt == vt_r4
    then 4
    else if vt == vt_i8 || vt == vt_ui8 || vt == vt_r8 || vt == vt_cy || vt == vt_date
    then 8
    else 0

unfoldable pub calc_scalar : ℕ → ℕ
calc_scalar vt =
    if vt == vt_ui1
    then 1
    else if vt == vt_i2 || vt == vt_ui2 || vt == vt_bool
    then 2
    else if vt == vt_i4 || vt == vt_ui4 || vt == vt_r4 || vt == vt_error
    then 4
    else if vt == vt_i8 || vt == vt_ui8 || vt == vt_r8 || vt == vt_cy || vt == vt_date
    then 8
    else 0

-- BCAP_SIZE_BSTR_LEN and BCAP_SIZE_BSTR_BUFFER for each character.
unfoldable pub calc_string : Bstr → ℕ
calc_string s = 4 + 2 * sys_string_len s

-- The loop over an array of BSTR; `ret` is the accumulator.
unfoldable pub calc_strings : List Bstr → ℕ → ℕ
calc_strings [] ret = ret
calc_strings (s ∷ ss) ret = calc_strings ss ((ret + calc_string s) % 2 ^ 32)

unfoldable mutual
  pub calc_size_variant : Variant → ℕ
  calc_size_variant (scalar vt n) = calc_scalar vt
  calc_size_variant (string s) = calc_string s
  calc_size_variant (null_array vt) = 0
  calc_size_variant (numbers vt ns) = length ns * calc_array vt % 2 ^ 32
  calc_size_variant (strings ss) = calc_strings ss 0
  calc_size_variant (variants vs) = calc_variants vs 0

  -- The loop over an array of VARIANT: 2 bytes for the type, 4 for the number of elements.
  pub calc_variants : Variants → ℕ → ℕ
  calc_variants nil ret = ret
  calc_variants (cons v vs) ret = calc_variants vs ((ret + 6 + calc_size_variant v) % 2 ^ 32)

-- The loop of bcap_calc_size_packet: 4 more for the length of the entry.
unfoldable pub calc_args : Variants → ℕ → ℕ → Outcome ℕ
calc_args nil zero ret = ok ret
calc_args nil (suc argc) ret = fault
calc_args (cons v vs) zero ret = ok ret
calc_args (cons v vs) (suc argc) ret = calc_args vs argc ((ret + 10 + calc_size_variant v) % 2 ^ 32)

unfoldable pub calc_size_packet : Option Packet → Outcome ℕ
calc_size_packet none = ok 0
calc_size_packet (some packet) = calc_args packet.args packet.argc size_min
