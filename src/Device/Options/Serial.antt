-- ===== src/Device/Options/Serial.antt =====
-- The options of a serial line, `com:1:38400:N:8:1:0`: parse_conn_param_serial of
-- library/src/dn_device.c.
use denso_ipc.Prelude.{
  ℕ, ◌+◌, ◌-◌, ◌%◌, ◌^◌, ◌==◌, ltb, not, ◌||◌, if◌then◌else◌, Bool, false, List, [], ◌∷◌, Option,
  none, some, length,
}
use denso_ipc.Outcome.{Outcome, ok, err, bind, e_invalidarg, e_outofmemory, overflow}
use denso_ipc.Device.{conn_com}
use denso_ipc.Device.Options.{
  Libc, ConnParamCom, is_numeric, parse_conn_type, split, field_at, para_max_com,
}

-- NOPARITY, ODDPARITY and EVENPARITY, by the one letter of the field.
unfoldable pub parity_of : List ℕ → Outcome ℕ
parity_of [] = err e_invalidarg
parity_of (c ∷ []) =
    if (c == 78) || (c == 110)
    then ok 0
    else if (c == 79) || (c == 111)
    then ok 1
    else if (c == 69) || (c == 101)
    then ok 2
    else err e_invalidarg
parity_of (c ∷ d ∷ s) = err e_invalidarg

-- Three fields after the baud rate come together or not at all.
unfoldable pub is_partial : List (List ℕ) → Bool
is_partial fields = number fields == 4 || number fields == 5
  where
    number : List (List ℕ) → ℕ
    number [] = 0
    number (s ∷ ss) = 1 + number ss

module _ (libc : Libc) where
  -- `atol` of a numeric field between two bounds.
  unfoldable pub bounded : ℕ → ℕ → List ℕ → Outcome ℕ
  bounded low high s =
      if not (is_numeric (some s))
      then err e_invalidarg
      else if ltb (libc.atol s) low || ltb high (libc.atol s)
      then err overflow
      else ok (libc.atol s)

  -- ONESTOPBIT and TWOSTOPBITS, by ten times the number.
  unfoldable pub stop_of : List ℕ → Outcome ℕ
  stop_of s =
      if libc.tenths s == 10 then ok 0 else if libc.tenths s == 20 then ok 2 else err e_invalidarg

  unfoldable pub baud_of : List ℕ → Outcome ℕ
  baud_of s = if not (is_numeric (some s)) then err e_invalidarg else ok (libc.atol s % 2 ^ 32)

  -- A field that is there replaces the old value.
  unfoldable pub replace : (List ℕ → Outcome ℕ) → Option (List ℕ) → ℕ → Outcome ℕ
  replace read none old = ok old
  replace read (some s) old = read s

  -- From the split string on: the fields are read from the last to the first.
  unfoldable pub set_serial : Option (List (List ℕ)) → ConnParamCom → Outcome ConnParamCom
  set_serial none param = err e_invalidarg
  set_serial (some fields) param =
      if is_partial fields
      then err e_invalidarg
      else bind (replace (bounded 0 3) (field_at 6 fields) param.flow) (λ f.
        bind (replace stop_of (field_at 5 fields) param.stop_bits) (λ s.
          bind (replace (bounded 5 8) (field_at 4 fields) param.data_bits) (λ d.
            bind (replace parity_of (field_at 3 fields) param.parity) (λ p.
              bind (replace baud_of (field_at 2 fields) param.baud_rate) (λ b.
                bind (replace (bounded 0 (2 ^ 31 - 1)) (field_at 1 fields) param.port) (λ n.
                  ok (record {
                    port = n;
                    baud_rate = b;
                    parity = p;
                    data_bits = d;
                    stop_bits = s;
                    flow = f;
                  })))))))

  unfoldable pub is_serial : Option ℕ → Bool
  is_serial none = false
  is_serial (some kind) = kind == conn_com

  unfoldable pub parse_conn_param_serial :
      Option (List ℕ) → Option ConnParamCom → Outcome ConnParamCom
  parse_conn_param_serial opt none = err e_invalidarg
  parse_conn_param_serial none (some param) = err e_invalidarg
  parse_conn_param_serial (some opt) (some param) =
      if not (is_serial (parse_conn_type (some opt)))
      then err e_invalidarg
      else if not (libc.malloc (length opt + 1))
      then err e_outofmemory
      else set_serial (split para_max_com opt) param
