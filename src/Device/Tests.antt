-- ===== src/Device/Tests.antt =====
-- The option `tcp:h:80` and one with too many fields, with a C library for these strings.
use denso_ipc.Prelude.{◌≡◌, refl, true, some, [], ◌∷◌, arith}
use denso_ipc.Outcome.{ok}
use denso_ipc.Device.Options.{
  Libc, ConnParamEth, is_numeric, all_digits, starts, parse_conn_type, is_ether,
  parse_conn_param_ether,
}
use denso_ipc.Device.Options.Fields.{IsField, join}
use denso_ipc.Device.Options.Ether.{parse_conn_param_ether-join}

abbrev eighty : Libc
eighty = record {
  malloc = λ n. true;
  atoi = λ s. 80;
  atol = λ s. 80;
  inet_addr = λ s. 0x0100007F;
  tenths = λ s. 10;
}

abbrev blank : ConnParamEth
blank = record { dst_addr = 0; dst_port = 0; src_addr = 0; src_port = 9 }

tcp-IsField : IsField (116 ∷ 99 ∷ 112 ∷ [])
tcp-IsField = (λ e. omega (arith, e), (λ e. omega (arith, e), (λ e. omega (arith, e), tt)))

h-IsField : IsField (104 ∷ [])
h-IsField = (λ e. omega (arith, e), tt)

eighty-IsField : IsField (56 ∷ 48 ∷ [])
eighty-IsField = (λ e. omega (arith, e), (λ e. omega (arith, e), tt))

parse_conn_param_ether-join_example :
    parse_conn_param_ether eighty
      (some (join (116 ∷ 99 ∷ 112 ∷ []) ((104 ∷ []) ∷ (56 ∷ 48 ∷ []) ∷ [])))
      (some blank)
    ≡ ok (record { dst_addr = 0x0100007F; dst_port = 0x5000; src_addr = 0; src_port = 9 })
unfolding is_ether parse_conn_type starts join is_numeric all_digits
parse_conn_param_ether-join_example =
    parse_conn_param_ether-join eighty (116 ∷ 99 ∷ 112 ∷ []) (104 ∷ []) (56 ∷ 48 ∷ []) tcp-IsField
      h-IsField eighty-IsField refl refl (λ e. omega (arith, e)) refl (omega arith) blank
