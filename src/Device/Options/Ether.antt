-- ===== src/Device/Options/Ether.antt =====
-- What parse_conn_param_ether of library/src/dn_device.c makes of joined fields.
use denso_ipc.Prelude.{
  ℕ, ◌+◌, ◌^◌, ◌≤◌, ◌<◌, ◌≡◌, ◌≢◌, refl, true, List, [], ◌∷◌, some, length, ne→==, lt→leb-false,
  inl, inr, Bool-cases, arith,
}
use denso_ipc.Outcome.{ok, err, e_invalidarg}
use denso_ipc.Device.Options.{
  Libc, ConnParamEth, is_numeric, parse_conn_type, is_ether, field_at, htons, port_of, addr_of,
  set_src_port, set_src_addr, set_dst_port, set_dst_addr, set_ether, parse_conn_param_ether,
  para_max_eth,
}
use denso_ipc.Device.Options.Fields.{
  IsField, AllFields, number, join, split-join, split-join_crowded,
}

module _ (libc : Libc) where
  -- If memory is there, an option with the type of an Ethernet connection, an address that inet_addr
  -- knows and a decimal port below 2 ^ 16 sets the destination in the parameters, and leaves the
  -- source.
  pub parse_conn_param_ether-join :
      (kind ip port : List ℕ)
      → IsField kind
      → IsField ip
      → IsField port
      → is_ether libc (parse_conn_type (some (join kind (ip ∷ port ∷ [])))) ≡ true
      → libc.malloc (length (join kind (ip ∷ port ∷ [])) + 1) ≡ true
      → libc.inet_addr ip ≢ 0xFFFFFFFF
      → is_numeric (some port) ≡ true
      → libc.atoi port < 2 ^ 16
      → (param : ConnParamEth)
      → parse_conn_param_ether libc (some (join kind (ip ∷ port ∷ []))) (some param)
        ≡ ok (record {
          dst_addr = libc.inet_addr ip;
          dst_port = htons (libc.atoi port);
          src_addr = param.src_addr;
          src_port = param.src_port;
        })
  unfolding parse_conn_param_ether set_ether field_at set_src_port set_src_addr set_dst_port
      set_dst_addr port_of addr_of
  parse_conn_param_ether-join kind ip port fk fi fp ether memory known numeric small param =
      rw
        (
          ether,
          memory,
          split-join para_max_eth kind (ip ∷ port ∷ []) fk (fi, (fp, tt)) (omega arith),
          numeric,
          lt→leb-false (2 ^ 16) (libc.atoi port) small,
          ne→== (libc.inet_addr ip) 0xFFFFFFFF known,
        )
        refl

  -- If memory is there, more than five fields are refused with E_INVALIDARG.
  pub parse_conn_param_ether-crowded :
      (kind : List ℕ) (ss : List (List ℕ))
      → IsField kind
      → AllFields ss
      → para_max_eth ≤ number ss
      → libc.malloc (length (join kind ss) + 1) ≡ true
      → (param : ConnParamEth)
      → parse_conn_param_ether libc (some (join kind ss)) (some param) ≡ err e_invalidarg
  unfolding parse_conn_param_ether set_ether
  parse_conn_param_ether-crowded kind ss fk fs more memory param =
      elim (Bool-cases (is_ether libc (parse_conn_type (some (join kind ss))))) [
        | inl e ↦ rw (e, memory, split-join_crowded para_max_eth kind ss fk fs more) refl
        | inr e ↦ rw e refl
      ]
