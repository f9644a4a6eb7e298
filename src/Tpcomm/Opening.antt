-- ===== src/Tpcomm/Opening.antt =====
-- TPComm_Open and TPComm_Close of library/src/TPComm/dn_tpcomm.c, on the one connection there is.
mod Tests
use denso_ipc.Prelude.{
  ℕ, ◌+◌, ◌≡◌, ◌≢◌, ◌⊎◌, refl, sym, ◌==◌, ◌||◌, if◌then◌else◌, Bool, Bool-cases, inl, inr, true,
  false, List, [], Option, none, some, eq→==, ne→==, replicate, arith,
}
use denso_ipc.Codes.{failed, s_ok, e_handle, e_invalidarg, e_max_object}
use denso_ipc.Device.{ConnParamCommon, conn_udp, conn_com}
use denso_ipc.Tpcomm.{Tp, tp_connect, tp_tpless}
use denso_ipc.Tpcomm.Events.{Notice, System}
use denso_ipc.Tpcomm.Sync.{last_state, IsInSync}
use denso_ipc.Tpcomm.Requests.{tp_address}

abbrev pub tp_id_client : ℕ
tp_id_client = 0x11

abbrev pub tp_id_server : ℕ
tp_id_server = 0x90

-- What the calls of the opening return: the type that parse_conn_type finds, the code of the parser with the memory for the
-- address, initialize_mutex, create_event, dn_open with the socket it stores, TPComm_SetTimeout on a socket that is not 0, and the
-- time; with the address and the functions of the device.
pub record Opening {ℓ} (W : Type ℓ) : Type ℓ where
  pub kind : ℕ
  pub parsed : ℕ
  pub mutex : ℕ
  pub event : ℕ
  pub opened : ℕ
  pub sock : ℕ
  pub timed : ℕ
  pub clock : ℕ
  pub device : ConnParamCommon W

module _ {ℓ} {W : Type ℓ} where
  -- `memset(tp_param, 0, sizeof(struct CONN_PARAM_TP))`
  abbrev pub blank : Tp W
  blank = record {
    device = record {
      sock = 0;
      kind = 0;
      arg = none;
      dn_send = none;
      dn_open = false;
      dn_close = false;
      dn_recv = false;
      dn_set_timeout = false;
      dn_clear = false;
    };
    client = false;
    init = false;
    state = 0;
    cts = false;
    from_id = 0;
    to_id = 0;
    ping_clock = 0;
    init_clock = 0;
    check_clock = 0;
    last_packet = replicate 256 0;
  }

  -- The device of the `switch`, with the socket.
  abbrev pub device_of : Opening W → ℕ → ConnParamCommon W
  device_of o sock = record o.device { kind = o.kind; sock = sock }

  -- From `Sets parameters` on.
  unfoldable pub settled : Opening W → Bool → Tp W → Tp W
  settled o client tp = record {
    device = device_of o o.sock;
    client = client;
    init = false;
    state = tp_tpless;
    cts = false;
    from_id = if client then tp_id_client else tp_id_server;
    to_id = tp_id_client;
    ping_clock = o.clock;
    init_clock = o.clock;
    check_clock = o.clock;
    last_packet = tp.last_packet;
  }

  abbrev pub opening_code : Opening W → ℕ
  opening_code o = if (o.kind == conn_udp) || (o.kind == conn_com) then o.parsed else e_invalidarg

  abbrev pub timeout_code : Opening W → ℕ
  timeout_code o = if o.sock == 0 then e_handle else o.timed

  -- The code, the connection, and what is stored behind `pfd`.
  abbrev close_of : Tp W → Option (Tp W) → ℕ × Tp W × Option ℕ
  close_of tp none = (e_handle, tp, none)
  close_of tp (some t) = (s_ok, blank, some 0)

  unfoldable pub tp_close : ℕ → Tp W → ℕ × Tp W × Option ℕ
  tp_close fd tp = close_of tp (tp_address fd tp)

  unfoldable pub tp_open : Opening W → Bool → Tp W → ℕ × Tp W × Option ℕ
  unfolding settled tp_close
  tp_open o client tp =
      if tp.device.sock == 0
      then (if failed (opening_code o)
          then (opening_code o, blank, none)
          else if failed o.mutex
          then (o.mutex, record tp { device = record (device_of o 0) { arg = none } }, none)
          else if failed o.event
          then (o.event, blank, none)
          else if failed o.opened
          then (o.opened, blank, none)
          else if failed (timeout_code o)
          then (timeout_code o, (tp_close 1 (record tp { device = device_of o o.sock })).1, none)
          else (s_ok, settled o client tp, some 1))
      else (e_max_object, tp, none)

  Free : Tp W → Type ℓ
  Free tp = (fd : ℕ) → tp_address fd tp ≡ none

  sock-Free : (tp : Tp W) → tp.device.sock ≡ 0 → Free tp
  unfolding Free tp_address
  sock-Free tp e fd = elim (Bool-cases (fd == 1)) [ inl t ↦ rw t (rw e refl) | inr f ↦ rw f refl ]

  open-address : (tp : Tp W) → (tp.device.sock == 0) ≡ false → tp_address 1 tp ≡ some tp
  unfolding tp_address
  open-address tp f = rw f refl

  close-Free : (tp : Tp W) → Free (tp_close 1 tp).1
  unfolding tp_close Free
  close-Free tp = elim (Bool-cases (tp.device.sock == 0)) [
    | inl t ↦ rw (sock-Free tp (ground arith) 1) (sock-Free tp (ground arith))
    | inr f ↦ rw (open-address tp f) (sock-Free blank refl)
  ]

  -- No handle is stored and every handle is refused, or the handle 1 is, and names a connection in TP_TPLESS that agrees with the calls
  -- of the application.
  Ends : W → List Notice → ℕ × Tp W × Option ℕ → Type ℓ
  Ends w calls r =
      ((r.2 ≡ none) × Free r.1)
      ⊎ ((r.2 ≡ some 1)
          × (tp_address 1 r.1 ≡ some r.1)
          × (r.1.state ≡ tp_tpless)
          × IsInSync (record { tp = r.1; world = w; calls = calls }))

  if-Ends :
      (w : W) (calls : List Notice) (b : Bool) (x y : ℕ × Tp W × Option ℕ)
      → Ends w calls x
      → Ends w calls y
      → Ends w calls (if b then x else y)
  if-Ends w calls true x y h k = h
  if-Ends w calls false x y h k = k

  timed-Ends :
      (o : Opening W) (client : Bool) (tp : Tp W) (w : W) (calls : List Notice)
      → last_state calls ≢ tp_connect
      → Ends w calls (
          if failed (timeout_code o)
          then (timeout_code o, (tp_close 1 (record tp { device = device_of o o.sock })).1, none)
          else (s_ok, settled o client tp, some 1))
  unfolding settled tp_address Ends
  timed-Ends o client tp w calls n = elim (Bool-cases (o.sock == 0)) [
    | inl t ↦ rw t (inl (refl, close-Free (record tp { device = device_of o o.sock })))
    | inr f ↦
        if-Ends w calls (failed (timeout_code o)) _ _
          (inl (refl, close-Free (record tp { device = device_of o o.sock })))
          (inr (
            refl,
            rw f refl,
            refl,
            record {
              least = omega arith;
              most = omega arith;
              agree = ne→== (last_state calls) tp_connect n;
            },
          ))
  ]

  -- If the application was not told TP_CONNECT last, TPComm_Open on a connection that is not open stores the handle 1, and it names a
  -- connection in TP_TPLESS that agrees with what the application was told, or it stores no handle, and all are refused.
  pub tp_open-Ends :
      (o : Opening W) (client : Bool) (tp : Tp W) (w : W) (calls : List Notice)
      → tp.device.sock ≡ 0
      → last_state calls ≢ tp_connect
      → (((tp_open o client tp).2 ≡ none)
          × ((fd : ℕ) → tp_address fd (tp_open o client tp).1 ≡ none))
        ⊎ (((tp_open o client tp).2 ≡ some 1)
            × (tp_address 1 (tp_open o client tp).1 ≡ some (tp_open o client tp).1)
            × ((tp_open o client tp).1.state ≡ tp_tpless)
            × IsInSync (record { tp = (tp_open o client tp).1; world = w; calls = calls }))
  unfolding tp_open Ends Free
  tp_open-Ends o client tp w calls e n = rw (eq→== tp.device.sock 0 e) (
      if-Ends w calls (failed (opening_code o)) _ _ (inl (refl, sock-Free blank refl)) (
        if-Ends w calls (failed o.mutex) _ _
          (inl
            (refl, sock-Free (record tp { device = record (device_of o 0) { arg = none } }) refl))
          (if-Ends w calls (failed o.event) _ _ (inl (refl, sock-Free blank refl)) (
            if-Ends w calls (failed o.opened) _ _ (inl (refl, sock-Free blank refl))
              (timed-Ends o client tp w calls n)))))
