-- ===== src/Tpcomm/Serial/Tests.antt =====
-- A pendant on a serial line.
use denso_ipc.Prelude.{ℕ, ◌≡◌, refl, true, false, List, [], ◌∷◌, none, some, replicate, arith}
use denso_ipc.Outcome.{Outcome, ok, e_timeout}
use denso_ipc.Device.{SendArg}
use denso_ipc.Tpcomm.{Tp, lost, Line, tp_connect}
use denso_ipc.Robotalk.{to_be, sum_bytes}
use denso_ipc.Tpcomm.Link.{tp_recv}
use denso_ipc.Device.{is_closed}
use denso_ipc.Prelude.{map, length-replicate}
use denso_ipc.Device.{conn_com}
use denso_ipc.Bcap.Receive.Serial.{Read, read}
use denso_ipc.Bcap.Receive.Serial.Chunks.{joined}
use denso_ipc.Robotalk.Frame.{rtk_frame, fields}
use denso_ipc.Tpcomm.Serial.{serial_recv, tp_recv-rtk_frame}
use denso_ipc.Tpcomm.Link.{got}

-- A serial line, with the reads of the driver in the world, and a key in two pieces.
abbrev keep_serial :
    (List Read × List (List ℕ)) → ℕ → List ℕ → SendArg → Outcome (List Read × List (List ℕ))
keep_serial w sock buf parg = ok (w.0, buf ∷ w.1)

abbrev serial : Tp (List Read × List (List ℕ))
serial = record {
  device = record {
    sock = 3;
    kind = conn_com;
    arg = none;
    dn_send = some keep_serial;
    dn_open = true;
    dn_close = true;
    dn_recv = true;
    dn_set_timeout = true;
    dn_clear = true;
  };
  client = false;
  init = true;
  state = tp_connect;
  cts = true;
  from_id = 1;
  to_id = 2;
  ping_clock = 0;
  init_clock = 0;
  check_clock = 0;
  last_packet = replicate 256 0;
}

abbrev cable : Line (List Read × List (List ℕ))
cable = record {
  heap = replicate 256 9;
  malloc = λ n. true;
  modem = λ w. true;
  dn_clear = λ w. w;
  rtk_recv = λ device client retry w. ok (lost e_timeout, device, w);
  sent_at = λ command. 7;
  now = 7;
}

abbrev key_pieces : List (List ℕ)
key_pieces = (5 ∷ 2 ∷ 0x0C ∷ []) ∷ (0x28 ∷ 2 ∷ 1 ∷ 0 ∷ 10 ∷ 0x00 ∷ 0x48 ∷ []) ∷ []

tp_recv-rtk_frame_example :
    (later : List Read) × (tp_recv
        (record cable { rtk_recv = serial_recv (λ n. true) (λ n. replicate n 0) (replicate 256 9) })
        serial
        (map read key_pieces, [])
      ≡ ok (got 0x0C28 (0 ∷ 10 ∷ []), record serial { cts = true; to_id = 2 }, (later, [])))
unfolding is_closed joined rtk_frame fields sum_bytes to_be
tp_recv-rtk_frame_example =
    tp_recv-rtk_frame (λ n. true) (λ n. replicate n 0) (replicate 256 9)
      (length-replicate {A = ℕ} 256 9) 0x0C28 (0 ∷ 10 ∷ []) 2 1 (omega arith) (omega arith) cable
      serial keep_serial key_pieces [] refl refl refl refl refl refl (omega arith) refl
