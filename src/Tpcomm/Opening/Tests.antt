-- ===== src/Tpcomm/Opening/Tests.antt =====
-- An opening on a UDP port.
use denso_ipc.Prelude.{ℕ, ◌≡◌, ◌⊎◌, refl, true, List, [], some, none, arith}
use denso_ipc.Codes.{s_ok}
use denso_ipc.Device.{conn_udp}
use denso_ipc.Tpcomm.{tp_tpless}
use denso_ipc.Tpcomm.Requests.{tp_address}
use denso_ipc.Tpcomm.Sync.{IsInSync, last_state}
use denso_ipc.Tpcomm.Tests.{port}
use denso_ipc.Tpcomm.Opening.{Opening, blank, tp_open, tp_open-Ends}

abbrev opening : Opening (List (List ℕ))
opening = record {
  kind = conn_udp;
  parsed = s_ok;
  mutex = s_ok;
  event = s_ok;
  opened = s_ok;
  sock = 3;
  timed = s_ok;
  clock = 100;
  device = port;
}

opened_handle : (tp_open opening true blank).2 ≡ some 1
unfolding tp_open
opened_handle = refl

tp_open-Ends_example :
    (((tp_open opening true blank).2 ≡ none)
      × ((fd : ℕ) → tp_address fd (tp_open opening true blank).1 ≡ none))
    ⊎ (((tp_open opening true blank).2 ≡ some 1)
        × (tp_address 1 (tp_open opening true blank).1 ≡ some (tp_open opening true blank).1)
        × ((tp_open opening true blank).1.state ≡ tp_tpless)
        × IsInSync (record { tp = (tp_open opening true blank).1; world = []; calls = [] }))
unfolding last_state
tp_open-Ends_example = tp_open-Ends opening true blank [] [] refl (omega arith)
