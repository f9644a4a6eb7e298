-- ===== src/Client/Slots/Tests.antt =====
-- A client with two slots, the first in use.
use denso_ipc.Prelude.{◌≡◌, refl, List, [], ◌∷◌, none, some, arith}
use denso_ipc.Codes.{s_ok, e_fail}
use denso_ipc.Device.{conn_tcp, conn_com}
use denso_ipc.Client.Session.{Connection, retry_of}
use denso_ipc.Client.Slots.{
  Codes, check_address, slot_at, close_client, modify, find_open_address, find_from, open_client,
  open_slot, settle_client, set_timeout,
}
use denso_ipc.Client.Slots.Close.{close_client-check_address}
use denso_ipc.Client.Slots.Refused.{open_client-refused}
use denso_ipc.Client.Slots.Accepted.{new_connection, open_client-accepted}

abbrev two_slots : List Connection
two_slots =
    record { sock = 5; kind = conn_tcp; timeout = 300; retry = 1; serial = 12 }
    ∷ record { sock = 0; kind = 0; timeout = 0; retry = 0; serial = 0 }
    ∷ []

abbrev good_codes : Codes
good_codes = record {
  parsed = s_ok;
  mutex = s_ok;
  opened = s_ok;
  sock = 6;
  locked = s_ok;
  timed = s_ok;
}

abbrev bad_codes : Codes
bad_codes = record {
  parsed = s_ok;
  mutex = s_ok;
  opened = s_ok;
  sock = 6;
  locked = s_ok;
  timed = e_fail;
}

close_client-check_address_example : check_address (close_client two_slots 1).1 1 ≡ none
close_client-check_address_example = close_client-check_address two_slots 0 1

open_client-refused_example :
    check_address (open_client two_slots bad_codes conn_com 300 3).1 2 ≡ check_address two_slots 2
unfolding open_client open_slot settle_client set_timeout find_open_address find_from check_address
    slot_at modify close_client
open_client-refused_example = open_client-refused two_slots bad_codes conn_com 300 3 2 refl

open_client-accepted_example :
    (check_address two_slots 2 ≡ none)
    × ((open_client two_slots good_codes conn_com 300 9).0 ≡ s_ok)
    × ((open_client two_slots good_codes conn_com 300 9).2 ≡ some 2)
    × (check_address (open_client two_slots good_codes conn_com 300 9).1 2
        ≡ some (new_connection good_codes conn_com 300 7))
unfolding find_open_address find_from retry_of
open_client-accepted_example =
    open_client-accepted two_slots good_codes conn_com 300 9 7 2
      (record {
        parsed = refl;
        mutex = refl;
        opened = refl;
        sock = λ e. omega (arith, e);
        locked = refl;
        timed = refl;
      })
      refl (λ e. omega (arith, e))
