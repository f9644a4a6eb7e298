-- ===== src/Server/Tests.antt =====
-- A server on a serial line with one function, ControllerGetFileNames, that counts its calls, and a list of objects.
use denso_ipc.Prelude.{
  ℕ, ◌+◌, ◌==◌, ◌≡◌, refl, true, false, if◌then◌else◌, [], ◌∷◌, none, some, arith,
}
use denso_ipc.Outcome.{ok}
use denso_ipc.Codes.{s_ok}
use denso_ipc.Device.{conn_com}
use denso_ipc.Variant.{scalar, nil, cons}
use denso_ipc.Bcap.Packet.{Packet}
use denso_ipc.Server.{Function, Table, run_function, callfunc}
use denso_ipc.Server.Mapid.{push, map_id, entry_of}
use denso_ipc.Server.Objects.{
  Objects, push_vector, IsCounted, release_object, erase, release_object-erase,
}
use denso_ipc.Server.Receive.{
  Session, intervals, Environment, creates, Served, receive_execute, execute, respond, is_repeat,
  wait_done, track_entry, track,
}
use denso_ipc.Server.Receive.Invariant.{receive_execute-IsCounted}

file_entry : entry_of map_id 6 ≡ some (push 61, true)
unfolding map_id entry_of
file_entry = refl

abbrev two_objects : Objects
two_objects = record {
  num_object = 2;
  stack = record { id = 61; h_obj = 5 } ∷ record { id = 4; h_obj = 9 } ∷ [];
}

two_objects-IsCounted : IsCounted two_objects
two_objects-IsCounted = record { counted = refl; bounded = omega arith }

release_object-erase_example :
    ((release_object 4 9 two_objects).stack ≡ erase 4 9 two_objects.stack)
    × IsCounted (release_object 4 9 two_objects)
release_object-erase_example = release_object-erase 4 9 two_objects two_objects-IsCounted

abbrev count_calls : Function ℕ
count_calls args argc w = ((s_ok, scalar 3 w), w + 1)

abbrev counting : Table ℕ
counting id = if id == 11 then some count_calls else none

abbrev calm : Environment
calm = record {
  busy = false;
  busy_code = 0;
  send = λ p. s_ok;
  options = λ p. intervals 80 180000 s_ok;
  long_of = λ v. 0;
  timeouts = [];
  room = true;
}

abbrev request : Packet
request = record { serial = 0; reserv = 7; id = 11; argc = 1; args = cons (scalar 3 8) nil }

abbrev session : Session
session = record {
  kind = conn_com;
  last_send = record { serial = 0; reserv = 0; id = 0; argc = 0; args = nil };
  exec_timeout = 180000;
  wdt_interval = 80;
  objects = two_objects;
}

abbrev opening : Table ℕ
opening id = if id == 6 then some count_calls else none

abbrev file_request : Packet
file_request = record { serial = 9; reserv = 9; id = 6; argc = 3; args = cons (scalar 3 8) nil }

abbrev file_answer : Packet
file_answer = record { serial = 9; reserv = 0; id = 0; argc = 1; args = cons (scalar 3 40) nil }

abbrev file_served : Served ℕ
file_served = record {
  hr = s_ok;
  session = record session {
    last_send = file_answer;
    objects = record { num_object = 3; stack = record { id = 61; h_obj = 0 } ∷ two_objects.stack };
  };
  world = 41;
  sent = file_answer ∷ [];
}

file_is_served : receive_execute opening calm session file_request 40 ≡ ok file_served
unfolding receive_execute execute respond is_repeat creates callfunc run_function wait_done
    track_entry track map_id entry_of push_vector
file_is_served = refl

receive_execute-IsCounted_example : IsCounted file_served.session.objects
receive_execute-IsCounted_example =
    receive_execute-IsCounted opening calm session file_request 40 file_served two_objects-IsCounted
      file_is_served
