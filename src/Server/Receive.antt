-- ===== src/Server/Receive.antt =====
-- receive_execute of library/src/bCAPServer/bcap_server.c on TCP and on a serial line, from a received
-- packet on. The thread that runs the function is taken as done when its event is waited for.
pub mod Retries
pub mod Invariant
pub mod Limit
use denso_ipc.Prelude.{
  ℕ, zero, suc, ◌+◌, ◌-◌, ◌==◌, ltb, leb, ◌&&◌, ◌||◌, if◌then◌else◌, Bool, true, false, List, [],
  ◌∷◌, ◌++◌, Option, none, some,
}
use denso_ipc.Outcome.{Outcome, ok, fault, bind}
use denso_ipc.Codes.{failed, s_ok, s_false, s_executing, e_timeout, e_max_object}
use denso_ipc.Device.{conn_com}
use denso_ipc.Variant.{Variant, Variants, nil, cons}
use denso_ipc.Bcap.Packet.{Packet}
use denso_ipc.Server.{Table, callfunc, is_function}
use denso_ipc.Server.Mapid.{Relation, keep, pop, push, map_id, entry_of}
use denso_ipc.Server.Objects.{Objects, Object, object_max, push_vector, release_object}

-- The part of CONN_BCAP_SERVER that receive_execute works on.
pub record Session : Type 0 where
  pub kind : ℕ
  pub last_send : Packet
  pub exec_timeout : ℕ
  pub wdt_interval : ℕ
  pub objects : Objects

-- What the parser of the options of ServiceStart makes of the arguments: a refusal, with the watchdog interval
-- if that was set before, or both intervals and the code of the last lookup.
pub data Options : Type 0 where
  refused : ℕ → Option ℕ → Options
  intervals : ℕ → ℕ → ℕ → Options

-- The environment of a call: whether a function still runs, the code of each bcap_send, the parser of options, the
-- first 32 bits of a VARIANT's value, for each timeout of the watchdog before the function is done the milliseconds since the
-- start, and whether there is memory for a VEC_OBJECT.
pub record Environment : Type 0 where
  pub busy : Bool
  pub busy_code : ℕ
  pub send : Packet → ℕ
  pub options : Packet → Options
  pub long_of : Variant → ℕ
  pub timeouts : List ℕ
  pub room : Bool

-- What a call leaves: the code, the session, the application's world, and the packets sent.
pub record Served {ℓ} (W : Type ℓ) : Type ℓ where
  pub hr : ℕ
  pub session : Session
  pub world : W
  pub sent : List Packet

-- `tmp_recv_packet.reserv` on a serial line.
abbrev pub first_serial : Packet → ℕ
first_serial recv = if recv.reserv == 0 then recv.serial else recv.reserv

-- If already responded, then does not execute.
unfoldable pub is_repeat : Session → Packet → Bool
is_repeat s recv = (s.kind == conn_com) && (s.last_send.serial == first_serial recv)

-- The temporary packet with a code.
abbrev pub status : Packet → ℕ → Packet
status recv code = record { serial = recv.serial; reserv = 0; id = code; argc = 0; args = nil }

-- The functions that create an object.
unfoldable pub creates : ℕ → Bool
creates id =
    (id == 1)
    || ((id == 3)
        || ((id == 5)
            || ((id == 6)
                || ((id == 37)
                    || ((id == 7)
                        || ((id == 8)
                            || ((id == 9)
                                || ((id == 26)
                                    || ((id == 38)
                                        || ((id == 62)
                                            || ((id == 85) || ((id == 10) || (id == 18)))))))))))))

abbrev first : Variants → Option Variant
first nil = none
first (cons v vs) = some v

-- `args[0].lVal`
abbrev long_at : (Variant → ℕ) → Option Variant → Outcome ℕ
long_at long_of none = fault
long_at long_of (some v) = ok (long_of v)

-- The objects after a function that returned S_OK.
unfoldable pub track : Environment → Relation → Packet → Packet → Objects → Outcome Objects
track env keep recv reply v = ok v
track env (push r) recv reply v =
    if env.room
    then (if recv.id == 1
        then ok (push_vector v (record { id = r; h_obj = 0 })).1
        else bind (long_at env.long_of (first reply.args))
            (λ h. ok (push_vector v (record { id = r; h_obj = h })).1))
    else ok v
track env pop recv reply v =
    if recv.id == 2
    then ok (release_object recv.id 0 v)
    else bind (long_at env.long_of (first recv.args)) (λ h. ok (release_object recv.id h v))

-- `m_map_id[recv_packet->id]`, `fault` outside the table.
unfoldable pub track_entry :
    Environment → Option (Relation × Bool) → Packet → Packet → Objects → Outcome Objects
track_entry env none recv reply v = fault
track_entry env (some e) recv reply v = track env e.0 recv reply v

-- The wait for the function: the code, and the S_EXECUTING packets sent meanwhile.
unfoldable pub wait_done : Environment → ℕ → Packet → List ℕ → ℕ × List Packet
wait_done env exec_timeout note [] = (s_ok, [])
wait_done env exec_timeout note (diff ∷ later) =
    let rest = wait_done env exec_timeout note later in
    if failed (env.send note)
    then (env.send note, note ∷ [])
    else if ltb exec_timeout diff
    then (e_timeout, note ∷ [])
    else (rest.0, note ∷ rest.1)

module _ {ℓ} {W : Type ℓ} (table : Table W) (env : Environment) where
  -- Behind the label exit_proc, with S_OK.
  unfoldable pub respond : Session → Packet → W → List Packet → Outcome (Served W)
  respond s recv w sent =
      bind
        (if s.last_send.id == s_ok
          then track_entry env (entry_of map_id recv.id) recv s.last_send s.objects
          else ok s.objects)
        (λ v. ok (record {
          hr = env.send s.last_send;
          session = record s { objects = v };
          world = w;
          sent = sent ++ (s.last_send ∷ []);
        }))

  -- From `Copies to last receive packet` on, with the code so far.
  unfoldable pub execute : ℕ → Session → Packet → W → Outcome (Served W)
  execute hr s recv w =
      let done = callfunc table recv s.last_send w in
      let s' = record s { last_send = done.0 } in
      let waited = wait_done env s.exec_timeout (status recv s_executing) env.timeouts in
      if failed hr
      then ok (record { hr = hr; session = s'; world = done.1; sent = [] })
      else if waited.0 == s_ok
      then respond s' recv done.1 waited.1
      else ok (record { hr = waited.0; session = s'; world = done.1; sent = waited.1 })

  abbrev pub stop : ℕ → Session → W → Packet → Outcome (Served W)
  stop hr s w packet = ok (record { hr = hr; session = s; world = w; sent = packet ∷ [] })

  unfoldable pub start : Options → Session → Packet → W → Outcome (Served W)
  start (refused code none) s recv w = stop s_false s w (status recv code)
  start (refused code (some wdt)) s recv w =
      stop s_false (record s { wdt_interval = wdt }) w (status recv code)
  start (intervals wdt exec hr) s recv w =
      execute hr (record s { wdt_interval = wdt; exec_timeout = exec }) recv w

  unfoldable pub receive_execute : Session → Packet → W → Outcome (Served W)
  receive_execute s recv w =
      if is_repeat s recv
      then stop s_false s w (record s.last_send { serial = recv.serial })
      else if env.busy
      then stop e_timeout s w (status recv env.busy_code)
      else if creates recv.id && leb object_max s.objects.num_object
      then stop s_false s w (status recv e_max_object)
      else if recv.id == 1
      then start (env.options recv) s recv w
      else execute s_ok s recv w
