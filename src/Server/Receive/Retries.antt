-- ===== src/Server/Receive/Retries.antt =====
-- Repeated requests on a serial line: the client of library/src/bCAPClient/bcap_client.c numbers each attempt
-- anew and keeps the first number in `reserv`, and the server of library/src/bCAPServer/bcap_server.c
-- compares that with the number of its last answer.
use denso_ipc.Prelude.{◌≡◌, Bool, true, false, List, [], ◌∷◌, ◌++◌, some}
use denso_ipc.Outcome.{Outcome, ok, bind}
use denso_ipc.Bcap.Packet.{Packet}
use denso_ipc.Server.{Table, Function, is_function}
use denso_ipc.Server.Mapid.{keep, map_id, entry_of}
use denso_ipc.Server.Receive.{Session, Environment, first_serial, creates, receive_execute}

module _ {ℓ} {W : Type ℓ} (table : Table W) (env : Environment) where
  -- The packets of a line, one after the other: the session, the world and the answers in the end.
  unfoldable pub serve_all : Session → List Packet → W → Outcome (Session × W × List Packet)
  serve_all s [] w = ok (s, w, [])
  serve_all s (q ∷ qs) w =
      bind (receive_execute table env s q w)
        (λ x. bind (serve_all x.session qs x.world) (λ y. ok (y.0, y.1, x.sent ++ y.2)))

  abbrev pub AllRepeats : Session → List Packet → Type 0
  AllRepeats s [] = Unit
  AllRepeats s (q ∷ qs) = (s.last_send.serial ≡ first_serial q) × AllRepeats s qs

  unfoldable pub answer_again : Session → Packet → Packet
  answer_again s q = record s.last_send { serial = q.serial }

  -- Nothing else runs, and no time limit passes while the function does. The number of the request is in the range of
  -- the table, and the application has set a function for it; receive_execute does not test the limit of objects for it,
  -- and the server's table has it keep the objects.
  pub record Runs (q : Packet) (f : Function W) : Type ℓ where
    pub idle : env.busy ≡ false
    pub quick : env.timeouts ≡ []
    pub plain : creates q.id ≡ false
    pub kept : (b : Bool) × (entry_of map_id q.id ≡ some (keep, b))
    pub known : is_function q.id ≡ true
    pub found : table q.id ≡ some f
