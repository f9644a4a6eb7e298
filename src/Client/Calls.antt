-- ===== src/Client/Calls.antt =====
-- All functions of library/src/bCAPClient/bcap_client.c that call invoke_function: they
-- agree with their prototypes, and their formats with the table of the server.
use denso_ipc.Prelude.{
  if◌then◌else◌, ℕ, ◌≡◌, refl, Bool, true, false, List, [], ◌∷◌, ◌++◌, map, subst, sym, Option,
  none, some, length,
}
use denso_ipc.Outcome.{Outcome, bind, ok}
use denso_ipc.Variant.{Variant, scalar, string, Variants, nil, cons, Bstr, vt_i4, vt_r4}
use denso_ipc.Bcap.Packet.{Packet}
use denso_ipc.Client.{
  Arg, i4, r4, bstr, variant, Call, cut_at, digits_from, atoi, take_arg, set_args, result_of, build,
}
use denso_ipc.Client.Prototypes.{prototypes}
use denso_ipc.Client.Service.{service_calls}
use denso_ipc.Client.Controller.{controller_calls}
use denso_ipc.Client.Extension.{extension_calls}
use denso_ipc.Client.File.{file_calls}
use denso_ipc.Client.Robot.{robot_calls}
use denso_ipc.Client.Task.{task_calls}
use denso_ipc.Client.Variable.{variable_calls}
use denso_ipc.Client.Command.{command_calls}
use denso_ipc.Client.Message.{message_calls}
use denso_ipc.Device.{is_some}
use mathlib.Core.Path.{fun_ext}
use mathlib.Core.Option
use denso_ipc.Server.Mapid.{map_id, entry_of}

abbrev pub all_calls : (ℕ → ℕ) → (ℕ → ℕ) → (ℕ → Bstr) → (ℕ → Variant) → List (Outcome Call)
all_calls n x s v =
    service_calls n x s v
    ++ (controller_calls n x s v
        ++ (extension_calls n x s v
            ++ (file_calls n x s v
                ++ (robot_calls n x s v
                    ++ (task_calls n x s v
                        ++ (variable_calls n x s v
                            ++ (command_calls n x s v ++ message_calls n x s v)))))))

-- The VARIANT that an argument stands for.
unfoldable pub value_of : Arg → Variant
value_of (i4 n) = scalar vt_i4 n
value_of (r4 n) = scalar vt_r4 n
value_of (bstr s) = string s
value_of (variant v) = v

unfoldable pub values_of : List Arg → Variants
values_of [] = nil
values_of (a ∷ later) = cons (value_of a) (values_of later)

-- The packet for a prototype: its number, and its arguments in order.
unfoldable pub packet_of : ℕ × List Arg → Outcome Packet
packet_of p =
    ok (record { serial = 0; reserv = 0; id = p.0; argc = length p.1; args = values_of p.1 })

-- For every function of the client, at any arguments, and a pointer for the result where the function
-- wants one: with enough memory, invoke_function builds the packet with the number of the function in
-- bcap_funcid.h and the arguments that the prototype in bcap_client.h passes in, in the order of the prototype.
pub build-all_calls :
    (malloc : ℕ → Bool)
    → ((k : ℕ) → malloc k ≡ true)
    → (n x : ℕ → ℕ) (s : ℕ → Bstr) (v : ℕ → Variant)
    → map (λ c. bind c (build malloc)) (all_calls n x s v) ≡ map packet_of (prototypes n x s v)
unfolding packet_of build set_args take_arg cut_at atoi digits_from values_of value_of
build-all_calls malloc ample n x s v =
    subst
      (λ m. map (λ c. bind c (build m)) (all_calls n x s v) ≡ map packet_of (prototypes n x s v))
      (sym (fun_ext ample)) refl

-- Whether the format has a part for a result, and whether the server answers with a value.
unfoldable pub expects : Outcome Call → Option Bool
expects (ok c) = some (is_some (result_of c))
expects _ = none

unfoldable pub answers : Outcome Call → Option Bool
answers (ok c) = Option.map (λ e. e.1) (entry_of map_id c.id)
answers _ = none

unfoldable pub same_answer : Option Bool → Option Bool → Bool
same_answer (some true) (some true) = true
same_answer (some false) (some false) = true
same_answer _ _ = false

unfoldable pub number_of : Outcome Call → ℕ
number_of (ok c) = c.id
number_of _ = 0

-- The numbers of the calls for which client and server disagree on a result.
unfoldable pub disagreeing : List (Outcome Call) → List ℕ
disagreeing [] = []
disagreeing (c ∷ cs) =
    let later = disagreeing cs in
    if same_answer (expects c) (answers c) then later else number_of c ∷ later

-- At any arguments, the format of a function of the client has a part for a result exactly if the
-- server's table has it answer with a value, with two exceptions: CommandExecute (112), whose
-- result the server does not send, and CommandPutTag (124), which it answers with one.
pub disagreeing-all_calls :
    (n x : ℕ → ℕ) (s : ℕ → Bstr) (v : ℕ → Variant)
    → disagreeing (all_calls n x s v) ≡ 112 ∷ 124 ∷ []
unfolding disagreeing expects answers same_answer number_of map_id entry_of cut_at
disagreeing-all_calls n x s v = refl
