-- ===== src/Client/Controller.antt =====
-- library/src/bCAPClient/bcap_client.c: the functions bCap_Controller…, by the numbers of
-- library/include/bcap_funcid.h. The last argument of some says whether the pointer for the result is there.
use denso_ipc.Prelude.{ℕ, Bool, true, Option, some, List, [], ◌∷◌}
use denso_ipc.Outcome.{Outcome}
use denso_ipc.Variant.{Bstr, Variant}
use denso_ipc.Client.{i4, bstr, variant, Call, call, if_given, release}

abbrev pub controller_connect : Bstr → Bstr → Bstr → Bstr → Bool → Outcome Call
controller_connect name provider machine option given =
    if_given given
      (call 3 4 "8,8,8,8:3" (bstr name ∷ bstr provider ∷ bstr machine ∷ bstr option ∷ []))

abbrev pub controller_disconnect : Option ℕ → Outcome Call
controller_disconnect controller = release 4 controller

abbrev pub controller_get_extension : ℕ → Bstr → Bstr → Bool → Outcome Call
controller_get_extension controller name option given =
    if_given given (call 5 3 "3,8,8:3" (i4 controller ∷ bstr name ∷ bstr option ∷ []))

abbrev pub controller_get_file : ℕ → Bstr → Bstr → Bool → Outcome Call
controller_get_file controller name option given =
    if_given given (call 6 3 "3,8,8:3" (i4 controller ∷ bstr name ∷ bstr option ∷ []))

abbrev pub controller_get_robot : ℕ → Bstr → Bstr → Bool → Outcome Call
controller_get_robot controller name option given =
    if_given given (call 7 3 "3,8,8:3" (i4 controller ∷ bstr name ∷ bstr option ∷ []))

abbrev pub controller_get_task : ℕ → Bstr → Bstr → Bool → Outcome Call
controller_get_task controller name option given =
    if_given given (call 8 3 "3,8,8:3" (i4 controller ∷ bstr name ∷ bstr option ∷ []))

abbrev pub controller_get_variable : ℕ → Bstr → Bstr → Bool → Outcome Call
controller_get_variable controller name option given =
    if_given given (call 9 3 "3,8,8:3" (i4 controller ∷ bstr name ∷ bstr option ∷ []))

abbrev pub controller_get_command : ℕ → Bstr → Bstr → Bool → Outcome Call
controller_get_command controller name option given =
    if_given given (call 10 3 "3,8,8:3" (i4 controller ∷ bstr name ∷ bstr option ∷ []))

abbrev pub controller_get_extension_names : ℕ → Bstr → Outcome Call
controller_get_extension_names controller option =
    call 11 2 "3,8:12" (i4 controller ∷ bstr option ∷ [])

abbrev pub controller_get_file_names : ℕ → Bstr → Outcome Call
controller_get_file_names controller option = call 12 2 "3,8:12" (i4 controller ∷ bstr option ∷ [])

abbrev pub controller_get_robot_names : ℕ → Bstr → Outcome Call
controller_get_robot_names controller option = call 13 2 "3,8:12" (i4 controller ∷ bstr option ∷ [])

abbrev pub controller_get_task_names : ℕ → Bstr → Outcome Call
controller_get_task_names controller option = call 14 2 "3,8:12" (i4 controller ∷ bstr option ∷ [])

abbrev pub controller_get_variable_names : ℕ → Bstr → Outcome Call
controller_get_variable_names controller option =
    call 15 2 "3,8:12" (i4 controller ∷ bstr option ∷ [])

abbrev pub controller_get_command_names : ℕ → Bstr → Outcome Call
controller_get_command_names controller option =
    call 16 2 "3,8:12" (i4 controller ∷ bstr option ∷ [])

abbrev pub controller_execute : ℕ → Bstr → Variant → Outcome Call
controller_execute controller command param =
    call 17 3 "3,8,12:12" (i4 controller ∷ bstr command ∷ variant param ∷ [])

abbrev pub controller_get_message : ℕ → Bool → Outcome Call
controller_get_message controller given = if_given given (call 18 1 "3:3" (i4 controller ∷ []))

abbrev pub controller_get_attribute : ℕ → Outcome Call
controller_get_attribute controller = call 19 1 "3:3" (i4 controller ∷ [])

abbrev pub controller_get_help : ℕ → Outcome Call
controller_get_help controller = call 20 1 "3:8" (i4 controller ∷ [])

abbrev pub controller_get_name : ℕ → Outcome Call
controller_get_name controller = call 21 1 "3:8" (i4 controller ∷ [])

abbrev pub controller_get_tag : ℕ → Outcome Call
controller_get_tag controller = call 22 1 "3:12" (i4 controller ∷ [])

abbrev pub controller_put_tag : ℕ → Variant → Outcome Call
controller_put_tag controller new_value = call 23 2 "3,12" (i4 controller ∷ variant new_value ∷ [])

abbrev pub controller_get_id : ℕ → Outcome Call
controller_get_id controller = call 24 1 "3:12" (i4 controller ∷ [])

abbrev pub controller_put_id : ℕ → Variant → Outcome Call
controller_put_id controller new_value = call 25 2 "3,12" (i4 controller ∷ variant new_value ∷ [])

-- Every function of this file, at any arguments: those of a type come from one sequence.
abbrev pub controller_calls : (ℕ → ℕ) → (ℕ → ℕ) → (ℕ → Bstr) → (ℕ → Variant) → List (Outcome Call)
controller_calls n x s v =
    controller_connect (s 0) (s 1) (s 2) (s 3) true
    ∷ controller_disconnect (some (n 0))
    ∷ controller_get_extension (n 0) (s 0) (s 1) true
    ∷ controller_get_file (n 0) (s 0) (s 1) true
    ∷ controller_get_robot (n 0) (s 0) (s 1) true
    ∷ controller_get_task (n 0) (s 0) (s 1) true
    ∷ controller_get_variable (n 0) (s 0) (s 1) true
    ∷ controller_get_command (n 0) (s 0) (s 1) true
    ∷ controller_get_extension_names (n 0) (s 0)
    ∷ controller_get_file_names (n 0) (s 0)
    ∷ controller_get_robot_names (n 0) (s 0)
    ∷ controller_get_task_names (n 0) (s 0)
    ∷ controller_get_variable_names (n 0) (s 0)
    ∷ controller_get_command_names (n 0) (s 0)
    ∷ controller_execute (n 0) (s 0) (v 0)
    ∷ controller_get_message (n 0) true
    ∷ controller_get_attribute (n 0)
    ∷ controller_get_help (n 0)
    ∷ controller_get_name (n 0)
    ∷ controller_get_tag (n 0)
    ∷ controller_put_tag (n 0) (v 0)
    ∷ controller_get_id (n 0)
    ∷ controller_put_id (n 0) (v 0)
    ∷ []
