-- ===== src/Client/Command.antt =====
-- library/src/bCAPClient/bcap_client.c: the functions bCap_Command…, by the numbers of
-- library/include/bcap_funcid.h. The last argument of some says whether the pointer for the result is there.
use denso_ipc.Prelude.{ℕ, Option, some, List, [], ◌∷◌}
use denso_ipc.Outcome.{Outcome}
use denso_ipc.Variant.{Bstr, Variant}
use denso_ipc.Client.{i4, variant, Call, call, release}

abbrev pub command_execute : ℕ → ℕ → Outcome Call
command_execute command mode = call 112 2 "3,3:12" (i4 command ∷ i4 mode ∷ [])

abbrev pub command_cancel : ℕ → Outcome Call
command_cancel command = call 113 1 "3" (i4 command ∷ [])

abbrev pub command_get_timeout : ℕ → Outcome Call
command_get_timeout command = call 114 1 "3:3" (i4 command ∷ [])

abbrev pub command_put_timeout : ℕ → ℕ → Outcome Call
command_put_timeout command new_value = call 115 2 "3,3" (i4 command ∷ i4 new_value ∷ [])

abbrev pub command_get_state : ℕ → Outcome Call
command_get_state command = call 116 1 "3:3" (i4 command ∷ [])

abbrev pub command_get_parameters : ℕ → Outcome Call
command_get_parameters command = call 117 1 "3:12" (i4 command ∷ [])

abbrev pub command_put_parameters : ℕ → Variant → Outcome Call
command_put_parameters command new_value = call 118 2 "3,12" (i4 command ∷ variant new_value ∷ [])

abbrev pub command_get_result : ℕ → Outcome Call
command_get_result command = call 119 1 "3:12" (i4 command ∷ [])

abbrev pub command_get_attribute : ℕ → Outcome Call
command_get_attribute command = call 120 1 "3:3" (i4 command ∷ [])

abbrev pub command_get_help : ℕ → Outcome Call
command_get_help command = call 121 1 "3:8" (i4 command ∷ [])

abbrev pub command_get_name : ℕ → Outcome Call
command_get_name command = call 122 1 "3:8" (i4 command ∷ [])

abbrev pub command_get_tag : ℕ → Outcome Call
command_get_tag command = call 123 1 "3:12" (i4 command ∷ [])

abbrev pub command_put_tag : ℕ → Variant → Outcome Call
command_put_tag command new_value = call 124 2 "3,12" (i4 command ∷ variant new_value ∷ [])

abbrev pub command_get_id : ℕ → Outcome Call
command_get_id command = call 125 1 "3:12" (i4 command ∷ [])

abbrev pub command_put_id : ℕ → Variant → Outcome Call
command_put_id command new_value = call 126 2 "3,12" (i4 command ∷ variant new_value ∷ [])

abbrev pub command_release : Option ℕ → Outcome Call
command_release command = release 127 command

-- Every function of this file, at any arguments: those of a type come from one sequence.
abbrev pub command_calls : (ℕ → ℕ) → (ℕ → ℕ) → (ℕ → Bstr) → (ℕ → Variant) → List (Outcome Call)
command_calls n x s v =
    command_execute (n 0) (n 1)
    ∷ command_cancel (n 0)
    ∷ command_get_timeout (n 0)
    ∷ command_put_timeout (n 0) (n 1)
    ∷ command_get_state (n 0)
    ∷ command_get_parameters (n 0)
    ∷ command_put_parameters (n 0) (v 0)
    ∷ command_get_result (n 0)
    ∷ command_get_attribute (n 0)
    ∷ command_get_help (n 0)
    ∷ command_get_name (n 0)
    ∷ command_get_tag (n 0)
    ∷ command_put_tag (n 0) (v 0)
    ∷ command_get_id (n 0)
    ∷ command_put_id (n 0) (v 0)
    ∷ command_release (some (n 0))
    ∷ []
