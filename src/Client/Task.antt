-- ===== src/Client/Task.antt =====
-- library/src/bCAPClient/bcap_client.c: the functions bCap_Task…, by the numbers of
-- library/include/bcap_funcid.h. The last argument of some says whether the pointer for the result is there.
use denso_ipc.Prelude.{ℕ, Bool, true, Option, some, List, [], ◌∷◌}
use denso_ipc.Outcome.{Outcome}
use denso_ipc.Variant.{Bstr, Variant}
use denso_ipc.Client.{i4, bstr, variant, Call, call, if_given, release}

abbrev pub task_get_variable : ℕ → Bstr → Bstr → Bool → Outcome Call
task_get_variable task name option given =
    if_given given (call 85 3 "3,8,8:3" (i4 task ∷ bstr name ∷ bstr option ∷ []))

abbrev pub task_get_variable_names : ℕ → Bstr → Outcome Call
task_get_variable_names task option = call 86 2 "3,8:12" (i4 task ∷ bstr option ∷ [])

abbrev pub task_execute : ℕ → Bstr → Variant → Outcome Call
task_execute task command param =
    call 87 3 "3,8,12:12" (i4 task ∷ bstr command ∷ variant param ∷ [])

abbrev pub task_start : ℕ → ℕ → Bstr → Outcome Call
task_start task mode option = call 88 3 "3,3,8" (i4 task ∷ i4 mode ∷ bstr option ∷ [])

abbrev pub task_stop : ℕ → ℕ → Bstr → Outcome Call
task_stop task mode option = call 89 3 "3,3,8" (i4 task ∷ i4 mode ∷ bstr option ∷ [])

abbrev pub task_delete : ℕ → Bstr → Outcome Call
task_delete task option = call 90 2 "3,8" (i4 task ∷ bstr option ∷ [])

abbrev pub task_get_file_name : ℕ → Outcome Call
task_get_file_name task = call 91 1 "3:8" (i4 task ∷ [])

abbrev pub task_get_attribute : ℕ → Outcome Call
task_get_attribute task = call 92 1 "3:3" (i4 task ∷ [])

abbrev pub task_get_help : ℕ → Outcome Call
task_get_help task = call 93 1 "3:8" (i4 task ∷ [])

abbrev pub task_get_name : ℕ → Outcome Call
task_get_name task = call 94 1 "3:8" (i4 task ∷ [])

abbrev pub task_get_tag : ℕ → Outcome Call
task_get_tag task = call 95 1 "3:12" (i4 task ∷ [])

abbrev pub task_put_tag : ℕ → Variant → Outcome Call
task_put_tag task new_value = call 96 2 "3,12" (i4 task ∷ variant new_value ∷ [])

abbrev pub task_get_id : ℕ → Outcome Call
task_get_id task = call 97 1 "3:12" (i4 task ∷ [])

abbrev pub task_put_id : ℕ → Variant → Outcome Call
task_put_id task new_value = call 98 2 "3,12" (i4 task ∷ variant new_value ∷ [])

abbrev pub task_release : Option ℕ → Outcome Call
task_release task = release 99 task

-- Every function of this file, at any arguments: those of a type come from one sequence.
abbrev pub task_calls : (ℕ → ℕ) → (ℕ → ℕ) → (ℕ → Bstr) → (ℕ → Variant) → List (Outcome Call)
task_calls n x s v =
    task_get_variable (n 0) (s 0) (s 1) true
    ∷ task_get_variable_names (n 0) (s 0)
    ∷ task_execute (n 0) (s 0) (v 0)
    ∷ task_start (n 0) (n 1) (s 0)
    ∷ task_stop (n 0) (n 1) (s 0)
    ∷ task_delete (n 0) (s 0)
    ∷ task_get_file_name (n 0)
    ∷ task_get_attribute (n 0)
    ∷ task_get_help (n 0)
    ∷ task_get_name (n 0)
    ∷ task_get_tag (n 0)
    ∷ task_put_tag (n 0) (v 0)
    ∷ task_get_id (n 0)
    ∷ task_put_id (n 0) (v 0)
    ∷ task_release (some (n 0))
    ∷ []
