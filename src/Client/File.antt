-- ===== src/Client/File.antt =====
-- library/src/bCAPClient/bcap_client.c: the functions bCap_File…, by the numbers of
-- library/include/bcap_funcid.h. The last argument of some says whether the pointer for the result is there.
use denso_ipc.Prelude.{ℕ, Bool, true, Option, some, List, [], ◌∷◌}
use denso_ipc.Outcome.{Outcome}
use denso_ipc.Variant.{Bstr, Variant}
use denso_ipc.Client.{i4, bstr, variant, Call, call, if_given, release}

abbrev pub file_get_file : ℕ → Bstr → Bstr → Bool → Outcome Call
file_get_file file name option given =
    if_given given (call 37 3 "3,8,8:3" (i4 file ∷ bstr name ∷ bstr option ∷ []))

abbrev pub file_get_variable : ℕ → Bstr → Bstr → Bool → Outcome Call
file_get_variable file name option given =
    if_given given (call 38 3 "3,8,8:3" (i4 file ∷ bstr name ∷ bstr option ∷ []))

abbrev pub file_get_file_names : ℕ → Bstr → Outcome Call
file_get_file_names file option = call 39 2 "3,8:12" (i4 file ∷ bstr option ∷ [])

abbrev pub file_get_variable_names : ℕ → Bstr → Outcome Call
file_get_variable_names file option = call 40 2 "3,8:12" (i4 file ∷ bstr option ∷ [])

abbrev pub file_execute : ℕ → Bstr → Variant → Outcome Call
file_execute file command param =
    call 41 3 "3,8,12:12" (i4 file ∷ bstr command ∷ variant param ∷ [])

abbrev pub file_copy : ℕ → Bstr → Bstr → Outcome Call
file_copy file name option = call 42 3 "3,8,8" (i4 file ∷ bstr name ∷ bstr option ∷ [])

abbrev pub file_delete : ℕ → Bstr → Outcome Call
file_delete file option = call 43 2 "3,8" (i4 file ∷ bstr option ∷ [])

abbrev pub file_move : ℕ → Bstr → Bstr → Outcome Call
file_move file name option = call 44 3 "3,8,8" (i4 file ∷ bstr name ∷ bstr option ∷ [])

abbrev pub file_run : ℕ → Bstr → Outcome Call
file_run file option = call 45 2 "3,8:8" (i4 file ∷ bstr option ∷ [])

abbrev pub file_get_date_created : ℕ → Outcome Call
file_get_date_created file = call 46 1 "3:12" (i4 file ∷ [])

abbrev pub file_get_date_last_accessed : ℕ → Outcome Call
file_get_date_last_accessed file = call 47 1 "3:12" (i4 file ∷ [])

abbrev pub file_get_date_last_modified : ℕ → Outcome Call
file_get_date_last_modified file = call 48 1 "3:12" (i4 file ∷ [])

abbrev pub file_get_path : ℕ → Outcome Call
file_get_path file = call 49 1 "3:8" (i4 file ∷ [])

abbrev pub file_get_size : ℕ → Outcome Call
file_get_size file = call 50 1 "3:3" (i4 file ∷ [])

abbrev pub file_get_type : ℕ → Outcome Call
file_get_type file = call 51 1 "3:8" (i4 file ∷ [])

abbrev pub file_get_value : ℕ → Outcome Call
file_get_value file = call 52 1 "3:12" (i4 file ∷ [])

abbrev pub file_put_value : ℕ → Variant → Outcome Call
file_put_value file new_value = call 53 2 "3,12" (i4 file ∷ variant new_value ∷ [])

abbrev pub file_get_attribute : ℕ → Outcome Call
file_get_attribute file = call 54 1 "3:3" (i4 file ∷ [])

abbrev pub file_get_help : ℕ → Outcome Call
file_get_help file = call 55 1 "3:8" (i4 file ∷ [])

abbrev pub file_get_name : ℕ → Outcome Call
file_get_name file = call 56 1 "3:8" (i4 file ∷ [])

abbrev pub file_get_tag : ℕ → Outcome Call
file_get_tag file = call 57 1 "3:12" (i4 file ∷ [])

abbrev pub file_put_tag : ℕ → Variant → Outcome Call
file_put_tag file new_value = call 58 2 "3,12" (i4 file ∷ variant new_value ∷ [])

abbrev pub file_get_id : ℕ → Outcome Call
file_get_id file = call 59 1 "3:12" (i4 file ∷ [])

abbrev pub file_put_id : ℕ → Variant → Outcome Call
file_put_id file new_value = call 60 2 "3,12" (i4 file ∷ variant new_value ∷ [])

abbrev pub file_release : Option ℕ → Outcome Call
file_release file = release 61 file

-- Every function of this file, at any arguments: those of a type come from one sequence.
abbrev pub file_calls : (ℕ → ℕ) → (ℕ → ℕ) → (ℕ → Bstr) → (ℕ → Variant) → List (Outcome Call)
file_calls n x s v =
    file_get_file (n 0) (s 0) (s 1) true
    ∷ file_get_variable (n 0) (s 0) (s 1) true
    ∷ file_get_file_names (n 0) (s 0)
    ∷ file_get_variable_names (n 0) (s 0)
    ∷ file_execute (n 0) (s 0) (v 0)
    ∷ file_copy (n 0) (s 0) (s 1)
    ∷ file_delete (n 0) (s 0)
    ∷ file_move (n 0) (s 0) (s 1)
    ∷ file_run (n 0) (s 0)
    ∷ file_get_date_created (n 0)
    ∷ file_get_date_last_accessed (n 0)
    ∷ file_get_date_last_modified (n 0)
    ∷ file_get_path (n 0)
    ∷ file_get_size (n 0)
    ∷ file_get_type (n 0)
    ∷ file_get_value (n 0)
    ∷ file_put_value (n 0) (v 0)
    ∷ file_get_attribute (n 0)
    ∷ file_get_help (n 0)
    ∷ file_get_name (n 0)
    ∷ file_get_tag (n 0)
    ∷ file_put_tag (n 0) (v 0)
    ∷ file_get_id (n 0)
    ∷ file_put_id (n 0) (v 0)
    ∷ file_release (some (n 0))
    ∷ []
