-- ===== src/Client/Extension.antt =====
-- library/src/bCAPClient/bcap_client.c: the functions bCap_Extension…, by the numbers of
-- library/include/bcap_funcid.h. The last argument of some says whether the pointer for the result is there.
use denso_ipc.Prelude.{ℕ, Bool, true, Option, some, List, [], ◌∷◌}
use denso_ipc.Outcome.{Outcome}
use denso_ipc.Variant.{Bstr, Variant}
use denso_ipc.Client.{i4, bstr, variant, Call, call, if_given, release}

abbrev pub extension_get_variable : ℕ → Bstr → Bstr → Bool → Outcome Call
extension_get_variable extension name option given =
    if_given given (call 26 3 "3,8,8:3" (i4 extension ∷ bstr name ∷ bstr option ∷ []))

abbrev pub extension_get_variable_names : ℕ → Bstr → Outcome Call
extension_get_variable_names extension option = call 27 2 "3,8:12" (i4 extension ∷ bstr option ∷ [])

abbrev pub extension_execute : ℕ → Bstr → Variant → Outcome Call
extension_execute extension command param =
    call 28 3 "3,8,12:12" (i4 extension ∷ bstr command ∷ variant param ∷ [])

abbrev pub extension_get_attribute : ℕ → Outcome Call
extension_get_attribute extension = call 29 1 "3:3" (i4 extension ∷ [])

abbrev pub extension_get_help : ℕ → Outcome Call
extension_get_help extension = call 30 1 "3:8" (i4 extension ∷ [])

abbrev pub extension_get_name : ℕ → Outcome Call
extension_get_name extension = call 31 1 "3:8" (i4 extension ∷ [])

abbrev pub extension_get_tag : ℕ → Outcome Call
extension_get_tag extension = call 32 1 "3:12" (i4 extension ∷ [])

abbrev pub extension_put_tag : ℕ → Variant → Outcome Call
extension_put_tag extension new_value = call 33 2 "3,12" (i4 extension ∷ variant new_value ∷ [])

abbrev pub extension_get_id : ℕ → Outcome Call
extension_get_id extension = call 34 1 "3:12" (i4 extension ∷ [])

abbrev pub extension_put_id : ℕ → Variant → Outcome Call
extension_put_id extension new_value = call 35 2 "3,12" (i4 extension ∷ variant new_value ∷ [])

abbrev pub extension_release : Option ℕ → Outcome Call
extension_release extension = release 36 extension

-- Every function of this file, at any arguments: those of a type come from one sequence.
abbrev pub extension_calls : (ℕ → ℕ) → (ℕ → ℕ) → (ℕ → Bstr) → (ℕ → Variant) → List (Outcome Call)
extension_calls n x s v =
    extension_get_variable (n 0) (s 0) (s 1) true
    ∷ extension_get_variable_names (n 0) (s 0)
    ∷ extension_execute (n 0) (s 0) (v 0)
    ∷ extension_get_attribute (n 0)
    ∷ extension_get_help (n 0)
    ∷ extension_get_name (n 0)
    ∷ extension_get_tag (n 0)
    ∷ extension_put_tag (n 0) (v 0)
    ∷ extension_get_id (n 0)
    ∷ extension_put_id (n 0) (v 0)
    ∷ extension_release (some (n 0))
    ∷ []
