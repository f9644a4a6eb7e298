-- ===== src/Client/Variable.antt =====
-- library/src/bCAPClient/bcap_client.c: the functions bCap_Variable…, by the numbers of
-- library/include/bcap_funcid.h. The last argument of some says whether the pointer for the result is there.
use denso_ipc.Prelude.{ℕ, Option, some, List, [], ◌∷◌}
use denso_ipc.Outcome.{Outcome}
use denso_ipc.Variant.{Bstr, Variant}
use denso_ipc.Client.{i4, variant, Call, call, release}

abbrev pub variable_get_date_time : ℕ → Outcome Call
variable_get_date_time variable = call 100 1 "3:12" (i4 variable ∷ [])

abbrev pub variable_get_value : ℕ → Outcome Call
variable_get_value variable = call 101 1 "3:12" (i4 variable ∷ [])

abbrev pub variable_put_value : ℕ → Variant → Outcome Call
variable_put_value variable new_value = call 102 2 "3,12" (i4 variable ∷ variant new_value ∷ [])

abbrev pub variable_get_attribute : ℕ → Outcome Call
variable_get_attribute variable = call 103 1 "3:3" (i4 variable ∷ [])

abbrev pub variable_get_help : ℕ → Outcome Call
variable_get_help variable = call 104 1 "3:8" (i4 variable ∷ [])

abbrev pub variable_get_name : ℕ → Outcome Call
variable_get_name variable = call 105 1 "3:8" (i4 variable ∷ [])

abbrev pub variable_get_tag : ℕ → Outcome Call
variable_get_tag variable = call 106 1 "3:12" (i4 variable ∷ [])

abbrev pub variable_put_tag : ℕ → Variant → Outcome Call
variable_put_tag variable new_value = call 107 2 "3,12" (i4 variable ∷ variant new_value ∷ [])

abbrev pub variable_get_id : ℕ → Outcome Call
variable_get_id variable = call 108 1 "3:12" (i4 variable ∷ [])

abbrev pub variable_put_id : ℕ → Variant → Outcome Call
variable_put_id variable new_value = call 109 2 "3,12" (i4 variable ∷ variant new_value ∷ [])

abbrev pub variable_get_microsecond : ℕ → Outcome Call
variable_get_microsecond variable = call 110 1 "3:3" (i4 variable ∷ [])

abbrev pub variable_release : Option ℕ → Outcome Call
variable_release variable = release 111 variable

-- Every function of this file, at any arguments: those of a type come from one sequence.
abbrev pub variable_calls : (ℕ → ℕ) → (ℕ → ℕ) → (ℕ → Bstr) → (ℕ → Variant) → List (Outcome Call)
variable_calls n x s v =
    variable_get_date_time (n 0)
    ∷ variable_get_value (n 0)
    ∷ variable_put_value (n 0) (v 0)
    ∷ variable_get_attribute (n 0)
    ∷ variable_get_help (n 0)
    ∷ variable_get_name (n 0)
    ∷ variable_get_tag (n 0)
    ∷ variable_put_tag (n 0) (v 0)
    ∷ variable_get_id (n 0)
    ∷ variable_put_id (n 0) (v 0)
    ∷ variable_get_microsecond (n 0)
    ∷ variable_release (some (n 0))
    ∷ []
