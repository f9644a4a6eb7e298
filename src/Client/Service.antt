-- ===== src/Client/Service.antt =====
-- library/src/bCAPClient/bcap_client.c: the functions bCap_Service…, by the numbers of
-- library/include/bcap_funcid.h. The last argument of some says whether the pointer for the result is there.
use denso_ipc.Prelude.{ℕ, List, [], ◌∷◌}
use denso_ipc.Outcome.{Outcome}
use denso_ipc.Variant.{Bstr, Variant}
use denso_ipc.Client.{bstr, Call, call}

abbrev pub service_start : Bstr → Outcome Call
service_start option = call 1 1 "8" (bstr option ∷ [])

abbrev pub service_stop : Outcome Call
service_stop = call 2 0 "" []

-- Every function of this file, at any arguments: those of a type come from one sequence.
abbrev pub service_calls : (ℕ → ℕ) → (ℕ → ℕ) → (ℕ → Bstr) → (ℕ → Variant) → List (Outcome Call)
service_calls n x s v = service_start (s 0) ∷ service_stop ∷ []
