-- ===== src/Client/Message.antt =====
-- library/src/bCAPClient/bcap_client.c: the functions bCap_Message…, by the numbers of
-- library/include/bcap_funcid.h. The last argument of some says whether the pointer for the result is there.
use denso_ipc.Prelude.{ℕ, Option, some, List, [], ◌∷◌}
use denso_ipc.Outcome.{Outcome}
use denso_ipc.Variant.{Bstr, Variant}
use denso_ipc.Client.{i4, variant, Call, call, release}

abbrev pub message_reply : ℕ → Variant → Outcome Call
message_reply message answer = call 128 2 "3,12" (i4 message ∷ variant answer ∷ [])

abbrev pub message_clear : ℕ → Outcome Call
message_clear message = call 129 1 "3" (i4 message ∷ [])

abbrev pub message_get_date_time : ℕ → Outcome Call
message_get_date_time message = call 130 1 "3:12" (i4 message ∷ [])

abbrev pub message_get_description : ℕ → Outcome Call
message_get_description message = call 131 1 "3:8" (i4 message ∷ [])

abbrev pub message_get_destination : ℕ → Outcome Call
message_get_destination message = call 132 1 "3:8" (i4 message ∷ [])

abbrev pub message_get_number : ℕ → Outcome Call
message_get_number message = call 133 1 "3:3" (i4 message ∷ [])

abbrev pub message_get_serial_number : ℕ → Outcome Call
message_get_serial_number message = call 134 1 "3:3" (i4 message ∷ [])

abbrev pub message_get_source : ℕ → Outcome Call
message_get_source message = call 135 1 "3:8" (i4 message ∷ [])

abbrev pub message_get_value : ℕ → Outcome Call
message_get_value message = call 136 1 "3:12" (i4 message ∷ [])

abbrev pub message_release : Option ℕ → Outcome Call
message_release message = release 137 message

-- Every function of this file, at any arguments: those of a type come from one sequence.
abbrev pub message_calls : (ℕ → ℕ) → (ℕ → ℕ) → (ℕ → Bstr) → (ℕ → Variant) → List (Outcome Call)
message_calls n x s v =
    message_reply (n 0) (v 0)
    ∷ message_clear (n 0)
    ∷ message_get_date_time (n 0)
    ∷ message_get_description (n 0)
    ∷ message_get_destination (n 0)
    ∷ message_get_number (n 0)
    ∷ message_get_serial_number (n 0)
    ∷ message_get_source (n 0)
    ∷ message_get_value (n 0)
    ∷ message_release (some (n 0))
    ∷ []
