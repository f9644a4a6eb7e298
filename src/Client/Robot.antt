-- ===== src/Client/Robot.antt =====
-- library/src/bCAPClient/bcap_client.c: the functions bCap_Robot…, by the numbers of
-- library/include/bcap_funcid.h. The last argument of some says whether the pointer for the result is there.
use denso_ipc.Prelude.{ℕ, Bool, true, Option, some, List, [], ◌∷◌}
use denso_ipc.Outcome.{Outcome}
use denso_ipc.Variant.{Bstr, Variant}
use denso_ipc.Client.{i4, r4, bstr, variant, Call, call, if_given, release}

abbrev pub robot_get_variable : ℕ → Bstr → Bstr → Bool → Outcome Call
robot_get_variable robot name option given =
    if_given given (call 62 3 "3,8,8:3" (i4 robot ∷ bstr name ∷ bstr option ∷ []))

abbrev pub robot_get_variable_names : ℕ → Bstr → Outcome Call
robot_get_variable_names robot option = call 63 2 "3,8:12" (i4 robot ∷ bstr option ∷ [])

abbrev pub robot_execute : ℕ → Bstr → Variant → Outcome Call
robot_execute robot command param =
    call 64 3 "3,8,12:12" (i4 robot ∷ bstr command ∷ variant param ∷ [])

abbrev pub robot_accelerate : ℕ → ℕ → ℕ → ℕ → Outcome Call
robot_accelerate robot axis accel decel =
    call 65 4 "3,3,4,4" (i4 robot ∷ i4 axis ∷ r4 accel ∷ r4 decel ∷ [])

abbrev pub robot_change : ℕ → Bstr → Outcome Call
robot_change robot name = call 66 2 "3,8" (i4 robot ∷ bstr name ∷ [])

abbrev pub robot_chuck : ℕ → Bstr → Outcome Call
robot_chuck robot option = call 67 2 "3,8" (i4 robot ∷ bstr option ∷ [])

abbrev pub robot_drive : ℕ → ℕ → ℕ → Bstr → Outcome Call
robot_drive robot number mov option =
    call 68 4 "3,3,4,8" (i4 robot ∷ i4 number ∷ r4 mov ∷ bstr option ∷ [])

abbrev pub robot_go_home : ℕ → Outcome Call
robot_go_home robot = call 69 1 "3" (i4 robot ∷ [])

abbrev pub robot_halt : ℕ → Bstr → Outcome Call
robot_halt robot option = call 70 2 "3,8" (i4 robot ∷ bstr option ∷ [])

abbrev pub robot_hold : ℕ → Bstr → Outcome Call
robot_hold robot option = call 71 2 "3,8" (i4 robot ∷ bstr option ∷ [])

abbrev pub robot_move : ℕ → ℕ → Variant → Bstr → Outcome Call
robot_move robot comp pose option =
    call 72 4 "3,3,12,8" (i4 robot ∷ i4 comp ∷ variant pose ∷ bstr option ∷ [])

abbrev pub robot_rotate : ℕ → Variant → ℕ → Variant → Bstr → Outcome Call
robot_rotate robot rot_suf deg pivot option =
    call 73 5 "3,12,4,12,8" (i4 robot ∷ variant rot_suf ∷ r4 deg ∷ variant pivot ∷ bstr option ∷ [])

abbrev pub robot_speed : ℕ → ℕ → ℕ → Outcome Call
robot_speed robot axis speed = call 74 3 "3,3,4" (i4 robot ∷ i4 axis ∷ r4 speed ∷ [])

abbrev pub robot_unchuck : ℕ → Bstr → Outcome Call
robot_unchuck robot option = call 75 2 "3,8" (i4 robot ∷ bstr option ∷ [])

abbrev pub robot_unhold : ℕ → Bstr → Outcome Call
robot_unhold robot option = call 76 2 "3,8" (i4 robot ∷ bstr option ∷ [])

abbrev pub robot_get_attribute : ℕ → Outcome Call
robot_get_attribute robot = call 77 1 "3:3" (i4 robot ∷ [])

abbrev pub robot_get_help : ℕ → Outcome Call
robot_get_help robot = call 78 1 "3:8" (i4 robot ∷ [])

abbrev pub robot_get_name : ℕ → Outcome Call
robot_get_name robot = call 79 1 "3:8" (i4 robot ∷ [])

abbrev pub robot_get_tag : ℕ → Outcome Call
robot_get_tag robot = call 80 1 "3:12" (i4 robot ∷ [])

abbrev pub robot_put_tag : ℕ → Variant → Outcome Call
robot_put_tag robot new_value = call 81 2 "3,12" (i4 robot ∷ variant new_value ∷ [])

abbrev pub robot_get_id : ℕ → Outcome Call
robot_get_id robot = call 82 1 "3:12" (i4 robot ∷ [])

abbrev pub robot_put_id : ℕ → Variant → Outcome Call
robot_put_id robot new_value = call 83 2 "3,12" (i4 robot ∷ variant new_value ∷ [])

abbrev pub robot_release : Option ℕ → Outcome Call
robot_release robot = release 84 robot

-- Every function of this file, at any arguments: those of a type come from one sequence.
abbrev pub robot_calls : (ℕ → ℕ) → (ℕ → ℕ) → (ℕ → Bstr) → (ℕ → Variant) → List (Outcome Call)
robot_calls n x s v =
    robot_get_variable (n 0) (s 0) (s 1) true
    ∷ robot_get_variable_names (n 0) (s 0)
    ∷ robot_execute (n 0) (s 0) (v 0)
    ∷ robot_accelerate (n 0) (n 1) (x 0) (x 1)
    ∷ robot_change (n 0) (s 0)
    ∷ robot_chuck (n 0) (s 0)
    ∷ robot_drive (n 0) (n 1) (x 0) (s 0)
    ∷ robot_go_home (n 0)
    ∷ robot_halt (n 0) (s 0)
    ∷ robot_hold (n 0) (s 0)
    ∷ robot_move (n 0) (n 1) (v 0) (s 0)
    ∷ robot_rotate (n 0) (v 0) (x 0) (v 1) (s 0)
    ∷ robot_speed (n 0) (n 1) (x 0)
    ∷ robot_unchuck (n 0) (s 0)
    ∷ robot_unhold (n 0) (s 0)
    ∷ robot_get_attribute (n 0)
    ∷ robot_get_help (n 0)
    ∷ robot_get_name (n 0)
    ∷ robot_get_tag (n 0)
    ∷ robot_put_tag (n 0) (v 0)
    ∷ robot_get_id (n 0)
    ∷ robot_put_id (n 0) (v 0)
    ∷ robot_release (some (n 0))
    ∷ []
