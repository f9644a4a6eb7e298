-- ===== src/Client.antt =====
-- The b-CAP client, library/src/bCAPClient/bcap_client.c: how a call of the library becomes a packet.
pub mod Service
pub mod Controller
pub mod Extension
pub mod File
pub mod Robot
pub mod Task
pub mod Variable
pub mod Command
pub mod Message
pub mod Prototypes
pub mod Calls
pub mod Session
pub mod Slots
mod Tests
use Prim.Native.Char.{code}
use Prim.Native.String.{String}
use denso_ipc.Prelude.{
  ℕ, zero, suc, ◌+◌, ◌-◌, ◌*◌, ◌==◌, leb, ltb, not, ◌&&◌, if◌then◌else◌, Bool, true, false, List,
  [], ◌∷◌, Option, none, some, length,
}
use denso_ipc.Outcome.{Outcome, ok, err, fault, stuck, bind, e_invalidarg, e_outofmemory}
use denso_ipc.Variant.{
  Variant, scalar, string, Variants, nil, cons, Bstr, vt_i4, vt_r4, vt_bstr, vt_variant,
}
use denso_ipc.Bcap.Packet.{Packet}

-- The characters of a format.
abbrev pub codes : String → List ℕ
codes String.[] = []
codes (String.◌∷◌ c s) = code c ∷ codes s

-- An argument behind `format`. Integers and floats are their 32 bits.
pub data Arg : Type 0 where
  i4 : ℕ → Arg
  r4 : ℕ → Arg
  bstr : Bstr → Arg
  variant : Variant → Arg

-- The arguments of invoke_function, without `fd` and the pointer for the result.
pub record Call : Type 0 where
  pub id : ℕ
  pub argc : ℕ
  pub format : List ℕ
  pub args : List Arg

abbrev pub call : ℕ → ℕ → String → List Arg → Outcome Call
call id argc format args = ok (record { id = id; argc = argc; format = codes format; args = args })

-- `if (hObject == NULL) return E_INVALIDARG;` in front of a call.
abbrev pub if_given : Bool → Outcome Call → Outcome Call
if_given true c = c
if_given false c = err e_invalidarg

-- The call of a function that releases the object behind its pointer, none for NULL.
abbrev pub release : ℕ → Option ℕ → Outcome Call
release id none = err e_invalidarg
release id (some h) = call id 1 "3" (i4 h ∷ [])

-- `strchr` for a separator: what stands before it, and behind it.
unfoldable pub cut_at : ℕ → List ℕ → List ℕ × Option (List ℕ)
cut_at sep [] = ([], none)
cut_at sep (c ∷ s) =
    let later = cut_at sep s in if c == sep then ([], some s) else (c ∷ later.0, later.1)

-- `atoi` of a string that begins with a digit or has none.
unfoldable pub digits_from : ℕ → List ℕ → ℕ
digits_from n [] = n
digits_from n (c ∷ s) =
    let later = digits_from (n * 10 + (c - 48)) s in if leb 48 c && leb c 57 then later else n

unfoldable pub atoi : List ℕ → ℕ
unfolding digits_from
atoi s = digits_from 0 s

abbrev comma : ℕ
comma = 44

abbrev colon : ℕ
colon = 58

abbrev within : ℕ → ℕ → Outcome Variant → Outcome Variant
within i argc v = if ltb i argc then v else fault

-- `va_arg`: reading another type than was passed, or none, is a fault.
abbrev take_i4 : List Arg → Outcome Variant
take_i4 (i4 n ∷ args) = ok (scalar vt_i4 n)
take_i4 _ = fault

abbrev take_r4 : List Arg → Outcome Variant
take_r4 (r4 n ∷ args) = ok (scalar vt_r4 n)
take_r4 _ = fault

abbrev take_bstr : List Arg → Outcome Variant
take_bstr (bstr s ∷ args) = ok (string s)
take_bstr _ = fault

abbrev take_variant : List Arg → Outcome Variant
take_variant (variant v ∷ args) = ok v
take_variant _ = fault

-- The `switch` over the type; `vntArg[i]` behind the array is a fault.
unfoldable pub take_arg : ℕ → ℕ → ℕ → List Arg → Outcome Variant
take_arg vt i argc args =
    if vt == vt_i4
    then within i argc (take_i4 args)
    else if vt == vt_r4
    then within i argc (take_r4 args)
    else if vt == vt_bstr
    then within i argc (take_bstr args)
    else if vt == vt_variant
    then within i argc (take_variant args)
    else err e_invalidarg

abbrev rest_of : List Arg → List Arg
rest_of [] = []
rest_of (a ∷ args) = args

abbrev after : Option (List ℕ) → List ℕ
after none = []
after (some s) = s

-- The loop over the format; a round that goes on takes a character of it.
unfoldable pub set_args : ℕ → List ℕ → ℕ → ℕ → List Arg → Outcome Variants
set_args zero format i argc args = stuck
set_args (suc fuel) [] i argc args =
    let later =
      bind (take_arg (atoi []) i argc args)
        (λ v. bind (set_args fuel [] (i + 1) argc (rest_of args)) (λ vs. ok (cons v vs))) in
    if leb argc i then ok nil else later
set_args (suc fuel) (c ∷ s) i argc args =
    bind (take_arg (atoi (cut_at comma (c ∷ s)).0) i argc args) (λ v.
      bind (set_args fuel (after (cut_at comma (c ∷ s)).1) (i + 1) argc (rest_of args))
        (λ vs. ok (cons v vs)))

-- The part of the format for the result.
abbrev pub result_of : Call → Option (List ℕ)
result_of c = (cut_at colon c.format).1

-- invoke_function up to the call of send_receive, which sets the two serial numbers.
unfoldable pub build : (ℕ → Bool) → Call → Outcome Packet
build malloc c =
    if ltb 0 c.argc && not (malloc (c.argc * 16))
    then err e_outofmemory
    else bind (set_args (suc (length c.format)) (cut_at colon c.format).0 0 c.argc c.args)
        (λ vs. ok (record { serial = 0; reserv = 0; id = c.id; argc = c.argc; args = vs }))
