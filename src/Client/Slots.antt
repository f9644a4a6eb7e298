-- ===== src/Client/Slots.antt =====
-- The connections of library/src/bCAPClient/bcap_client.c, `m_conn_param`: opening, closing and their settings. A handle
-- is the index of a slot, from 1 on; a slot whose socket is 0 is free.
pub mod View
pub mod Close
pub mod Refused
pub mod Accepted
pub mod Settings
mod Tests
use denso_ipc.Prelude.{
  ℕ, zero, suc, ◌+◌, ◌-◌, ◌==◌, ◌||◌, not, if◌then◌else◌, Bool, true, false, List, [], ◌∷◌, Option,
  none, some,
}
use denso_ipc.Codes.{failed, s_ok, e_handle, e_invalidarg, e_max_object}
use denso_ipc.Device.{conn_tcp, conn_udp, conn_com}
use denso_ipc.Client.Session.{Connection, retry_of}

unfoldable pub slot_at : List Connection → ℕ → Option Connection
slot_at [] i = none
slot_at (c ∷ cs) zero = some c
slot_at (c ∷ cs) (suc i) = slot_at cs i

-- A write through `&m_conn_param[i]`.
unfoldable pub modify : (Connection → Connection) → ℕ → List Connection → List Connection
modify f i [] = []
modify f zero (c ∷ cs) = f c ∷ cs
modify f (suc i) (c ∷ cs) = c ∷ modify f i cs

unfoldable pub find_from : ℕ → List Connection → ℕ
find_from i [] = 0
find_from i (c ∷ cs) = let later = find_from (i + 1) cs in if c.sock == 0 then i + 1 else later

unfoldable pub find_open_address : List Connection → ℕ
unfolding find_from
find_open_address cs = find_from 0 cs

abbrev pub in_use : Option Connection → Option Connection
in_use none = none
in_use (some c) = if c.sock == 0 then none else some c

-- `index - 1`, where index is no 0.
abbrev pub before : ℕ → ℕ
before zero = zero
before (suc i) = i

-- None for NULL.
unfoldable pub check_address : List Connection → ℕ → Option Connection
check_address cs zero = none
check_address cs (suc i) = in_use (slot_at cs i)

-- The codes of the calls that the settings and the opening make: the parser of the address with the memory for
-- it, initialize_mutex, dn_open with the socket it stores, lock_mutex, and dn_set_timeout.
pub record Codes : Type 0 where
  pub parsed : ℕ
  pub mutex : ℕ
  pub opened : ℕ
  pub sock : ℕ
  pub locked : ℕ
  pub timed : ℕ

-- `memset(bcap_param, 0, sizeof(struct CONN_BCAP_CLIENT))`
abbrev pub cleared : Connection → Connection
cleared c = record { sock = 0; kind = 0; timeout = 0; retry = 0; serial = 0 }

abbrev pub if_locked :
    Codes → List Connection → Option Connection → ℕ × List Connection → ℕ × List Connection
if_locked codes cs none r = (e_handle, cs)
if_locked codes cs (some c) r = if failed codes.locked then (codes.locked, cs) else r

unfoldable pub set_timeout : List Connection → Codes → ℕ → ℕ → ℕ × List Connection
set_timeout cs codes fd timeout = if_locked codes cs (check_address cs fd) (
  codes.timed,
  if failed codes.timed then cs else modify (λ c. record c { timeout = timeout }) (before fd) cs,
)

abbrev pub kind_of : Option Connection → ℕ
kind_of none = 0
kind_of (some c) = c.kind

abbrev pub retried : Codes → List Connection → ℕ → Option ℕ → ℕ × List Connection
retried codes cs fd none = (e_handle, cs)
retried codes cs fd (some retry) =
    (codes.locked, modify (λ c. record c { retry = retry }) (before fd) cs)

unfoldable pub set_retry : List Connection → Codes → ℕ → ℕ → ℕ × List Connection
unfolding retry_of
set_retry cs codes fd retry =
    if_locked codes cs (check_address cs fd)
      (retried codes cs fd (retry_of (kind_of (check_address cs fd)) retry))

-- The code, the slots, and what is stored behind `pfd`.
abbrev pub close_slot : List Connection → ℕ → Option Connection → ℕ × List Connection × Option ℕ
close_slot cs fd none = (e_handle, cs, none)
close_slot cs fd (some c) = (s_ok, modify cleared (before fd) cs, some 0)

unfoldable pub close_client : List Connection → ℕ → ℕ × List Connection × Option ℕ
close_client cs fd = close_slot cs fd (check_address cs fd)

abbrev pub close_after : List Connection → ℕ → ℕ → ℕ × List Connection × Option ℕ
close_after cs fd hr = (hr, (close_client cs fd).1, none)

-- `bCap_SetTimeout`, `bCap_SetRetry` and the rest of the opening.
unfoldable pub settle_client : List Connection → Codes → ℕ → ℕ → ℕ → ℕ × List Connection × Option ℕ
settle_client cs codes fd timeout retry =
    let t = set_timeout cs codes fd timeout in
    let r = set_retry t.1 codes fd retry in
    if failed t.0
    then close_after t.1 fd t.0
    else if failed r.0
    then close_after r.1 fd r.0
    else (s_ok, modify (λ c. record c { serial = 1 }) (before fd) r.1, some fd)

-- The opening in the slot `fd - 1`, with the code of the `switch` over the type.
unfoldable pub open_slot :
    List Connection → Codes → ℕ → ℕ → ℕ → ℕ → ℕ → ℕ × List Connection × Option ℕ
unfolding settle_client
open_slot cs codes fd hr kind timeout retry =
    if failed hr
    then (hr, modify cleared (before fd) cs, none)
    else if failed codes.mutex
    then (codes.mutex, modify (λ c. record c { kind = kind }) (before fd) cs, none)
    else if failed codes.opened
    then (codes.opened, modify cleared (before fd) cs, none)
    else settle_client (modify (λ c. record c { sock = codes.sock; kind = kind }) (before fd) cs)
        codes fd timeout retry

abbrev pub is_kind : ℕ → Bool
is_kind kind = (kind == conn_tcp) || ((kind == conn_udp) || (kind == conn_com))

-- bCap_Open_Client, with the type that parse_conn_type finds.
unfoldable pub open_client : List Connection → Codes → ℕ → ℕ → ℕ → ℕ × List Connection × Option ℕ
unfolding open_slot
open_client cs codes kind timeout retry =
    let fd = find_open_address cs in
    if fd == 0
    then (e_max_object, cs, none)
    else open_slot cs codes fd (if is_kind kind then codes.parsed else e_invalidarg) kind timeout
        retry
