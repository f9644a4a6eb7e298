-- ===== src/Device.antt =====
-- The common communication parameters of library/include/dn_device.h, and their check,
-- check_conn_param of library/src/dn_device.c.
pub mod Options
mod Tests
use denso_ipc.Prelude.{
  ℕ, ◌^◌, ◌≡◌, refl, ◌==◌, leb, Bool, true, false, not, ◌&&◌, ◌||◌, if◌then◌else◌, List, Option,
  none, some,
}
use denso_ipc.Outcome.{Outcome, ok, err, e_handle, e_invalidarg}
use Prim.Native.Nat.{bit_and}

abbrev pub conn_tcp : ℕ
conn_tcp = 0x0001

abbrev pub conn_udp : ℕ
conn_udp = 0x0002

abbrev pub conn_com : ℕ
conn_com = 0x0004

abbrev pub check_type_all : ℕ
check_type_all = 0x00FF

abbrev pub check_func_open : ℕ
check_func_open = 0x0100

abbrev pub check_func_close : ℕ
check_func_close = 0x0200

abbrev pub check_func_send : ℕ
check_func_send = 0x0400

abbrev pub check_func_recv : ℕ
check_func_recv = 0x0800

abbrev pub check_func_timeout : ℕ
check_func_timeout = 0x1000

abbrev pub check_func_clear : ℕ
check_func_clear = 0x2000

-- The last argument of dn_send: NULL, a pointer to an `int`, or one to a `struct udpaddr` (its flag
-- and its address).
pub data SendArg : Type 0 where
  null : SendArg
  opt_tcp : ℕ → SendArg
  opt_udp : ℕ → List ℕ → SendArg

-- `World` is what a device driver acts on. `sock` is an `int` as 32 bits. `arg` is the address it
-- points to, none where it is NULL. Of the functions that the senders do not call only whether they are
-- set stands here.
pub record ConnParamCommon {ℓ} (World : Type ℓ) : Type ℓ where
  pub sock : ℕ
  pub kind : ℕ
  pub arg : Option (List ℕ)
  pub dn_send : Option (World → ℕ → List ℕ → SendArg → Outcome World)
  pub dn_open : Bool
  pub dn_close : Bool
  pub dn_recv : Bool
  pub dn_set_timeout : Bool
  pub dn_clear : Bool

abbrev pub is_some {ℓ} : {A : Type ℓ} → Option A → Bool
is_some none = false
is_some (some a) = true

-- `flag & mask` as a condition.
unfoldable pub has : ℕ → ℕ → Bool
has flag mask = not (bit_and flag mask == 0)

-- `(flag & mask) && (function == NULL)`.
unfoldable pub lacks : ℕ → ℕ → Bool → Bool
lacks flag mask set = has flag mask && not set

-- `device->sock <= 0`.
unfoldable pub is_closed : ℕ → Bool
is_closed sock = (sock == 0) || leb (2 ^ 31) sock

unfoldable pub check_conn_param {ℓ} :
    {World : Type ℓ} → Option (ConnParamCommon World) → ℕ → Outcome {0} Unit
check_conn_param none flag = err e_invalidarg
check_conn_param (some device) flag =
    if is_closed device.sock
    then err e_handle
    else if has flag check_type_all && not (has flag device.kind)
    then err e_invalidarg
    else if lacks flag check_func_open device.dn_open
    then err e_invalidarg
    else if lacks flag check_func_close device.dn_close
    then err e_invalidarg
    else if lacks flag check_func_send (is_some device.dn_send)
    then err e_invalidarg
    else if lacks flag check_func_recv device.dn_recv
    then err e_invalidarg
    else if lacks flag check_func_timeout device.dn_set_timeout
    then err e_invalidarg
    else if lacks flag check_func_clear device.dn_clear
    then err e_invalidarg
    else ok tt

-- What a sender asks for: an open socket and dn_send.
pub check_conn_param-send {ℓ} :
    {World : Type ℓ} (device : ConnParamCommon World)
    (f : World → ℕ → List ℕ → SendArg → Outcome World)
    → is_closed device.sock ≡ false
    → device.dn_send ≡ some f
    → check_conn_param (some device) check_func_send ≡ ok tt
unfolding check_conn_param lacks has
check_conn_param-send device f h e = rw (h, e) refl
