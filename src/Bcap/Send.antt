-- ===== src/Bcap/Send.antt =====
-- Sending a packet: bcap_send of library/src/bcap_common.c.
pub mod Serial
use denso_ipc.Prelude.{
  ℕ, ◌+◌, ◌-◌, ◌%◌, ◌^◌, ◌==◌, leb, ltb, not, Bool, if◌then◌else◌, List, Option, none, some, take,
  drop, to_le,
}
use denso_ipc.Outcome.{Outcome, ok, err, fault, bind, e_invalidarg, e_outofmemory, e_too_much_data}
use denso_ipc.Device.{
  ConnParamCommon, SendArg, null, opt_tcp, opt_udp, check_conn_param, conn_tcp, conn_udp, conn_com,
  check_func_send,
}
use denso_ipc.Bcap.Platform.{Platform}
use denso_ipc.Bcap.Packet.{Packet}
use denso_ipc.Bcap.Writer.{store}
use denso_ipc.Bcap.Reader.{load}
use denso_ipc.Bcap.Size.{calc_size_packet}
use denso_ipc.Bcap.Encode.{packet2bytary}
use denso_ipc.Bcap.Crc.{calc_crc}

abbrev pub udp_max_packet : ℕ
udp_max_packet = 503

abbrev pub size_crc : ℕ
size_crc = 2

abbrev udp_mode : Option (List ℕ) → Outcome (ℕ × SendArg)
udp_mode none = err e_invalidarg
udp_mode (some addr) = ok (udp_max_packet, opt_udp 0 addr)

-- The limit of the length, and the argument for dn_send.
unfoldable pub send_mode : ℕ → Option (List ℕ) → Outcome (ℕ × SendArg)
send_mode kind arg =
    if kind == conn_tcp
    then ok (2 ^ 32 - 1, opt_tcp 0)
    else if kind == conn_udp
    then udp_mode arg
    else if kind == conn_com
    then ok (udp_max_packet, null)
    else err e_invalidarg

unfoldable pub send_size : ℕ → ℕ → ℕ
send_size kind len = if kind == conn_com then (len + size_crc) % 2 ^ 32 else len

-- The checksum of what stands between the header and the checksum, stored before the terminator.
unfoldable pub set_crc : List ℕ → ℕ → Outcome (List ℕ)
set_crc buf len_send =
    bind (load buf 1 (len_send - 1 - size_crc - 1))
      (λ bytes. store buf (len_send - size_crc - 1) (to_le 2 (calc_crc (some bytes))))

unfoldable pub with_crc : ℕ → List ℕ → ℕ → Outcome (List ℕ)
with_crc kind buf len_send = if kind == conn_com then set_crc buf len_send else ok buf

-- The call of a function, `fault` through a NULL pointer.
abbrev pub call_send {ℓ} :
    {World : Type ℓ}
    → Option (World → ℕ → List ℕ → SendArg → Outcome World)
    → World
    → ℕ
    → List ℕ
    → SendArg
    → Outcome World
call_send none w sock buf parg = fault
call_send (some dn_send) w sock buf parg = dn_send w sock buf parg

module _ {ℓ} {World : Type ℓ} (p : Platform) (heap : ℕ → List ℕ) where
  -- From the comparison of the length on. `heap n` is what the `n` bytes of a new block hold.
  unfoldable pub send_packet :
      ConnParamCommon World → Packet → ℕ → SendArg → ℕ → World → Outcome World
  send_packet device packet len_max parg len_send w =
      if ltb len_max len_send
      then err e_too_much_data
      else if not (p.malloc len_send)
      then err e_outofmemory
      else bind (packet2bytary p (some packet) (some (heap len_send)) len_send) (λ buf.
        bind (with_crc device.kind buf len_send)
          (λ sealed. call_send device.dn_send w device.sock sealed parg))

  unfoldable pub bcap_send : Option (ConnParamCommon World) → Option Packet → World → Outcome World
  bcap_send none packet_send w =
      bind (check_conn_param {World = World} none check_func_send) (λ t. ok w)
  bcap_send (some device) none w =
      bind (check_conn_param (some device) check_func_send) (λ t. err e_invalidarg)
  bcap_send (some device) (some packet) w =
      bind (check_conn_param (some device) check_func_send) (λ t.
        bind (send_mode device.kind device.arg) (λ mode.
          bind (calc_size_packet (some packet))
            (λ len. send_packet device packet mode.0 mode.1 (send_size device.kind len) w)))
