-- ===== src/Robotalk.antt =====
-- library/src/dn_robotalk.c: ROBOTalk packets, their checksum, and rtk_send.
pub mod Frame
pub mod Receive
mod Tests
use denso_ipc.Prelude.{
  ℕ, zero, suc, ◌+◌, ◌*◌, ◌/◌, ◌%◌, ◌^◌, ◌==◌, ltb, if◌then◌else◌, Bool, List, [], ◌∷◌, ◌++◌,
  Option, none, some, take, to_le, of_le,
}
use denso_ipc.Outcome.{Outcome, ok, err, fault, bind, e_invalidarg, e_too_much_data, e_outofmemory}
use denso_ipc.Device.{ConnParamCommon, SendArg, null, opt_udp, check_conn_param, conn_udp}
use denso_ipc.Bcap.Writer.{store}
use denso_ipc.Bcap.Reader.{load}
use denso_ipc.Bcap.Send.{call_send}

abbrev pub rtk_enq : ℕ
rtk_enq = 0x05

abbrev pub rtk_size_packet : ℕ
rtk_size_packet = 256

abbrev pub rtk_size_header : ℕ
rtk_size_header = 6

abbrev pub rtk_size_crc : ℕ
rtk_size_crc = 2

-- RTK_SIZE_DATA - RTK_SIZE_CRC.
abbrev pub rtk_max_data : ℕ
rtk_max_data = 248

abbrev pub rtk_cmd_nak : ℕ
rtk_cmd_nak = 0x0E82

-- RTK_CHECK_SEND: UDP or a serial line, with dn_send.
abbrev pub rtk_check_send : ℕ
rtk_check_send = 0x0406

-- `memcpy_be(dst, &v, 2)`: the two bytes of `v` in the other order.
unfoldable pub to_be : ℕ → List ℕ
to_be v = v / 256 % 256 ∷ v % 256 ∷ []

-- `memcpy_be` into a uint16_t.
unfoldable pub of_be : List ℕ → ℕ
of_be [] = 0
of_be (hi ∷ bs) = hi * 256 + of_le bs

-- The assignments of the header. A packet is its 256 bytes: enq, len, command, from_id, to_id, data.
unfoldable pub put_header : ℕ → ℕ → ℕ → ℕ → List ℕ → Outcome (List ℕ)
put_header command len_data from_id to_id packet = bind (store packet 0 (rtk_enq ∷ [])) (λ p1.
    bind (store p1 1 (len_data ∷ [])) (λ p2.
      bind (store p2 2 (to_be command))
        (λ p3. bind (store p3 4 (from_id ∷ [])) (λ p4. store p4 5 (to_id ∷ [])))))

unfoldable pub put_data : Option (List ℕ) → ℕ → List ℕ → Outcome (List ℕ)
put_data none zero packet = ok packet
put_data none (suc len_data) packet = err e_invalidarg
put_data (some data_) len_data packet =
    if ltb 0 len_data
    then bind (load data_ 0 len_data) (λ bytes. store packet rtk_size_header bytes)
    else ok packet

-- `none` is a NULL pointer.
unfoldable pub rtk_param2packet :
    ℕ → Option (List ℕ) → ℕ → ℕ → ℕ → Option (List ℕ) → Outcome (List ℕ)
rtk_param2packet command data_ len_data from_id to_id none = err e_invalidarg
rtk_param2packet command none (suc len) from_id to_id (some packet) = err e_invalidarg
rtk_param2packet command none zero from_id to_id (some packet) =
    put_header command 0 from_id to_id packet
rtk_param2packet command (some data_) len_data from_id to_id (some packet) =
    if ltb rtk_max_data len_data
    then err e_invalidarg
    else bind (put_header command len_data from_id to_id packet) (put_data (some data_) len_data)

-- The loop over `pos`: `crc += buf[pos]` in uint16_t.
unfoldable pub sum_bytes : ℕ → List ℕ → ℕ
sum_bytes crc [] = crc
sum_bytes crc (b ∷ bs) = sum_bytes ((crc + b) % 2 ^ 16) bs

-- `len` of the packet, at most the room for data.
unfoldable pub clamp : ℕ → ℕ
clamp len = if ltb rtk_max_data len then rtk_max_data else len

unfoldable pub rtk_calc_crc : Option (List ℕ) → Outcome ℕ
rtk_calc_crc none = ok 0
rtk_calc_crc (some buf) = bind (load buf 1 1) (λ len.
    bind (load buf 0 (rtk_size_header + clamp (of_le len))) (λ bytes. ok (sum_bytes 0 bytes)))

unfoldable pub set_sum : List ℕ → ℕ → Outcome (List ℕ)
set_sum buf len =
    bind (rtk_calc_crc (some buf)) (λ crc. store buf (rtk_size_header + len) (to_be crc))

-- The argument for dn_send.
unfoldable pub rtk_arg : ℕ → Option (List ℕ) → Outcome SendArg
rtk_arg kind none = if kind == conn_udp then err e_invalidarg else ok null
rtk_arg kind (some addr) = if kind == conn_udp then ok (opt_udp 0 addr) else ok null

module _ {ℓ} {World : Type ℓ} where
  -- From `len_send = ...` on. The driver gets the first `len_send` bytes; the packet of the caller,
  -- with its checksum, is returned beside the driver's world.
  unfoldable pub rtk_put :
      ConnParamCommon World → List ℕ → SendArg → World → Outcome (World × List ℕ)
  rtk_put device buf parg w = bind (load buf 1 1) (λ len.
      if ltb rtk_size_packet (rtk_size_header + rtk_size_crc + of_le len)
      then err e_too_much_data
      else bind (set_sum buf (of_le len)) (λ sealed.
        bind (load sealed 0 (rtk_size_header + rtk_size_crc + of_le len)) (λ bytes.
          bind (call_send device.dn_send w device.sock bytes parg) (λ w'. ok (w', sealed)))))

  unfoldable pub rtk_send :
      ConnParamCommon World → Option (List ℕ) → World → Outcome (World × List ℕ)
  rtk_send device none w =
      bind (check_conn_param (some device) rtk_check_send) (λ t. err e_invalidarg)
  rtk_send device (some buf) w =
      bind (check_conn_param (some device) rtk_check_send)
        (λ t. bind (rtk_arg device.kind device.arg) (λ parg. rtk_put device buf parg w))

  -- `heap n` is what the `n` bytes of a new block hold.
  unfoldable pub rtk_send_nak :
      (malloc : ℕ → Bool) (heap : ℕ → List ℕ)
      → ConnParamCommon World
      → ℕ
      → ℕ
      → World
      → Outcome World
  rtk_send_nak malloc heap device from_id to_id w =
      if malloc (rtk_size_header + rtk_size_crc)
      then bind
          (rtk_param2packet rtk_cmd_nak none 0 from_id to_id
            (some (heap (rtk_size_header + rtk_size_crc))))
          (λ packet. bind (rtk_send device (some packet) w) (λ sent. ok sent.0))
      else err e_outofmemory

-- The comparison of the checksums in rtk_recv.
unfoldable pub check_sum : List ℕ → Outcome Bool
check_sum packet = bind (rtk_calc_crc (some packet)) (λ crc. bind (load packet 1 1) (λ len.
    bind (load packet (rtk_size_header + of_le len) rtk_size_crc)
      (λ stored. ok (crc == of_be stored))))
