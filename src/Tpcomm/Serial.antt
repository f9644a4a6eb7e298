-- ===== src/Tpcomm/Serial.antt =====
-- tp_recv of library/src/TPComm/dn_tpcomm.c over rtk_recv of library/src/dn_robotalk.c, on a serial line.
mod Tests
use denso_ipc.Prelude.{
  ℕ, zero, suc, ◌+◌, ◌*◌, ◌/◌, ◌%◌, ◌^◌, ◌≤◌, ◌<◌, ◌≡◌, ◌≢◌, refl, sym, ap, ◌∙◌, ◌==◌,
  if◌then◌else◌, Bool, true, false, List, [], ◌∷◌, ◌++◌, Option, none, some, map, length, take,
  drop, of_le, to_le, of_le-to_le, take-append, append_assoc, ne→==, arith,
}
use denso_ipc.Outcome.{Hresult, Outcome, ok, err, fault, bind, catch, e_timeout}
use denso_ipc.Device.{ConnParamCommon, SendArg, check_conn_param, is_closed, lacks, has, conn_com}
use denso_ipc.Bcap.Receive.Serial.{Read, read}
use denso_ipc.Bcap.Receive.Serial.Chunks.{joined}
use denso_ipc.Robotalk.{rtk_size_packet, rtk_max_data, rtk_cmd_nak, to_be, sum_bytes}
use denso_ipc.Robotalk.Frame.{rtk_frame, of_byte, fields}
use denso_ipc.Robotalk.Receive.{Reception, returned, failing, waits, rtk_recv_serial}
use denso_ipc.Robotalk.Receive.Frames.{host_frame, rtk_recv_serial-rtk_frame}
use denso_ipc.Tpcomm.{Tp, Incoming, Arrival, lost, arrived, Line, native_command, tp_retry_nak}
use denso_ipc.Tpcomm.Link.{Receipt, got, tp_recv, attempts, check_cts, receive, take_packet}

-- RTK_CHECK_RECV
abbrev pub rtk_check_recv : ℕ
rtk_check_recv = 0x0C06

-- The members of a packet with its command in the order of the host.
unfoldable pub incoming : List ℕ → Incoming
incoming packet = record {
  command = of_le (take 2 (drop 2 packet));
  payload = take (of_le (take 1 (drop 1 packet))) (drop 6 packet);
  sender = of_le (take 1 (drop 4 packet));
}

module _ {ℓ} {W : Type ℓ} where
  -- The world holds the reads to come; a dn_recv without a read ends in time.
  unfoldable pub arrival_of :
      ConnParamCommon (List Read × W)
      → Reception (List Read × W)
      → Arrival × ConnParamCommon (List Read × W) × (List Read × W)
  unfolding incoming
  arrival_of device (returned packet later w) = (arrived (incoming packet), device, (later, w.1))
  arrival_of device (failing e later w) = (lost e, device, (later, w.1))
  arrival_of device (waits w) = (lost e_timeout, device, ([], w.1))

  -- rtk_recv on a serial line, with the bytes of an uninitialised packet.
  unfoldable pub serial_recv :
      (malloc : ℕ → Bool) (heap : ℕ → List ℕ) (packet : List ℕ)
      → ConnParamCommon (List Read × W)
      → Bool
      → ℕ
      → List Read × W
      → Outcome (Arrival × ConnParamCommon (List Read × W) × (List Read × W))
  unfolding arrival_of
  serial_recv malloc heap packet device client retry_nak w =
      catch (check_conn_param (some device) rtk_check_recv) (λ e. ok (lost e, device, w))
        (λ t.
          bind (rtk_recv_serial malloc heap device w.0 retry_nak packet w)
            (λ r. ok (arrival_of device r)))

command_bytes : (n : ℕ) → n < 2 ^ 16 → of_le (n % 256 ∷ n / 256 % 256 ∷ []) ≡ n
unfolding to_le
command_bytes n h = of_le-to_le 2 n (omega (arith, h))

incoming-host_frame :
    (command : ℕ) (data_ : List ℕ) (from_id to_id : ℕ) (rest : List ℕ)
    → command < 2 ^ 16
    → incoming (host_frame command data_ from_id to_id ++ rest)
      ≡ record { command = command; payload = data_; sender = from_id }
unfolding incoming host_frame
incoming-host_frame command data_ from_id to_id rest h =
    rw
      (
        command_bytes command h,
        of_byte (length data_),
        of_byte from_id,
        append_assoc data_
            (to_be (sum_bytes 0 (fields command (length data_) from_id to_id ++ data_))) rest,
        take-append data_
            (to_be (sum_bytes 0 (fields command (length data_) from_id to_id ++ data_)) ++ rest),
      )
      refl

checked {ℓ} :
    {W : Type ℓ} (device : ConnParamCommon W) (f : W → ℕ → List ℕ → SendArg → Outcome W)
    → device.kind ≡ conn_com
    → is_closed device.sock ≡ false
    → device.dn_send ≡ some f
    → device.dn_recv ≡ true
    → check_conn_param (some device) rtk_check_recv ≡ ok tt
unfolding check_conn_param lacks has
checked device f serial opened sends receives = rw (opened, serial, sends, receives) refl

module _ {ℓ} {W : Type ℓ} (malloc : ℕ → Bool) (heap : ℕ → List ℕ) (packet : List ℕ)
    (size : length packet ≡ rtk_size_packet) (command : ℕ) (data_ : List ℕ) (from_id to_id : ℕ)
    (small : command < 2 ^ 16) (few : length data_ ≤ rtk_max_data) where
  serial_recv-rtk_frame :
      (device : ConnParamCommon (List Read × W))
      (f : (List Read × W) → ℕ → List ℕ → SendArg → Outcome (List Read × W)) (client : Bool)
      (retry_nak : ℕ) (cs : List (List ℕ)) (w : W)
      → device.kind ≡ conn_com
      → is_closed device.sock ≡ false
      → device.dn_send ≡ some f
      → device.dn_recv ≡ true
      → joined cs ≡ rtk_frame command data_ from_id to_id
      → (later : List Read) × (serial_recv malloc heap packet device client retry_nak
            (map read cs, w)
          ≡ ok (
            arrived (record { command = command; payload = data_; sender = from_id }),
            device,
            (later, w),
          ))
  unfolding serial_recv arrival_of
  serial_recv-rtk_frame device f client retry_nak cs w serial opened sends receives e =
      let d =
        rtk_recv_serial-rtk_frame command data_ from_id to_id few malloc heap device packet size cs
          retry_nak (map read cs, w) e in
      (
        d.0,
        rw
            (
              checked device f serial opened sends receives,
              d.1,
              incoming-host_frame command data_ from_id to_id (drop (8 + length data_) packet)
                  small,
            )
            refl,
      )

  -- If on an open serial line the modem sets CTS, as it did before, then however the driver cuts the bytes that rtk_send hands over
  -- at the other end for a command below 2 ^ 16 other than a NAK, with at most 248 bytes of data, tp_recv returns the command and the
  -- data, and the next packets go to the sender.
  pub tp_recv-rtk_frame :
      (line : Line (List Read × W)) (tp : Tp (List Read × W))
      (f : (List Read × W) → ℕ → List ℕ → SendArg → Outcome (List Read × W)) (cs : List (List ℕ))
      (w : W)
      → tp.device.kind ≡ conn_com
      → is_closed tp.device.sock ≡ false
      → tp.device.dn_send ≡ some f
      → tp.device.dn_recv ≡ true
      → tp.cts ≡ true
      → line.modem (map read cs, w) ≡ true
      → native_command command ≢ rtk_cmd_nak
      → joined cs ≡ rtk_frame command data_ from_id to_id
      → (later : List Read) × (tp_recv
            (record line { rtk_recv = serial_recv malloc heap packet })
            tp
            (map read cs, w)
          ≡ ok (got command data_, record tp { cts = true; to_id = from_id }, (later, w)))
  unfolding tp_recv attempts check_cts receive take_packet
  tp_recv-rtk_frame line tp f cs w serial opened sends receives set on plain e =
      let d =
        serial_recv-rtk_frame tp.device f tp.client tp_retry_nak cs w serial opened sends receives
          e in
      (
        d.0,
        rw
            (
              ap (λ k. k == conn_com) serial,
              on,
              set,
              d.1,
              ne→== (native_command command) rtk_cmd_nak plain,
            )
            refl,
      )
