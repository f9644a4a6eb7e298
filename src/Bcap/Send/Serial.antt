-- ===== src/Bcap/Send/Serial.antt =====
-- Packets on a serial line: what bcap_send of library/src/bcap_common.c hands to the driver.
use denso_ipc.Prelude.{
  ℕ, ◌+◌, ◌-◌, ◌%◌, ◌^◌, ◌≤◌, ◌≡◌, subst, refl, true, false, List, [], ◌∷◌, ◌++◌, some,
  append_assoc, append-nil, length, length-append, length-replicate, length-to_le, to_le, drop,
  replicate, arith, le→ltb-false,
}
use denso_ipc.Outcome.{Outcome, ok}
use denso_ipc.Device.{ConnParamCommon, SendArg, null, check_conn_param-send, is_closed, conn_com}
use denso_ipc.Bcap.Platform.{Platform}
use denso_ipc.Bcap.Packet.{Packet, header, terminator}
use denso_ipc.Bcap.Wire.{head, entries, wire_size, filled, frame, AllWhole}
use denso_ipc.Bcap.Wire.Packets.{length-head, packet2bytary-frame}
use denso_ipc.Bcap.Wire.Sizes.{calc_size_packet-wire_size}
use denso_ipc.Bcap.Writer.{store, store_middle}
use denso_ipc.Bcap.Reader.{load, load-at}
use denso_ipc.Bcap.Crc.{calc_crc}
use denso_ipc.Variant.{count}
use denso_ipc.Bcap.Send.{
  send_mode, send_size, set_crc, with_crc, send_packet, bcap_send, udp_max_packet, size_crc,
}

module _ (p : Platform) where
  -- What the checksum covers: the packet behind the header, without the room for the checksum.
  unfoldable pub sealed_part : Packet → ℕ → List ℕ
  sealed_part packet len = drop 1 (head packet len) ++ entries p true packet.args

  unfoldable pub seal : Packet → List ℕ
  seal packet = to_le 2 (calc_crc (some (sealed_part packet (wire_size p packet + size_crc))))

  -- A packet on a serial line: the checksum stands before the terminator.
  unfoldable pub serial_frame : Packet → List ℕ
  serial_frame packet = filled p packet (wire_size p packet + size_crc) (seal packet)

module _ (p : Platform) (packet : Packet) where
  abbrev len : ℕ
  len = wire_size p packet + size_crc

  pub parts :
      (fill : List ℕ)
      → filled p packet len fill
        ≡ (header ∷ []) ++ (sealed_part p packet len ++ (fill ++ (terminator ∷ [])))
  unfolding filled sealed_part head
  parts fill = simp append_assoc

  pub length-sealed_part : length (sealed_part p packet len) + 2 ≡ wire_size p packet
  unfolding sealed_part wire_size head
  length-sealed_part =
      omega (
        arith,
        length-append (head packet len) (entries p true packet.args),
        length-head packet len,
      )

  loads : load (frame p packet len) 1 (len - 1 - size_crc - 1) ≡ ok (sealed_part p packet len)
  loads = rw (parts (replicate (len - wire_size p packet) 0)) (
      subst
        (λ n.
          load
            ((header ∷ [])
              ++ (sealed_part p packet len
                  ++ (replicate (len - wire_size p packet) 0 ++ (terminator ∷ []))))
            1 n
          ≡ ok (sealed_part p packet len))
        (omega (arith, length-sealed_part))
        (load-at (header ∷ []) (sealed_part p packet len)
          (replicate (len - wire_size p packet) 0 ++ (terminator ∷ []))))

  shape :
      (fill : List ℕ)
      → filled p packet len fill
        ≡ ((((header ∷ []) ++ sealed_part p packet len) ++ fill) ++ (terminator ∷ [])) ++ []
  unfolding filled sealed_part head
  shape fill = simp (append_assoc, append-nil)

  crc_place : len - size_crc - 1 ≡ length ((header ∷ []) ++ sealed_part p packet len)
  crc_place = omega (arith, length-sealed_part)

  length-seal : length (replicate {A = ℕ} (len - wire_size p packet) 0) ≡ length (seal p packet)
  unfolding seal
  length-seal = omega (
    arith,
    length-replicate {A = ℕ} (len - wire_size p packet) 0,
    length-to_le 2 (calc_crc (some (sealed_part p packet len))),
  )

  stores :
      store (frame p packet len) (len - size_crc - 1) (seal p packet) ≡ ok (serial_frame p packet)
  unfolding serial_frame
  stores =
      rw (shape (replicate (len - wire_size p packet) 0), crc_place, shape (seal p packet))
        (store_middle ((header ∷ []) ++ sealed_part p packet len)
          (replicate (len - wire_size p packet) 0) (terminator ∷ []) [] (seal p packet) length-seal)

  set_crc-frame : set_crc (frame p packet len) len ≡ ok (serial_frame p packet)
  unfolding set_crc seal
  set_crc-frame = rw loads stores

  -- If no array is NULL, `argc` counts the arguments, the packet with its checksum takes at most 503
  -- bytes, memory is there, and the socket is open and has a dn_send, bcap_send on a serial line
  -- is one call of dn_send with the described serial frame.
  pub bcap_send-serial_frame :
      {World : Type 0} (heap : ℕ → List ℕ) (device : ConnParamCommon World)
      (f : World → ℕ → List ℕ → SendArg → Outcome World)
      → device.kind ≡ conn_com
      → device.dn_send ≡ some f
      → is_closed device.sock ≡ false
      → AllWhole packet.args
      → packet.argc ≡ count packet.args
      → len ≤ udp_max_packet
      → p.malloc len ≡ true
      → length (heap len) ≡ len
      → (w : World)
      → bcap_send p heap (some device) (some packet) w
        ≡ f w device.sock (serial_frame p packet) null
  unfolding bcap_send send_mode send_size send_packet with_crc
  bcap_send-serial_frame heap device f serial sends opened whole counted short ample block w =
      rw
        (
          check_conn_param-send device f opened sends,
          serial,
          calc_size_packet-wire_size p packet counted,
          size,
          le→ltb-false udp_max_packet len short,
          ample,
          packet2bytary-frame p packet whole counted len (omega (arith, short)) (omega arith)
              (heap len) block,
          set_crc-frame,
          sends,
        )
        refl
    where
      size : (wire_size p packet % 2 ^ 32 + size_crc) % 2 ^ 32 ≡ len
      size = omega (arith, short)
