-- ===== src/Robotalk/Receive/Unchecked.antt =====
-- Reads with a wrong length, on which rtk_recv of library/src/dn_robotalk.c passes over a packet.
use denso_ipc.Prelude.{
  suc, ℕ, ◌+◌, ◌≤◌, ◌<◌, ◌≡◌, refl, ◌∙◌, Bool, List, [], ◌∷◌, ◌++◌, map, length, of_le, le→leb,
  lt→ltb, eq→==, arith,
}
use denso_ipc.Outcome.{ok}
use denso_ipc.Device.{ConnParamCommon}
use denso_ipc.Bcap.Send.{udp_max_packet}
use denso_ipc.Bcap.Receive.Serial.{Read, read}
use denso_ipc.Robotalk.{rtk_enq, rtk_size_packet, rtk_max_data}
use denso_ipc.Robotalk.Frame.{of_byte}
use denso_ipc.Robotalk.Receive.{
  returned, from_enq, seeking, pass_over, take_header, seek, rtk_reads, rtk_recv_serial,
}

-- A read that begins with ENQ and a length above 248, of at least eight bytes and no more than 503.
unfoldable pub IsLong : List ℕ → Type 0
IsLong (e ∷ n ∷ more) = (e ≡ rtk_enq) × (rtk_max_data < n) × (6 ≤ length more) × (length more ≤ 501)
IsLong _ = ⊥

abbrev pub AllLong : List (List ℕ) → Type 0
AllLong [] = Unit
AllLong (x ∷ xs) = IsLong x × AllLong xs

module _ {ℓ} {W : Type ℓ} (malloc : ℕ → Bool) (heap : ℕ → List ℕ) (device : ConnParamCommon W) where
  -- Such a read ends the attempt.
  rtk_reads-long :
      (x : List ℕ) (later : List Read) (left : ℕ) (packet : List ℕ) (w : W)
      → IsLong x
      → rtk_reads malloc heap device (read x ∷ later) left (seeking []) packet w
        ≡ pass_over malloc heap device (rtk_reads malloc heap device later) left later packet w
  unfolding IsLong rtk_reads from_enq seek take_header
  rtk_reads-long [] later left packet w h = absurd h
  rtk_reads-long (e ∷ []) later left packet w h = absurd h
  rtk_reads-long (e ∷ n ∷ more) later left packet w h =
      rw
        (
          eq→== e rtk_enq h.0,
          le→leb (0 + length (e ∷ n ∷ more)) udp_max_packet (omega (arith, h.3)),
          le→leb 8 (length (e ∷ n ∷ more)) (omega (arith, h.2)),
          lt→ltb rtk_size_packet (8 + of_le (n ∷ [])) (omega (arith, h.1, of_byte n)),
        )
        refl

  -- If on a serial line the driver hands over, for each attempt of rtk_recv, a read of 8 to 503 bytes that begins with ENQ
  -- and a length above 248, then after the last one rtk_recv returns S_OK with the packet as the caller passed it, whatever it
  -- holds, and without a NAK.
  pub rtk_recv_serial-unchecked :
      (x : List ℕ) (xs : List (List ℕ)) (later : List Read) (packet : List ℕ) (w : W)
      → AllLong (x ∷ xs)
      → rtk_recv_serial malloc heap device (map read (x ∷ xs) ++ later) (length xs) packet w
        ≡ ok (returned packet later w)
  unfolding rtk_recv_serial pass_over
  rtk_recv_serial-unchecked x [] later packet w h = rtk_reads-long x later 0 packet w h.0
  rtk_recv_serial-unchecked x (y ∷ ys) later packet w h =
      rtk_reads-long x (map read (y ∷ ys) ++ later) (suc (length ys)) packet w h.0
      ∙ rtk_recv_serial-unchecked y ys later packet w h.1
