-- ===== src/Robotalk/Receive.antt =====
-- rtk_recv of library/src/dn_robotalk.c on a serial line, over the reads of the driver.
pub mod Sound
pub mod Frames
pub mod Unchecked
use denso_ipc.Prelude.{
  ℕ, zero, suc, ◌+◌, leb, ltb, ◌==◌, if◌then◌else◌, Bool, true, false, List, [], ◌∷◌, ◌++◌, Option,
  none, some, length, take, drop, of_le,
}
use denso_ipc.Outcome.{Hresult, Outcome, ok, err, fault, bind, catch, e_invalidpacket}
use denso_ipc.Device.{ConnParamCommon}
use denso_ipc.Bcap.Writer.{store}
use denso_ipc.Bcap.Reader.{load}
use denso_ipc.Bcap.Send.{udp_max_packet}
use denso_ipc.Bcap.Receive.Serial.{Read, lost, read}
use denso_ipc.Robotalk.{
  rtk_enq, rtk_size_packet, rtk_size_header, rtk_size_crc, rtk_send_nak, check_sum,
}

-- How rtk_recv ends, with the reads that are left and the world of dn_send: S_OK with what the packet of the
-- caller holds then, an error, or it waits for a read.
pub data Reception {ℓ} (W : Type ℓ) : Type ℓ where
  returned : List ℕ → List Read → W → Reception W
  failing : Hresult → List Read → W → Reception W
  waits : W → Reception W

-- memchr, and the bytes moved to the front of `buf_tmp`.
unfoldable pub from_enq : List ℕ → List ℕ
from_enq [] = []
from_enq (b ∷ bs) = let later = from_enq bs in if b == rtk_enq then b ∷ bs else later

-- `len_recv` of the bytes behind the first one.
abbrev pub packet_size : List ℕ → ℕ
packet_size buf = rtk_size_header + rtk_size_crc + of_le (take 1 (drop 1 buf))

-- The bytes of the command in the order of the host.
unfoldable pub to_host : List ℕ → Outcome (List ℕ)
to_host packet =
    bind (load packet 2 1) (λ hi. bind (load packet 3 1) (λ lo. store packet 2 (lo ++ hi)))

-- The bytes in `buf_tmp`, or `len_recv` and `len_recved` while `packet_recv` is filled.
pub data Stage : Type 0 where
  seeking : List ℕ → Stage
  filling_up : ℕ → ℕ → Stage

module _ {ℓ} {W : Type ℓ} (malloc : ℕ → Bool) (heap : ℕ → List ℕ) (device : ConnParamCommon W) where
  -- The rest of the loop with a number of attempts left, from a stage, with the bytes of `packet_recv`.
  abbrev pub Rest : Type ℓ
  Rest = ℕ → Stage → List ℕ → W → Outcome (Reception W)

  -- Behind the NAK, with the attempts that are left.
  unfoldable pub again : Rest → ℕ → List Read → List ℕ → W → Outcome (Reception W)
  again rest zero later packet w = ok (failing e_invalidpacket later w)
  again rest (suc left) later packet w = rest left (seeking []) packet w

  -- The checksum, and a NAK if it is wrong.
  unfoldable pub verify : Rest → ℕ → List Read → List ℕ → W → Outcome (Reception W)
  unfolding again
  verify rest left later packet w = bind (check_sum packet) (λ good.
      if good
      then bind (to_host packet) (λ host. ok (returned host later w))
      else bind (load packet 4 1) (λ from_id. bind (load packet 5 1) (λ to_id.
        catch (rtk_send_nak malloc heap device (of_le from_id) (of_le to_id) w)
          (λ e. ok (failing e later w)) (again rest left later packet))))

  -- A length byte that is too large ends the attempt; after the last one the code is the S_OK of the last dn_recv.
  unfoldable pub pass_over : Rest → ℕ → List Read → List ℕ → W → Outcome (Reception W)
  pass_over rest zero later packet w = ok (returned packet later w)
  pass_over rest (suc left) later packet w = rest left (seeking []) packet w

  -- With a header in `buf_tmp`: the bytes go to `packet_recv`.
  unfoldable pub take_header : Rest → ℕ → List Read → List ℕ → List ℕ → W → Outcome (Reception W)
  unfolding pass_over verify
  take_header rest left later buf packet w =
      if ltb rtk_size_packet (packet_size buf)
      then pass_over rest left later packet w
      else bind (store packet 0 (take (packet_size buf) buf)) (λ packet'.
        if leb (packet_size buf) (length buf)
        then verify rest left later packet' w
        else rest left (filling_up (packet_size buf) (length buf)) packet' w)

  unfoldable pub seek : Rest → ℕ → List Read → List ℕ → List ℕ → W → Outcome (Reception W)
  unfolding take_header
  seek rest left later buf packet w =
      if leb (rtk_size_header + rtk_size_crc) (length buf)
      then take_header rest left later buf packet w
      else rest left (seeking buf) packet w

  unfoldable pub fill : Rest → ℕ → List Read → ℕ → ℕ → List ℕ → W → Outcome (Reception W)
  unfolding verify
  fill rest left later n k packet w =
      if leb n k then verify rest left later packet w else rest left (filling_up n k) packet w

  -- The loops, with the attempts that are left; a read of more bytes than the driver was asked for is a fault.
  unfoldable pub rtk_reads : List Read → Rest
  unfolding from_enq seek fill
  rtk_reads [] left stage packet w = ok (waits w)
  rtk_reads (lost e ∷ later) left stage packet w = ok (failing e later w)
  rtk_reads (read bytes ∷ later) left (seeking buf) packet w =
      if leb (length buf + length bytes) udp_max_packet
      then seek (rtk_reads later) left later (from_enq (buf ++ bytes)) packet w
      else fault
  rtk_reads (read bytes ∷ later) left (filling_up n k) packet w =
      if leb (k + length bytes) n
      then bind (store packet k bytes)
          (λ packet'. fill (rtk_reads later) left later n (k + length bytes) packet' w)
      else fault

  -- rtk_recv on a serial line, behind its checks.
  unfoldable pub rtk_recv_serial : List Read → ℕ → List ℕ → W → Outcome (Reception W)
  unfolding rtk_reads
  rtk_recv_serial reads retry_nak packet w = rtk_reads reads retry_nak (seeking []) packet w
