-- ===== src/Robotalk/Receive/Sound.antt =====
-- What rtk_recv of library/src/dn_robotalk.c delivers on a serial line.
use denso_ipc.Prelude.{
  ◌≤◌, ◌==◌, le→ltb-false, arith, append_assoc, ℕ, zero, suc, ◌+◌, leb, ◌≡◌, refl, Bool, Bool-cases,
  inl, inr, true, List, [], ◌∷◌, ◌++◌, length, take, of_le,
}
use denso_ipc.Outcome.{Outcome, ok, err, fault, stuck}
use denso_ipc.Outcome.All.{All, bind-All, catch-All, if-All, any-All}
use denso_ipc.Device.{ConnParamCommon}
use denso_ipc.Bcap.Writer.{store}
use denso_ipc.Bcap.Reader.{load}
use denso_ipc.Bcap.Send.{udp_max_packet}
use denso_ipc.Bcap.Receive.Serial.{Read, lost, read}
use denso_ipc.Robotalk.{
  rtk_enq, rtk_max_data, rtk_size_packet, rtk_size_header, rtk_size_crc, rtk_send_nak, check_sum,
}
use denso_ipc.Robotalk.Receive.{
  Reception, returned, failing, waits, from_enq, packet_size, to_host, Stage, seeking, filling_up,
  Rest, again, verify, take_header, seek, fill, rtk_reads, rtk_recv_serial,
}

-- The packet that is returned with S_OK had, before its command was put in the order of the host, a right checksum.
unfoldable pub IsSound {ℓ} : {W : Type ℓ} → Reception W → Type 0
IsSound (returned host later w) =
    (packet : List ℕ) × (check_sum packet ≡ ok true) × (to_host packet ≡ ok host)
IsSound (failing e later w) = Unit
IsSound (waits w) = Unit

-- Nowhere does ENQ stand before a byte above 248.
abbrev pub IsClear : List ℕ → Type 0
IsClear [] = Unit
IsClear (a ∷ []) = Unit
IsClear (a ∷ b ∷ bs) = (a ≡ rtk_enq → b ≤ rtk_max_data) × IsClear (b ∷ bs)

-- The bytes that the driver hands over.
abbrev pub bytes_of : List Read → List ℕ
bytes_of [] = []
bytes_of (lost e ∷ later) = bytes_of later
bytes_of (read bytes ∷ later) = bytes ++ bytes_of later

IsClear-tail : (x : ℕ) (xs : List ℕ) → IsClear (x ∷ xs) → IsClear xs
IsClear-tail x [] h = tt
IsClear-tail x (y ∷ xs) h = h.1

IsClear-drop : (xs ys : List ℕ) → IsClear (xs ++ ys) → IsClear ys
IsClear-drop [] ys h = h
IsClear-drop (x ∷ xs) ys h = IsClear-drop xs ys (IsClear-tail x (xs ++ ys) h)

from_enq-IsClear : (xs ys : List ℕ) → IsClear (xs ++ ys) → IsClear (from_enq xs ++ ys)
unfolding from_enq
from_enq-IsClear [] ys h = h
from_enq-IsClear (x ∷ xs) ys h = elim (Bool-cases (x == rtk_enq)) [
  | inl e ↦ rw e h
  | inr e ↦ rw e (from_enq-IsClear xs ys (IsClear-tail x (xs ++ ys) h))
]

size_after_enq :
    (x : ℕ) (xs ys : List ℕ)
    → x ≡ rtk_enq
    → IsClear (x ∷ (xs ++ ys))
    → packet_size (x ∷ xs) ≤ rtk_size_packet
unfolding of_le
size_after_enq x [] ys e h = omega arith
size_after_enq x (n ∷ xs) ys e h = omega (arith, h.0 e)

from_enq-size :
    (xs ys : List ℕ) → IsClear (from_enq xs ++ ys) → packet_size (from_enq xs) ≤ rtk_size_packet
unfolding from_enq of_le
from_enq-size [] ys h = omega arith
from_enq-size (x ∷ xs) ys h = elim (Bool-cases (x == rtk_enq)) [
  | inl e ↦ rw e (size_after_enq x xs ys (ground arith) (rw e at h))
  | inr e ↦ rw e (from_enq-size xs ys (rw e at h))
]

-- What the stage holds in `buf_tmp`, with the bytes to come.
StageClear : Stage → List ℕ → Type 0
StageClear (seeking buf) later = IsClear (buf ++ later)
StageClear (filling_up n k) later = IsClear later

-- An outcome with what it is.
own : {A : Type 0} (o : Outcome A) → All (λ a. o ≡ ok a) o
unfolding All
own (ok a) = refl
own (err e) = tt
own fault = tt
own stuck = tt

module _ {ℓ} {W : Type ℓ} (malloc : ℕ → Bool) (heap : ℕ → List ℕ) (device : ConnParamCommon W) where
  Sound : List ℕ → Rest malloc heap device → Type ℓ
  Sound later rest =
      (left : ℕ) (stage : Stage) (packet : List ℕ) (w : W)
      → StageClear stage later
      → All IsSound (rest left stage packet w)

  again-Sound :
      (rest : Rest malloc heap device)
      → (left : ℕ) (later : List Read) → IsClear (bytes_of later)
      → Sound (bytes_of later) rest
      → (packet : List ℕ) (w : W) → All IsSound (again malloc heap device rest left later packet w)
  unfolding again All IsSound Sound StageClear
  again-Sound rest zero later h s packet w = tt
  again-Sound rest (suc left) later h s packet w = s left (seeking []) packet w h

  verify-Sound :
      (rest : Rest malloc heap device)
      → (left : ℕ) (later : List Read) → IsClear (bytes_of later)
      → Sound (bytes_of later) rest
      → (packet : List ℕ) (w : W) → All IsSound (verify malloc heap device rest left later packet w)
  unfolding verify All IsSound
  verify-Sound rest left later h s packet w =
      bind-All (λ good. check_sum packet ≡ ok good) IsSound (check_sum packet) _
        (own (check_sum packet))
        (λ good c. elim (Bool-cases good) [
          | inl e ↦ rw e (
              bind-All (λ host. to_host packet ≡ ok host) IsSound (to_host packet) _
                (own (to_host packet)) (λ host t. (packet, rw (← e) c, t)))
          | inr e ↦ rw e (
              bind-All (λ _. Unit {0}) IsSound (load packet 4 1) _ (any-All _ _ (λ _. tt))
                (λ from_id _.
                  bind-All (λ _. Unit {0}) IsSound (load packet 5 1) _ (any-All _ _ (λ _. tt))
                    (λ to_id _.
                      catch-All (λ _. Unit {0}) IsSound
                        (rtk_send_nak malloc heap device (of_le from_id) (of_le to_id) w) _ _
                        (any-All _ _ (λ _. tt)) (λ e. tt)
                        (λ w' _. again-Sound rest left later h s packet w'))))
        ])

  -- With the bytes behind the first ENQ in a buffer.
  take_header-Sound :
      (rest : Rest malloc heap device) (left : ℕ) (later : List Read)
      → Sound (bytes_of later) rest
      → (buf packet : List ℕ) (w : W) → IsClear (buf ++ bytes_of later)
      → packet_size buf ≤ rtk_size_packet
      → All IsSound (take_header malloc heap device rest left later buf packet w)
  unfolding take_header Sound StageClear
  take_header-Sound rest left later s buf packet w h fits =
      rw (le→ltb-false rtk_size_packet (packet_size buf) fits) (
        bind-All (λ _. Unit {0}) IsSound (store packet 0 (take (packet_size buf) buf)) _
          (any-All _ _ (λ _. tt))
          (λ packet' _.
            if-All IsSound (leb (packet_size buf) (length buf)) _ _
              (verify-Sound rest left later (IsClear-drop buf (bytes_of later) h) s packet' w)
              (s left (filling_up (packet_size buf) (length buf)) packet' w
                (IsClear-drop buf (bytes_of later) h))))

  rtk_reads-Sound :
      (reads : List Read) → Sound (bytes_of reads) (rtk_reads malloc heap device reads)
  unfolding rtk_reads seek fill All IsSound Sound StageClear
  rtk_reads-Sound [] left stage packet w h = tt
  rtk_reads-Sound (lost e ∷ later) left stage packet w h = tt
  rtk_reads-Sound (read bytes ∷ later) left (seeking buf) packet w h =
      let clear : IsClear (from_enq (buf ++ bytes) ++ bytes_of later) =
        from_enq-IsClear (buf ++ bytes) (bytes_of later)
          (rw (append_assoc buf bytes (bytes_of later)) h) in
      if-All IsSound (leb (length buf + length bytes) udp_max_packet) _ fault
        (if-All IsSound (leb (rtk_size_header + rtk_size_crc) (length (from_enq (buf ++ bytes)))) _
          _
          (take_header-Sound (rtk_reads malloc heap device later) left later (rtk_reads-Sound later)
            (from_enq (buf ++ bytes)) packet w clear
            (from_enq-size (buf ++ bytes) (bytes_of later) clear))
          (rtk_reads-Sound later left (seeking (from_enq (buf ++ bytes))) packet w clear))
        tt
  rtk_reads-Sound (read bytes ∷ later) left (filling_up n k) packet w h =
      let clear : IsClear (bytes_of later) = IsClear-drop bytes (bytes_of later) h in
      if-All IsSound (leb (k + length bytes) n) _ fault
        (bind-All (λ _. Unit {0}) IsSound (store packet k bytes) _ (any-All _ _ (λ _. tt))
          (λ packet' _.
            if-All IsSound (leb n (k + length bytes)) _ _
              (verify-Sound (rtk_reads malloc heap device later) left later clear
                (rtk_reads-Sound later) packet' w)
              (rtk_reads-Sound later left (filling_up n (k + length bytes)) packet' w clear)))
        tt

  -- If nowhere in the bytes that the driver hands over ENQ stands before a byte above 248, then a packet that rtk_recv returns
  -- with S_OK on a serial line comes, by the change of its command to the order of the host, from one with a right checksum.
  pub rtk_recv_serial-IsSound :
      (reads : List Read) (retry_nak : ℕ) (packet : List ℕ) (w : W)
      → IsClear (bytes_of reads)
      → All IsSound (rtk_recv_serial malloc heap device reads retry_nak packet w)
  unfolding rtk_recv_serial Sound StageClear
  rtk_recv_serial-IsSound reads retry_nak packet w h =
      rtk_reads-Sound reads retry_nak (seeking []) packet w h
