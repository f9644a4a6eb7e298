-- ===== src/Robotalk/Receive/Frames.antt =====
-- A ROBOTalk packet on a serial line reaches the caller of rtk_recv, library/src/dn_robotalk.c, however the driver cuts it.
use denso_ipc.Prelude.{
  ℕ, ◌+◌, ◌%◌, ◌/◌, ◌≤◌, ◌<◌, ◌≡◌, refl, sym, ap, ◌∙◌, leb, Bool, Bool-cases, inl, inr, List, [],
  ◌∷◌, ◌++◌, map, length, take, drop, of_le, length-append, length-drop, append_assoc, drop-drop,
  le→leb, le→ltb-false, eq→==, arith,
}
use denso_ipc.Outcome.{Outcome, ok}
use denso_ipc.Device.{ConnParamCommon}
use denso_ipc.Bcap.Writer.{store, store-at}
use denso_ipc.Bcap.Reader.{load, load-at}
use denso_ipc.Bcap.Send.{udp_max_packet}
use denso_ipc.Bcap.Receive.Serial.{Read, read}
use denso_ipc.Bcap.Receive.Serial.Chunks.{joined}
use denso_ipc.Bcap.Receive.Serial.Noise.{first, take-prefix, take-long}
use denso_ipc.Robotalk.{rtk_enq, rtk_size_packet, rtk_max_data, to_be, sum_bytes}
use denso_ipc.Robotalk.Frame.{fields, rtk_frame, length-rtk_frame, of_byte, check_sum-rtk_frame}
use denso_ipc.Robotalk.Receive.{
  Reception, returned, from_enq, packet_size, to_host, seeking, filling_up, Rest, verify,
  take_header, seek, fill, rtk_reads, rtk_recv_serial,
}

from_enq-prefix : (b rest bytes : List ℕ) → b ++ rest ≡ rtk_enq ∷ bytes → from_enq b ≡ b
unfolding from_enq first
from_enq-prefix [] rest bytes e = refl
from_enq-prefix (h ∷ b) rest bytes e = rw (eq→== h rtk_enq (ap (first h) e)) refl

to_host-bytes : (a b c d : ℕ) (t : List ℕ) → to_host (a ∷ b ∷ c ∷ d ∷ t) ≡ ok (a ∷ b ∷ d ∷ c ∷ t)
unfolding to_host
to_host-bytes a b c d t = rw (hi, lo) swapped
  where
    hi : load (a ∷ b ∷ c ∷ d ∷ t) 2 1 ≡ ok (c ∷ [])
    hi = load-at (a ∷ b ∷ []) (c ∷ []) (d ∷ t)

    lo : load (a ∷ b ∷ c ∷ d ∷ t) 3 1 ≡ ok (d ∷ [])
    lo = load-at (a ∷ b ∷ c ∷ []) (d ∷ []) t

    swapped : store (a ∷ b ∷ c ∷ d ∷ t) 2 (d ∷ c ∷ []) ≡ ok (a ∷ b ∷ d ∷ c ∷ t)
    swapped = store-at (a ∷ b ∷ []) (c ∷ d ∷ t) (d ∷ c ∷ []) (omega arith)

take-drop_one : (b : List ℕ) → take 1 (drop 1 b) ≡ drop 1 (take 2 b)
take-drop_one [] = refl
take-drop_one (x ∷ b) = refl

-- The packet as the receiver has it: the command in the order of the host.
unfoldable pub host_frame : ℕ → List ℕ → ℕ → ℕ → List ℕ
host_frame command data_ from_id to_id =
    (rtk_enq ∷ length data_ ∷ command % 256 ∷ command / 256 % 256 ∷ from_id ∷ to_id ∷ data_)
    ++ to_be (sum_bytes 0 (fields command (length data_) from_id to_id ++ data_))

module _ (command : ℕ) (data_ : List ℕ) (from_id to_id : ℕ)
    (few : length data_ ≤ rtk_max_data) where
  abbrev frame : List ℕ
  frame = rtk_frame command data_ from_id to_id

  long : length frame ≡ 8 + length data_
  long = length-rtk_frame command data_ from_id to_id few

  to_host-frame :
      (rest : List ℕ)
      → to_host (frame ++ rest) ≡ ok (host_frame command data_ from_id to_id ++ rest)
  unfolding rtk_frame fields to_be host_frame
  to_host-frame rest = to_host-bytes _ _ _ _ _

  module _ {ℓ} {W : Type ℓ} (malloc : ℕ → Bool) (heap : ℕ → List ℕ) (device : ConnParamCommon W)
      (packet : List ℕ) (size : length packet ≡ rtk_size_packet) where
    -- The packet when the first bytes are in place.
    abbrev begun : List ℕ → List ℕ
    begun b = b ++ drop (length b) packet

    -- The packet is delivered, and later reads are left.
    abbrev pub Delivers : Outcome (Reception W) → W → Type ℓ
    Delivers o w =
        (later : List Read) × (o
          ≡ ok (
              returned (host_frame command data_ from_id to_id ++ drop (8 + length data_) packet)
                later w))

    store-begun :
        (b x rest : List ℕ)
        → b ++ (x ++ rest) ≡ frame
        → store (begun b) (length b) x ≡ ok (begun (b ++ x))
    store-begun b x rest e =
        store-at b (drop (length b) packet) x (
          omega (
            arith,
            few,
            size,
            long,
            length-drop (length b) packet,
            ap length e,
            length-append b (x ++ rest),
            length-append x rest,
          ))
        ∙ ap ok (
            rw
              (
                drop-drop (length b) (length x) (length (b ++ x)) packet (length-append b x),
                append_assoc b x (drop (length (b ++ x)) packet),
              )
              refl)

    verify-Delivers :
        (rest : Rest malloc heap device) (left : ℕ) (later : List Read) (w : W)
        → Delivers (verify malloc heap device rest left later (begun frame) w) w
    unfolding verify
    verify-Delivers rest left later w = (
      later,
      rw
          (
            check_sum-rtk_frame command data_ from_id to_id few (drop (length frame) packet),
            to_host-frame (drop (length frame) packet),
            long,
          )
          refl,
    )

    whole : (b rest : List ℕ) → b ++ rest ≡ frame → length frame ≤ length b → b ≡ frame
    whole b rest e h =
        sym (take-long b (length frame) (omega (arith, ap length e, length-append b rest)))
        ∙ take-prefix b rest frame (length frame) e h
        ∙ take-long frame (length frame) (omega arith)

    -- The packet is filled with the first bytes, and the rest delivers it if bytes are missing.
    fill-Delivers :
        (rest : Rest malloc heap device) (left : ℕ) (later : List Read) (b missing : List ℕ) (w : W)
        → b ++ missing ≡ frame
        → (length b < length frame
            → Delivers (rest left (filling_up (length frame) (length b)) (begun b) w) w)
        → Delivers (fill malloc heap device rest left later (length frame) (length b) (begun b) w) w
    unfolding fill
    fill-Delivers rest left later b missing w e go =
        elim (Bool-cases (leb (length frame) (length b))) [
          | inl t ↦ rw (t, whole b missing e (ground arith)) (verify-Delivers rest left later w)
          | inr f ↦ rw f (go (ground arith))
        ]

    filling-Delivers :
        (cs : List (List ℕ)) (left : ℕ) (b : List ℕ) (w : W)
        → b ++ joined cs ≡ frame
        → length b < length frame
        → Delivers
            (rtk_reads malloc heap device
              (map read cs)
              left
              (filling_up (length frame) (length b))
              (begun b)
              w)
            w
    unfolding rtk_reads joined
    filling-Delivers [] left b w e h = absurd (omega (arith, h, ap length e, length-append b []))
    filling-Delivers (x ∷ cs) left b w e h =
        rw
          (
            le→leb (length b + length x) (length frame) (
                omega (
                  arith,
                  ap length e,
                  length-append b (x ++ joined cs),
                  length-append x (joined cs),
                )),
            store-begun b x (joined cs) e,
            ← length-append b x,
          )
          (fill-Delivers (rtk_reads malloc heap device (map read cs)) left (map read cs) (b ++ x)
            (joined cs) w (append_assoc b x (joined cs) ∙ e)
            (filling-Delivers cs left (b ++ x) w (append_assoc b x (joined cs) ∙ e)))

    packet_size-prefix :
        (b rest : List ℕ) → b ++ rest ≡ frame → 8 ≤ length b → packet_size b ≡ length frame
    unfolding rtk_frame fields
    packet_size-prefix b rest e h =
        ap (λ t. 8 + of_le t)
          (take-drop_one b ∙ ap (drop 1) (take-prefix b rest frame 2 e (omega (arith, h))))
        ∙ ap (λ n. 8 + n) (of_byte (length data_))
        ∙ sym long

    take_header-Delivers :
        (rest : Rest malloc heap device) (left : ℕ) (later : List Read) (b missing : List ℕ) (w : W)
        → b ++ missing ≡ frame
        → 8 ≤ length b
        → (length b < length frame
            → Delivers (rest left (filling_up (length frame) (length b)) (begun b) w) w)
        → Delivers (take_header malloc heap device rest left later b packet w) w
    unfolding take_header fill
    take_header-Delivers rest left later b missing w e h go =
        rw
          (
            packet_size-prefix b missing e h,
            le→ltb-false rtk_size_packet (length frame) (omega (arith, long, few)),
            take-long b (length frame) (omega (arith, ap length e, length-append b missing)),
            store-begun [] b missing e,
          )
          (fill-Delivers rest left later b missing w e go)

    seek-Delivers :
        (rest : Rest malloc heap device) (left : ℕ) (later : List Read) (b missing : List ℕ) (w : W)
        → b ++ missing ≡ frame
        → (length b ≤ 7 → Delivers (rest left (seeking b) packet w) w)
        → (length b < length frame
            → Delivers (rest left (filling_up (length frame) (length b)) (begun b) w) w)
        → Delivers (seek malloc heap device rest left later (from_enq b) packet w) w
    unfolding seek rtk_frame fields
    seek-Delivers rest left later b missing w e short go =
        rw (from_enq-prefix b missing _ e) (elim (Bool-cases (leb 8 (length b))) [
          | inl t ↦ rw t (take_header-Delivers rest left later b missing w e (ground arith) go)
          | inr f ↦ rw f (short (ground arith))
        ])

    seeking-Delivers :
        (cs : List (List ℕ)) (left : ℕ) (b : List ℕ) (w : W)
        → b ++ joined cs ≡ frame
        → length b ≤ 7
        → Delivers (rtk_reads malloc heap device (map read cs) left (seeking b) packet w) w
    unfolding rtk_reads joined
    seeking-Delivers [] left b w e h =
        absurd (omega (arith, h, long, ap length e, length-append b []))
    seeking-Delivers (x ∷ cs) left b w e h =
        rw
          (le→leb (length b + length x) udp_max_packet (
            omega (
              arith,
              few,
              long,
              ap length e,
              length-append b (x ++ joined cs),
              length-append x (joined cs),
            )))
          (seek-Delivers (rtk_reads malloc heap device (map read cs)) left (map read cs) (b ++ x)
            (joined cs) w (append_assoc b x (joined cs) ∙ e)
            (λ small. seeking-Delivers cs left (b ++ x) w (append_assoc b x (joined cs) ∙ e) small)
            (filling-Delivers cs left (b ++ x) w (append_assoc b x (joined cs) ∙ e)))

    -- If the data has at most 248 bytes, then however a driver on a serial line cuts the bytes that rtk_send hands over for
    -- the packet, rtk_recv delivers it, with its command in the order of the host, and sends nothing.
    pub rtk_recv_serial-rtk_frame :
        (cs : List (List ℕ)) (retry_nak : ℕ) (w : W)
        → joined cs ≡ frame
        → Delivers (rtk_recv_serial malloc heap device (map read cs) retry_nak packet w) w
    unfolding rtk_recv_serial
    rtk_recv_serial-rtk_frame cs retry_nak w e = seeking-Delivers cs retry_nak [] w e (omega arith)
