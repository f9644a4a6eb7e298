-- ===== src/Bcap/RoundTrip.antt =====
-- What bcap_packet2bytary writes, bcap_bytary2packet reads back.
use denso_ipc.Prelude.{
  ℕ, suc, ◌+◌, ◌-◌, ◌*◌, ◌^◌, ◌≤◌, ◌<◌, ◌≡◌, ap, subst, sym, true, some, none, List, [], ◌∷◌, ◌++◌,
  append_assoc, append-nil, length, length-append, length-replicate, to_le, of_le, length-to_le,
  of_le-to_le, eq→==, le→ltb-false, replicate, arith,
}
use denso_ipc.Outcome.{Outcome, ok}
use denso_ipc.Variant.{scalar, string, null_array, numbers, strings, variants, Variants, nil, cons}
use denso_ipc.Bcap.Platform.{Platform}
use denso_ipc.Bcap.Packet.{Packet, header, terminator, size_min}
use denso_ipc.Bcap.Reader.{
  Reader, Parses, fetch, load, pure, ◌>>=◌, load-at, fetch-Parses, bind-Parses, map-Parses,
}
use denso_ipc.Bcap.Encode.{packet2bytary}
use denso_ipc.Bcap.Wire.{head, wire_size, frame, filled, entries, AllWhole}
use denso_ipc.Bcap.Wire.Packets.{length-head, packet2bytary-frame}
use denso_ipc.Bcap.Decode.{lift, prepare_args, get_entries, bytary2vnt, read_packet, bytary2packet}
use denso_ipc.Bcap.Decode.Exact.{IsExactPacket, AllExact}
use denso_ipc.Bcap.Decode.Nested.{get_entries-Parses}

module _ (p : Platform) (ample : (n : ℕ) → p.malloc n ≡ true) (packet : Packet)
    (exact : IsExactPacket p packet) (len : ℕ) (small : len < 2 ^ 32)
    (room : wire_size p packet ≤ len) (fill : List ℕ)
    (filling : length fill ≡ len - wire_size p packet) where
  abbrev lim : ℕ
  lim = len - 1

  lim_small : lim < 2 ^ 32
  lim_small = omega arith

  prepared : prepare_args p 0xffff none packet.argc ≡ ok (16 * packet.argc)
  unfolding prepare_args
  prepared = ground (arith, ample (16 * packet.argc))

  lift-Parses : {A : Type 0} (o : Outcome A) (a : A) → o ≡ ok a → Parses lim (lift o) [] a
  lift-Parses o a e pre post fits = rw (e, append-nil pre)

  word-then :
      {A : Type 0} (n v : ℕ) (k : ℕ → Reader A) (bs : List ℕ) (a : A)
      → v < 256 ^ n
      → Parses lim (k v) bs a
      → Parses lim (fetch n >>= λ w. k (of_le w)) (to_le n v ++ bs) a
  word-then n v k bs a h r =
      bind-Parses lim lim_small (fetch n) (λ w. k (of_le w)) (to_le n v) bs (to_le n v) a
        (fetch-Parses lim lim_small n (to_le n v) (length-to_le n v))
        (subst (λ x. Parses lim (k x) bs a) (sym (of_le-to_le n v h)) r)

  abbrev result : ℕ → ℕ → ℕ → ℕ → Variants → Packet
  result s r i n vs = record { serial = s; reserv = r; id = i; argc = n; args = vs }

  args_read :
      Parses lim
        (get_entries lim (bytary2vnt p lim len) true (16 * packet.argc) packet.argc 0)
        (entries p true packet.args)
        packet.args
  unfolding wire_size
  args_read =
      subst
        (λ n.
          Parses lim (get_entries lim (bytary2vnt p lim len) true (16 * packet.argc) n 0)
            (entries p true packet.args) packet.args)
        (sym exact.counted)
        (get_entries-Parses p ample lim lim_small packet.args true len (16 * packet.argc) 0
          exact.exact (omega (arith, exact.counted)) (omega arith))

  abbrev args_of : ℕ → ℕ → ℕ → ℕ → Reader Packet
  args_of s r i n = lift (prepare_args p 0xffff none n) >>= λ room.
      get_entries lim (bytary2vnt p lim len) true room n 0 >>= λ vs. pure (result s r i n vs)

  args_of-Parses :
      Parses lim
        (args_of packet.serial packet.reserv packet.id packet.argc)
        (entries p true packet.args)
        packet
  args_of-Parses =
      bind-Parses lim lim_small (lift (prepare_args p 0xffff none packet.argc))
        (λ room. get_entries lim (bytary2vnt p lim len) true room packet.argc 0 >>= λ vs.
          pure (result packet.serial packet.reserv packet.id packet.argc vs))
        [] (entries p true packet.args) (16 * packet.argc) packet
        (lift-Parses (prepare_args p 0xffff none packet.argc) (16 * packet.argc) prepared)
        (map-Parses lim lim_small
          (get_entries lim (bytary2vnt p lim len) true (16 * packet.argc) packet.argc 0)
          (result packet.serial packet.reserv packet.id packet.argc) (entries p true packet.args)
          packet.args args_read)

  abbrev fields : List ℕ
  fields =
      to_le 2 packet.serial
      ++ (to_le 2 packet.reserv
          ++ (to_le 4 packet.id ++ (to_le 2 packet.argc ++ entries p true packet.args)))

  read_packet-Parses : Parses lim (read_packet p len 0xffff none) fields packet
  unfolding read_packet
  read_packet-Parses =
      word-then 2 packet.serial
        (λ s. fetch 2 >>= λ r.
          fetch 4 >>= λ i. fetch 2 >>= λ n. args_of s (of_le r) (of_le i) (of_le n))
        _ packet exact.serial_fits
        (word-then 2 packet.reserv
          (λ r. fetch 4 >>= λ i. fetch 2 >>= λ n. args_of packet.serial r (of_le i) (of_le n)) _
          packet exact.reserv_fits
          (word-then 4 packet.id
            (λ i. fetch 2 >>= λ n. args_of packet.serial packet.reserv i (of_le n)) _ packet
            exact.id_fits
            (word-then 2 packet.argc (args_of packet.serial packet.reserv packet.id) _ packet
              exact.argc_fits args_of-Parses)))

  abbrev padding : List ℕ
  padding = fill ++ (terminator ∷ [])

  -- The packet as the reader meets it: the header, the length, the fields, and the rest.
  frame-split : filled p packet len fill ≡ (header ∷ []) ++ (to_le 4 len ++ (fields ++ padding))
  unfolding filled head
  frame-split = simp append_assoc

  frame_last :
      filled p packet len fill
      ≡ (head packet len ++ (entries p true packet.args ++ fill)) ++ ((terminator ∷ []) ++ [])
  unfolding filled
  frame_last = simp append_assoc

  last_place : len - 1 ≡ length (head packet len ++ (entries p true packet.args ++ fill))
  unfolding wire_size
  last_place = omega (
    arith,
    length-append (head packet len) (entries p true packet.args ++ fill),
    length-append (entries p true packet.args) (fill),
    length-head packet len,
    filling,
  )

  wide : size_min ≤ len
  unfolding wire_size
  wide = omega arith

  front : head packet len ++ entries p true packet.args ≡ ((header ∷ []) ++ to_le 4 len) ++ fields
  unfolding head
  front = simp append_assoc

  fits : length ((header ∷ []) ++ to_le 4 len) + length fields ≤ lim
  unfolding wire_size
  fits = omega (
    arith,
    ap length front,
    length-append (head packet len) (entries p true packet.args),
    length-head packet len,
    length-append ((header ∷ []) ++ to_le 4 len) fields,
  )

  -- A frame is read back.
  pub bytary2packet-filled :
      bytary2packet p (some (filled p packet len fill)) len 0xffff none ≡ ok packet
  unfolding bytary2packet of_le
  bytary2packet-filled = rw (
    le→ltb-false len size_min wide,
    length_read,
    eq→== _ _ (of_le-to_le 4 len small),
    header_read,
    terminator_read,
    body_read,
  )
    where
      length_read : load (filled p packet len fill) 1 4 ≡ ok (to_le 4 len)
      length_read = rw frame-split (
          subst
            (λ n.
              load ((header ∷ []) ++ (to_le 4 len ++ (fields ++ padding))) 1 n ≡ ok (to_le 4 len))
            (length-to_le 4 len) (load-at (header ∷ []) (to_le 4 len) (fields ++ padding)))

      header_read : load (filled p packet len fill) 0 1 ≡ ok (header ∷ [])
      header_read = rw frame-split (load-at [] (header ∷ []) (to_le 4 len ++ (fields ++ padding)))

      terminator_read : load (filled p packet len fill) (len - 1) 1 ≡ ok (terminator ∷ [])
      terminator_read =
          rw (frame_last, last_place)
            (load-at (head packet len ++ (entries p true packet.args ++ fill)) (terminator ∷ []) [])

      body_read :
          read_packet p len 0xffff none (filled p packet len fill) 5
          ≡ ok (packet, length (((header ∷ []) ++ to_le 4 len) ++ fields))
      body_read = rw frame-split (
          subst
            (λ n.
              read_packet p len 0xffff none ((header ∷ []) ++ (to_le 4 len ++ (fields ++ padding)))
                n
              ≡ ok (packet, length (((header ∷ []) ++ to_le 4 len) ++ fields)))
            {x = length ((header ∷ []) ++ to_le 4 len)} (ap suc (length-to_le 4 len))
            (read_packet-Parses ((header ∷ []) ++ to_le 4 len) padding fits))

-- Nothing exact is NULL.
pub AllExact-AllWhole : (p : Platform) (vs : Variants) → AllExact p vs → AllWhole vs
AllExact-AllWhole p nil h = tt
AllExact-AllWhole p (cons (scalar vt n) vs) h = (tt, AllExact-AllWhole p vs h.1)
AllExact-AllWhole p (cons (string s) vs) h = (tt, AllExact-AllWhole p vs h.1)
AllExact-AllWhole p (cons (null_array vt) vs) h = absurd h.0
AllExact-AllWhole p (cons (numbers vt ns) vs) h = (tt, AllExact-AllWhole p vs h.1)
AllExact-AllWhole p (cons (strings ss) vs) h = (tt, AllExact-AllWhole p vs h.1)
AllExact-AllWhole p (cons (variants ws) vs) h =
    (AllExact-AllWhole p ws h.0.1, AllExact-AllWhole p vs h.1)

-- With enough memory, what bcap_packet2bytary writes for an exact packet into a buffer of `len`
-- bytes, no fewer than the packet takes and fewer than 2 ^ 32, bcap_bytary2packet reads as the same
-- packet, if the caller leaves the array of arguments to it (`argc` -1, `args` NULL).
pub bytary2packet-packet2bytary :
    (p : Platform)
    → ((n : ℕ) → p.malloc n ≡ true)
    → (packet : Packet) → IsExactPacket p packet
    → (len : ℕ) → len < 2 ^ 32
    → wire_size p packet ≤ len
    → (dst : List ℕ) → length dst ≡ len
    → (bytes : List ℕ) × (packet2bytary p (some packet) (some dst) len ≡ ok bytes)
      × (bytary2packet p (some bytes) len 0xffff none ≡ ok packet)
bytary2packet-packet2bytary p ample packet exact len small room dst e = (
  frame p packet len,
  packet2bytary-frame p packet (AllExact-AllWhole p packet.args exact.exact) exact.counted len small
      room dst e,
  bytary2packet-filled p ample packet exact len small room (replicate (len - wire_size p packet) 0)
      (length-replicate {A = ℕ} (len - wire_size p packet) 0),
)
