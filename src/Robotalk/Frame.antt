-- ===== src/Robotalk/Frame.antt =====
-- library/src/dn_robotalk.c: what rtk_param2packet and rtk_send make of a command and its data.
use denso_ipc.Prelude.{
  ℕ, suc, ◌+◌, ◌%◌, ◌^◌, ◌≤◌, ◌<◌, ◌≡◌, refl, subst, sym, ap, true, false, List, [], ◌∷◌, ◌++◌,
  Option, none, some, drop, length, length-append, length-drop, append_assoc, append-nil, drop-drop,
  le→ltb-false, lt→ltb, eq→==, of_le, arith,
}
use denso_ipc.Outcome.{Outcome, ok, bind}
use denso_ipc.Device.{
  ConnParamCommon, SendArg, null, is_closed, check_conn_param, lacks, has, conn_com,
}
use denso_ipc.Bcap.Writer.{store, store-at}
use denso_ipc.Bcap.Reader.{load, load-at}
use denso_ipc.Robotalk.{
  rtk_enq, to_be, of_be, put_header, put_data, rtk_param2packet, sum_bytes, clamp, rtk_calc_crc,
  set_sum, rtk_arg, rtk_put, rtk_send, check_sum, rtk_max_data, rtk_size_packet, rtk_size_header,
  rtk_size_crc, rtk_check_send,
}

-- The header as bytes.
unfoldable pub fields : ℕ → ℕ → ℕ → ℕ → List ℕ
fields command len from_id to_id = rtk_enq ∷ len ∷ (to_be command ++ (from_id ∷ to_id ∷ []))

-- The bytes of a packet: header, data, and the sum of both.
unfoldable pub rtk_frame : ℕ → List ℕ → ℕ → ℕ → List ℕ
rtk_frame command data_ from_id to_id =
    (fields command (length data_) from_id to_id ++ data_)
    ++ to_be (sum_bytes 0 (fields command (length data_) from_id to_id ++ data_))

put_header-fields :
    (command len from_id to_id : ℕ) (buf : List ℕ)
    → 6 ≤ length buf
    → put_header command len from_id to_id buf ≡ ok (fields command len from_id to_id ++ drop 6 buf)
unfolding put_header fields to_be
put_header-fields c n f t [] h = absurd (omega arith)
put_header-fields c n f t (b0 ∷ []) h = absurd (omega arith)
put_header-fields c n f t (b0 ∷ b1 ∷ []) h = absurd (omega arith)
put_header-fields c n f t (b0 ∷ b1 ∷ b2 ∷ []) h = absurd (omega arith)
put_header-fields c n f t (b0 ∷ b1 ∷ b2 ∷ b3 ∷ []) h = absurd (omega arith)
put_header-fields c n f t (b0 ∷ b1 ∷ b2 ∷ b3 ∷ b4 ∷ []) h = absurd (omega arith)
put_header-fields c n f t (b0 ∷ b1 ∷ b2 ∷ b3 ∷ b4 ∷ b5 ∷ rest) h =
    rw
      (
        store-at [] (b0 ∷ b1 ∷ b2 ∷ b3 ∷ b4 ∷ b5 ∷ rest) (rtk_enq ∷ []) (omega arith),
        store-at (rtk_enq ∷ []) (b1 ∷ b2 ∷ b3 ∷ b4 ∷ b5 ∷ rest) (n ∷ []) (omega arith),
        store-at (rtk_enq ∷ n ∷ []) (b2 ∷ b3 ∷ b4 ∷ b5 ∷ rest) (to_be c) (omega arith),
        store-at (rtk_enq ∷ n ∷ to_be c) (b4 ∷ b5 ∷ rest) (f ∷ []) (omega arith),
      )
      (store-at (rtk_enq ∷ n ∷ (to_be c ++ (f ∷ []))) (b5 ∷ rest) (t ∷ []) (omega arith))

put_data-bytes :
    (h data_ rest : List ℕ)
    → length h ≡ 6
    → length data_ ≤ length rest
    → put_data (some data_) (length data_) (h ++ rest) ≡ ok (h ++ data_ ++ drop (length data_) rest)
unfolding put_data
put_data-bytes h [] rest six fits = rw (append-nil h) refl
put_data-bytes h (b ∷ bs) rest six fits =
    rw (lt→ltb 0 (suc (length bs)) (omega arith), whole)
      (subst (λ n. store (h ++ rest) n (b ∷ bs) ≡ ok (h ++ (b ∷ bs) ++ drop (suc (length bs)) rest))
        six (store-at h rest (b ∷ bs) fits))
  where
    whole : load (b ∷ bs) 0 (suc (length bs)) ≡ ok (b ∷ bs)
    whole =
        subst (λ xs. load xs 0 (suc (length bs)) ≡ ok (b ∷ bs)) (append-nil (b ∷ bs))
          (load-at [] (b ∷ bs) [])

pub of_byte : (n : ℕ) → of_le (n ∷ []) ≡ n
unfolding of_le
of_byte n = omega arith

sum_bytes-lt : (crc : ℕ) (bs : List ℕ) → crc < 2 ^ 16 → sum_bytes crc bs < 2 ^ 16
unfolding sum_bytes
sum_bytes-lt crc [] h = h
sum_bytes-lt crc (b ∷ bs) h = sum_bytes-lt ((crc + b) % 2 ^ 16) bs (omega arith)

of_be-to_be : (v : ℕ) → v < 2 ^ 16 → of_be (to_be v) ≡ v
unfolding of_be to_be
of_be-to_be v h = omega (arith, of_byte (v % 256))

two_bytes :
    (buf : List ℕ) (i v : ℕ)
    → load buf i (length (to_be v)) ≡ ok (to_be v)
    → load buf i 2 ≡ ok (to_be v)
unfolding to_be
two_bytes buf i v h = h

check_conn_param-serial :
    {World : Type 0} (device : ConnParamCommon World)
    (f : World → ℕ → List ℕ → SendArg → Outcome World)
    → device.kind ≡ conn_com
    → is_closed device.sock ≡ false
    → device.dn_send ≡ some f
    → check_conn_param (some device) rtk_check_send ≡ ok tt
unfolding check_conn_param lacks has
check_conn_param-serial device f serial opened sends = rw (opened, serial, sends) refl

rtk_arg-serial : (kind : ℕ) (arg : Option (List ℕ)) → kind ≡ conn_com → rtk_arg kind arg ≡ ok null
unfolding rtk_arg
rtk_arg-serial kind none e = rw e refl
rtk_arg-serial kind (some addr) e = rw e refl

module _ (command : ℕ) (data_ : List ℕ) (from_id to_id : ℕ)
    (few : length data_ ≤ rtk_max_data) where
  abbrev body : List ℕ
  body = fields command (length data_) from_id to_id ++ data_

  six : length (fields command (length data_) from_id to_id) ≡ 6
  unfolding fields to_be
  six = refl

  length-body : length body ≡ 6 + length data_
  unfolding fields to_be
  length-body = omega arith

  param2packet-body :
      (buf : List ℕ)
      → length buf ≡ rtk_size_packet
      → rtk_param2packet command (some data_) (length data_) from_id to_id (some buf)
        ≡ ok (body ++ drop (6 + length data_) buf)
  unfolding rtk_param2packet
  param2packet-body buf size =
      rw
        (
          le→ltb-false rtk_max_data (length data_) few,
          put_header-fields command (length data_) from_id to_id buf (omega (arith, size)),
          put_data-bytes (fields command (length data_) from_id to_id) data_ (drop 6 buf) six
              (omega (arith, size, length-drop 6 buf)),
          drop-drop 6 (length data_) (6 + length data_) buf refl,
          append_assoc (fields command (length data_) from_id to_id) data_
              (drop (6 + length data_) buf),
        )
        refl

  length_byte : (rest : List ℕ) → load (body ++ rest) 1 1 ≡ ok (length data_ ∷ [])
  unfolding fields to_be
  length_byte rest =
      load-at (rtk_enq ∷ []) (length data_ ∷ [])
        (to_be command ++ (from_id ∷ to_id ∷ (data_ ++ rest)))

  covered : (rest : List ℕ) → load (body ++ rest) 0 (6 + length data_) ≡ ok body
  covered rest = subst (λ n. load (body ++ rest) 0 n ≡ ok body) length-body (load-at [] body rest)

  clamped : clamp (length data_) ≡ length data_
  unfolding clamp
  clamped = rw (le→ltb-false rtk_max_data (length data_) few) refl

  calc_crc-body : (rest : List ℕ) → rtk_calc_crc (some (body ++ rest)) ≡ ok (sum_bytes 0 body)
  unfolding rtk_calc_crc
  calc_crc-body rest = rw (length_byte rest, of_byte (length data_), clamped, covered rest) refl

  set_sum-body :
      (rest : List ℕ)
      → 2 ≤ length rest
      → set_sum (body ++ rest) (length data_)
        ≡ ok (rtk_frame command data_ from_id to_id ++ drop 2 rest)
  unfolding set_sum rtk_frame to_be
  set_sum-body rest room = rw (calc_crc-body rest) (
      subst
        (λ n.
          store (body ++ rest) n (to_be (sum_bytes 0 body))
          ≡ ok ((body ++ to_be (sum_bytes 0 body)) ++ drop 2 rest))
        length-body (store-at body rest (to_be (sum_bytes 0 body)) room))

  pub length-rtk_frame :
      length (rtk_frame command data_ from_id to_id) ≡ rtk_size_header + rtk_size_crc + length data_
  unfolding rtk_frame to_be
  length-rtk_frame = omega (arith, length-body, length-append body (to_be (sum_bytes 0 body)))

  -- If the data has at most 248 bytes and the packet 256, and the socket is open and has a dn_send,
  -- the packet of rtk_param2packet is sent by rtk_send on a serial line with one call of dn_send,
  -- which gets the described bytes, and they are then the first of the packet.
  pub rtk_send-rtk_param2packet :
      {World : Type 0} (device : ConnParamCommon World)
      (f : World → ℕ → List ℕ → SendArg → Outcome World)
      → device.kind ≡ conn_com
      → is_closed device.sock ≡ false
      → device.dn_send ≡ some f
      → (buf : List ℕ) → length buf ≡ rtk_size_packet
      → (w : World)
      → bind
          (rtk_param2packet command (some data_) (length data_) from_id to_id (some buf))
          (λ packet. rtk_send device (some packet) w)
        ≡ bind
            (f w device.sock (rtk_frame command data_ from_id to_id) null)
            (λ w'. ok (w', rtk_frame command data_ from_id to_id ++ drop (8 + length data_) buf))
  unfolding rtk_send rtk_put
  rtk_send-rtk_param2packet device f serial opened sends buf size w =
      rw
        (
          param2packet-body buf size,
          checked,
          arg_null,
          length_byte (drop (6 + length data_) buf),
          of_byte (length data_),
          le→ltb-false rtk_size_packet (rtk_size_header + rtk_size_crc + length data_)
              (omega (arith, few)),
          set_sum-body (drop (6 + length data_) buf)
              (omega (arith, size, few, length-drop (6 + length data_) buf)),
          drop-drop (6 + length data_) 2 (8 + length data_) buf (omega arith),
          whole,
          sends,
        )
        refl
    where
      checked : check_conn_param (some device) rtk_check_send ≡ ok tt
      checked = check_conn_param-serial device f serial opened sends

      arg_null : rtk_arg device.kind device.arg ≡ ok null
      arg_null = rtk_arg-serial device.kind device.arg serial

      whole :
          load
            (rtk_frame command data_ from_id to_id ++ drop (8 + length data_) buf)
            0
            (rtk_size_header + rtk_size_crc + length data_)
          ≡ ok (rtk_frame command data_ from_id to_id)
      whole =
          subst
            (λ n.
              load (rtk_frame command data_ from_id to_id ++ drop (8 + length data_) buf) 0 n
              ≡ ok (rtk_frame command data_ from_id to_id))
            (length-rtk_frame)
            (load-at [] (rtk_frame command data_ from_id to_id) (drop (8 + length data_) buf))

  -- If the data has at most 248 bytes, the receiver finds the sum of a packet right that begins
  -- with the described bytes.
  pub check_sum-rtk_frame :
      (rest : List ℕ) → check_sum (rtk_frame command data_ from_id to_id ++ rest) ≡ ok true
  unfolding check_sum rtk_frame
  check_sum-rtk_frame rest =
      rw
        (
          append_assoc body (to_be (sum_bytes 0 body)) rest,
          calc_crc-body (to_be (sum_bytes 0 body) ++ rest),
          length_byte (to_be (sum_bytes 0 body) ++ rest),
          of_byte (length data_),
          stored,
        )
        (ap ok
          (eq→== _ _ (sym (of_be-to_be (sum_bytes 0 body) (sum_bytes-lt 0 body (omega arith))))))
    where
      stored :
          load
            (body ++ (to_be (sum_bytes 0 body) ++ rest))
            (rtk_size_header + length data_)
            rtk_size_crc
          ≡ ok (to_be (sum_bytes 0 body))
      stored =
          subst
            (λ n.
              load (body ++ (to_be (sum_bytes 0 body) ++ rest)) n rtk_size_crc
              ≡ ok (to_be (sum_bytes 0 body)))
            length-body (two_bytes _ _ _ (load-at body (to_be (sum_bytes 0 body)) rest))
