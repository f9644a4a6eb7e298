-- ===== src/Bcap/Receive/Serial/Chunks.antt =====
-- A frame on a serial line reaches the caller of bcap_recv, library/src/bcap_common.c, however the driver cuts it.
use denso_ipc.Prelude.{
  ℕ, of_le, le→ltb-false, le→leb, ◌+◌, ◌≤◌, ◌<◌, ◌≡◌, refl, sym, ap, subst, ◌∙◌, inl, inr, leb, ltb,
  if◌then◌else◌, Bool-cases, true, false, List, [], ◌∷◌, ◌++◌, map, length, drop, length-append,
  append_assoc, arith,
}
use denso_ipc.Outcome.{Outcome, ok, bind, fault}
use denso_ipc.Device.{conn_com}
use denso_ipc.Bcap.Platform.{Platform}
use denso_ipc.Bcap.Packet.{Packet, header}
use denso_ipc.Bcap.Send.{udp_max_packet}
use denso_ipc.Bcap.Receive.{unpack}
use denso_ipc.Bcap.Receive.Serial.{
  Read, read, Caller, Phase, gathering, filling, End, received, from_header, size_start, len_min,
  len_recv, settle, finish, proceed, recv_serial,
}
use denso_ipc.Bcap.Receive.Serial.Noise.{
  IsNoise, from_header-append, IsNoise-append, cut_cases, from_header-prefix, take-prefix,
  take-long, take-drop_one,
}

-- The bytes of all chunks.
unfoldable pub joined : List (List ℕ) → List ℕ
joined [] = []
joined (x ∷ xs) = x ++ joined xs

-- Each chunk fits behind the bytes that may be gathered already.
abbrev pub AllFit : List (List ℕ) → Type 0
AllFit [] = Unit
AllFit (x ∷ xs) = (length x + 4 ≤ udp_max_packet) × AllFit xs

-- What an incoming frame for a caller is: bytes that the decoder turns into the packet, with their number in
-- the length field, and memory for them.
pub record Carries (p : Platform) (c : Caller) (frame : List ℕ) (packet : Packet) : Type 0 where
  pub led : (bytes : List ℕ) × (frame ≡ header ∷ bytes)
  pub says : len_recv frame ≡ length frame
  pub long : len_min ≤ length frame
  pub short : length frame ≤ udp_max_packet
  pub memory : p.malloc (length frame) ≡ true
  pub decodes : unpack p conn_com frame (length frame) c.argc c.room ≡ ok (packet, true)

-- The packet is received, and the later reads are left.
abbrev pub Delivers : Outcome End → Packet → Type 0
Delivers o packet = (later : List Read) × (o ≡ ok (received packet later))

module _ (p : Platform) (c : Caller) (frame : List ℕ) (packet : Packet)
    (carries : Carries p c frame packet) where
  whole : (b rest : List ℕ) → b ++ rest ≡ frame → length frame ≤ length b → b ≡ frame
  whole b rest e h =
      sym (take-long b (length frame) (omega (arith, ap length e, length-append b rest)))
      ∙ take-prefix b rest frame (length frame) e h
      ∙ take-long frame (length frame) (omega arith)

  proceed-Delivers :
      (cs : List (List ℕ)) (later : List Read) (b : List ℕ) (go : Phase → Caller → Outcome End)
      → b ++ joined cs ≡ frame
      → (length b < length frame → Delivers (go (filling (length frame) b) c) packet)
      → Delivers (proceed p go later c (filling (length frame) b)) packet
  unfolding proceed finish
  proceed-Delivers cs later b go e ih = elim (Bool-cases (leb (length frame) (length b))) [
    | inl t ↦ (later, rw (t, whole b (joined cs) e (ground arith), carries.decodes) refl)
    | inr f ↦ ((ih (ground arith)).0, rw f (ih (ground arith)).1)
  ]

  fill-Delivers :
      (cs : List (List ℕ)) (b : List ℕ)
      → b ++ joined cs ≡ frame
      → length b < length frame
      → Delivers (recv_serial p (map read cs) (filling (length frame) b) c) packet
  unfolding recv_serial joined
  fill-Delivers [] b e h = absurd (omega (arith, h, ap length e, length-append b []))
  fill-Delivers (x ∷ cs) b e h = enough b x (joined cs) e (
      proceed-Delivers cs (map read cs) (b ++ x) (recv_serial p (map read cs))
        (append_assoc b x (joined cs) ∙ e)
        (fill-Delivers cs (b ++ x) (append_assoc b x (joined cs) ∙ e)))
    where
      enough :
          (b x rest : List ℕ)
          → b ++ (x ++ rest) ≡ frame
          → {o : Outcome End} → Delivers o packet
          → Delivers (if leb (length b + length x) (length frame) then o else fault) packet
      enough b x rest e d = (
        d.0,
        rw
            (le→leb (length b + length x) (length frame)
              (omega (arith, ap length e, length-append b (x ++ rest), length-append x rest)))
            d.1,
      )

  same_len :
      (b rest : List ℕ)
      → b ++ rest ≡ frame
      → ltb (length b) size_start ≡ false
      → len_recv b ≡ length frame
  same_len b rest e f =
      ap of_le (
        take-drop_one b
        ∙ ap (drop 1) (take-prefix b rest frame 5 e (ground arith))
        ∙ sym (take-drop_one frame))
      ∙ carries.says

  settle-whole :
      (b rest : List ℕ)
      → b ++ rest ≡ frame
      → ltb (length b) size_start ≡ false
      → settle p.malloc b ≡ ok (filling (length frame) b)
  unfolding settle
  settle-whole b rest e f =
      rw
        (
          f,
          same_len b rest e f,
          le→ltb-false (length frame) len_min carries.long,
          le→ltb-false udp_max_packet (length frame) carries.short,
          carries.memory,
          take-long b (length frame) (omega (arith, ap length e, length-append b rest)),
        )
        refl

  settle-short :
      (b : List ℕ) → ltb (length b) size_start ≡ true → settle p.malloc b ≡ ok (gathering b)
  unfolding settle
  settle-short b t = rw t refl

  settle-Delivers :
      (cs : List (List ℕ)) (later : List Read) (b : List ℕ)
      → b ++ joined cs ≡ frame
      → (go : Phase → Caller → Outcome End) → (length b ≤ 4 → Delivers (go (gathering b) c) packet)
      → (length b < length frame → Delivers (go (filling (length frame) b) c) packet)
      → Delivers (bind (settle p.malloc (from_header b)) (proceed p go later c)) packet
  unfolding proceed
  settle-Delivers cs later b e go short long =
      rw (from_header-prefix b (joined cs) carries.led.0 (e ∙ carries.led.1))
        (elim (Bool-cases (ltb (length b) size_start)) [
          | inl t ↦ rw (settle-short b t) (short (ground arith))
          | inr f ↦ rw (settle-whole b (joined cs) e f) (proceed-Delivers cs later b go e long)
        ])

  gather-Delivers :
      (cs : List (List ℕ)) (b : List ℕ)
      → b ++ joined cs ≡ frame
      → length b ≤ 4
      → AllFit cs
      → Delivers (recv_serial p (map read cs) (gathering b) c) packet
  unfolding recv_serial joined
  gather-Delivers [] b e h fit =
      absurd (omega (arith, h, ap length e, length-append b [], carries.long))
  gather-Delivers (x ∷ cs) b e h fit =
      rw (le→leb (length b + length x) udp_max_packet (omega (arith, h, fit.0))) (
        settle-Delivers cs (map read cs) (b ++ x) (append_assoc b x (joined cs) ∙ e)
          (recv_serial p (map read cs))
          (λ small. gather-Delivers cs (b ++ x) (append_assoc b x (joined cs) ∙ e) small fit.1)
          (fill-Delivers cs (b ++ x) (append_assoc b x (joined cs) ∙ e)))

  quiet-Delivers :
      (later : List Read) (x : List ℕ) (go : Phase → Caller → Outcome End)
      → IsNoise x
      → Delivers (go (gathering []) c) packet
      → Delivers (bind (settle p.malloc (from_header x)) (proceed p go later c)) packet
  unfolding settle proceed
  quiet-Delivers later x go quiet d =
      subst (λ y. Delivers (bind (settle p.malloc y) (proceed p go later c)) packet) (sym quiet) d

  skip-Delivers :
      (later : List Read) (x y : List ℕ) (go : Phase → Caller → Outcome End)
      → from_header x ≡ from_header y
      → Delivers (bind (settle p.malloc (from_header y)) (proceed p go later c)) packet
      → Delivers (bind (settle p.malloc (from_header x)) (proceed p go later c)) packet
  skip-Delivers later x y go same d =
      subst (λ z. Delivers (bind (settle p.malloc z) (proceed p go later c)) packet) (sym same) d

  -- If noise without a header byte stands before a frame that carries a packet, and the driver cuts noise and frame
  -- into pieces in any way, of at most 499 bytes each, bcap_recv on a serial line returns the packet.
  pub recv_serial-noise :
      (cs : List (List ℕ)) (noise : List ℕ)
      → joined cs ≡ noise ++ frame
      → IsNoise noise
      → AllFit cs
      → Delivers (recv_serial p (map read cs) (gathering []) c) packet
  unfolding recv_serial joined
  recv_serial-noise [] noise e quiet fit =
      absurd (omega (arith, ap length e, length-append noise frame, carries.long))
  recv_serial-noise (x ∷ cs) noise e quiet fit =
      rw (le→leb (0 + length x) udp_max_packet (omega (arith, fit.0)))
        (elim (cut_cases x (joined cs) noise frame e) [
          | inl (rest, f, g) ↦
              quiet-Delivers (map read cs) x (recv_serial p (map read cs))
                (IsNoise-append x rest (subst IsNoise f quiet)).0
                (recv_serial-noise cs rest g (IsNoise-append x rest (subst IsNoise f quiet)).1
                  fit.1)
          | inr (rest, f, g) ↦
              skip-Delivers (map read cs) x rest (recv_serial p (map read cs))
                (ap from_header f ∙ from_header-append noise rest quiet)
                (settle-Delivers cs (map read cs) rest g (recv_serial p (map read cs))
                  (λ small. gather-Delivers cs rest g small fit.1) (fill-Delivers cs rest g))
        ])
