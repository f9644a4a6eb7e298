-- ===== src/Bcap/Crc.antt =====
-- The checksum of a packet on a serial line: bcap_calc_crc of library/src/bcap_common.c.
use denso_ipc.Prelude.{
  ℕ, zero, suc, ◌+◌, ◌-◌, ◌*◌, ◌/◌, ◌%◌, ◌^◌, ◌≤◌, ◌<◌, ◌≡◌, ◌≢◌, refl, sym, ap, subst, ◌∙◌, ◌⊎◌,
  inl, inr, List, [], ◌∷◌, ◌++◌, Option, none, some, if◌then◌else◌, ◌==◌, eq→==, ne→==, arith,
}
use denso_ipc.Prelude.Bits.{bit_xor-lt, bit_xor_step, bit_xor_cancel, bit_xor_comm, bit_xor_high}
use Prim.Native.Nat.{bit_xor}

-- One of the eight steps for a byte, `crc & 0x8000` being the sixteenth bit.
unfoldable pub crc_bit : ℕ → ℕ
crc_bit crc = if crc / 2 ^ 15 % 2 == 1 then bit_xor (crc * 2) 0x1021 % 2 ^ 16 else crc * 2 % 2 ^ 16

unfoldable pub crc_bits : ℕ → ℕ → ℕ
crc_bits zero crc = crc
crc_bits (suc n) crc = crc_bits n (crc_bit crc)

-- The round of the loop for one byte.
unfoldable pub crc_byte : ℕ → ℕ → ℕ
crc_byte crc b = crc_bits 8 (bit_xor crc (b * 2 ^ 8) % 2 ^ 16)

unfoldable pub crc_bytes : ℕ → List ℕ → ℕ
crc_bytes crc [] = crc
crc_bytes crc (b ∷ bs) = crc_bytes (crc_byte crc b) bs

-- The first `len_buf` bytes of the buffer are the list; NULL is none.
unfoldable pub calc_crc : Option (List ℕ) → ℕ
calc_crc none = 0xFFFF
calc_crc (some buf) = crc_bytes 0xFFFF buf

crc_bit-low : (c : ℕ) → c < 2 ^ 15 → crc_bit c ≡ c * 2
unfolding crc_bit
crc_bit-low c h = rw (ne→== (c / 2 ^ 15 % 2) 1 (λ e. omega (arith, e))) (omega arith)

crc_bit-high : (c : ℕ) → c < 2 ^ 15 → crc_bit (2 ^ 15 + c) ≡ bit_xor (c * 2) 0x1021
unfolding crc_bit
crc_bit-high c h = rw (eq→== ((2 ^ 15 + c) / 2 ^ 15 % 2) 1 (omega arith)) (
    omega (
      arith,
      ap (λ t. bit_xor t 0x1021) twice,
      bit_xor_high 16 (c * 2) 0x1021 (omega arith) (omega arith),
      bit_xor-lt 16 (c * 2) 0x1021 (omega arith) (omega arith),
    ))
  where
    twice : (2 ^ 15 + c) * 2 ≡ 2 ^ 16 + c * 2
    twice = omega arith

-- The sixteenth bit of the state chooses the branch.
crc_bit_cases :
    (c : ℕ)
    → c < 2 ^ 16
    → (c < 2 ^ 15 × crc_bit c ≡ c * 2)
      ⊎ (2 ^ 15 ≤ c × crc_bit c ≡ bit_xor ((c - 2 ^ 15) * 2) 0x1021)
crc_bit_cases c h = elim (side c) [
  | inl l ↦ inl (l, crc_bit-low c l)
  | inr g ↦ inr (
    g,
    subst (λ t. crc_bit t ≡ bit_xor ((c - 2 ^ 15) * 2) 0x1021) (omega (arith, g))
        (crc_bit-high (c - 2 ^ 15) (omega (arith, h, g))),
  )
]
  where
    side : (x : ℕ) → (x < 2 ^ 15) ⊎ (2 ^ 15 ≤ x)
    side x = ground arith

crc_bit-lt : (c : ℕ) → c < 2 ^ 16 → crc_bit c < 2 ^ 16
crc_bit-lt c h = elim (crc_bit_cases c h) [
  | inl (l, e) ↦ omega (arith, l, e)
  | inr (g, e) ↦
      omega
        (arith, g, e, bit_xor-lt 16 ((c - 2 ^ 15) * 2) 0x1021 (omega (arith, h, g)) (omega arith))
]

-- A step loses nothing: the last digit of the result tells the branch.
crc_bit_injective : (c d : ℕ) → c < 2 ^ 16 → d < 2 ^ 16 → crc_bit c ≡ crc_bit d → c ≡ d
crc_bit_injective c d h k e = elim (crc_bit_cases c h) [
  | inl (l, p) ↦ elim (crc_bit_cases d k) [
    | inl (m, q) ↦ omega (arith, e, p, q)
    | inr (m, q) ↦ absurd (omega (arith, e, p, q, bit_xor_step ((d - 2 ^ 15) * 2) 0x1021))
  ]
  | inr (l, p) ↦ elim (crc_bit_cases d k) [
    | inl (m, q) ↦ absurd (omega (arith, e, p, q, bit_xor_step ((c - 2 ^ 15) * 2) 0x1021))
    | inr (m, q) ↦ omega (
      arith,
      l,
      m,
      bit_xor_cancel 16 ((c - 2 ^ 15) * 2) 0x1021 ((d - 2 ^ 15) * 2) (omega (arith, h, l))
          (omega (arith, k, m)) (sym p ∙ e ∙ q),
    )
  ]
]

crc_bits-lt : (n c : ℕ) → c < 2 ^ 16 → crc_bits n c < 2 ^ 16
unfolding crc_bits
crc_bits-lt zero c h = h
crc_bits-lt (suc n) c h = crc_bits-lt n (crc_bit c) (crc_bit-lt c h)

crc_bits_injective : (n c d : ℕ) → c < 2 ^ 16 → d < 2 ^ 16 → crc_bits n c ≡ crc_bits n d → c ≡ d
unfolding crc_bits
crc_bits_injective zero c d h k e = e
crc_bits_injective (suc n) c d h k e =
    crc_bit_injective c d h k
      (crc_bits_injective n (crc_bit c) (crc_bit d) (crc_bit-lt c h) (crc_bit-lt d k) e)

crc_byte-lt : (c b : ℕ) → crc_byte c b < 2 ^ 16
unfolding crc_byte
crc_byte-lt c b = crc_bits-lt 8 (bit_xor c (b * 2 ^ 8) % 2 ^ 16) (omega arith)

crc_byte_state :
    (c d b : ℕ) → c < 2 ^ 16 → d < 2 ^ 16 → b < 2 ^ 8 → crc_byte c b ≡ crc_byte d b → c ≡ d
unfolding crc_byte
crc_byte_state c d b h k l e = bit_xor_cancel 16 c (b * 2 ^ 8) d h k (
    omega (
      arith,
      bit_xor-lt 16 c (b * 2 ^ 8) h (omega arith),
      bit_xor-lt 16 d (b * 2 ^ 8) k (omega arith),
      crc_bits_injective 8 (bit_xor c (b * 2 ^ 8) % 2 ^ 16) (bit_xor d (b * 2 ^ 8) % 2 ^ 16)
          (omega arith) (omega arith) e,
    ))

crc_byte_injective :
    (c a b : ℕ) → c < 2 ^ 16 → a < 2 ^ 8 → b < 2 ^ 8 → crc_byte c a ≡ crc_byte c b → a ≡ b
unfolding crc_byte
crc_byte_injective c a b h k l e = omega (
  arith,
  bit_xor_cancel 16 (a * 2 ^ 8) c (b * 2 ^ 8) (omega arith) (omega arith) (
      omega (
        arith,
        bit_xor_comm 16 c (a * 2 ^ 8) h (omega arith),
        bit_xor_comm 16 c (b * 2 ^ 8) h (omega arith),
        bit_xor-lt 16 c (a * 2 ^ 8) h (omega arith),
        bit_xor-lt 16 c (b * 2 ^ 8) h (omega arith),
        crc_bits_injective 8 (bit_xor c (a * 2 ^ 8) % 2 ^ 16) (bit_xor c (b * 2 ^ 8) % 2 ^ 16)
            (omega arith) (omega arith) e,
      )),
)

unfoldable pub AllBytes : List ℕ → Type 0
AllBytes [] = Unit
AllBytes (b ∷ bs) = (b < 2 ^ 8) × AllBytes bs

crc_bytes-lt : (c : ℕ) (bs : List ℕ) → c < 2 ^ 16 → crc_bytes c bs < 2 ^ 16
unfolding crc_bytes
crc_bytes-lt c [] h = h
crc_bytes-lt c (b ∷ bs) h = crc_bytes-lt (crc_byte c b) bs (crc_byte-lt c b)

crc_bytes_state :
    (c d : ℕ) (bs : List ℕ)
    → c < 2 ^ 16
    → d < 2 ^ 16
    → AllBytes bs
    → crc_bytes c bs ≡ crc_bytes d bs
    → c ≡ d
unfolding crc_bytes AllBytes
crc_bytes_state c d [] h k l e = e
crc_bytes_state c d (b ∷ bs) h k (l, ls) e =
    crc_byte_state c d b h k l
      (crc_bytes_state (crc_byte c b) (crc_byte d b) bs (crc_byte-lt c b) (crc_byte-lt d b) ls e)

crc_bytes-append : (c : ℕ) (xs bs : List ℕ) → crc_bytes c (xs ++ bs) ≡ crc_bytes (crc_bytes c xs) bs
unfolding crc_bytes
crc_bytes-append c [] bs = refl
crc_bytes-append c (x ∷ xs) bs = crc_bytes-append (crc_byte c x) xs bs

crc_bytes_changed :
    (c : ℕ) (pre : List ℕ) (a b : ℕ) (post : List ℕ)
    → c < 2 ^ 16
    → a < 2 ^ 8
    → b < 2 ^ 8
    → AllBytes post
    → crc_bytes c (pre ++ a ∷ post) ≡ crc_bytes c (pre ++ b ∷ post)
    → a ≡ b
unfolding crc_bytes
crc_bytes_changed c pre a b post h k l ls e =
    crc_byte_injective (crc_bytes c pre) a b (crc_bytes-lt c pre h) k l (
      crc_bytes_state (crc_byte (crc_bytes c pre) a) (crc_byte (crc_bytes c pre) b) post
        (crc_byte-lt (crc_bytes c pre) a) (crc_byte-lt (crc_bytes c pre) b) ls
        (sym (crc_bytes-append c pre (a ∷ post)) ∙ e ∙ crc_bytes-append c pre (b ∷ post)))

pub calc_crc-lt : (buf : Option (List ℕ)) → calc_crc buf < 2 ^ 16
unfolding calc_crc
calc_crc-lt none = omega arith
calc_crc-lt (some buf) = crc_bytes-lt 0xFFFF buf (omega arith)

-- If one byte of a buffer changes and the later bytes are below 256, bcap_calc_crc returns
-- another checksum.
pub calc_crc_changed :
    (pre : List ℕ) (a b : ℕ) (post : List ℕ)
    → a < 2 ^ 8
    → b < 2 ^ 8
    → AllBytes post
    → a ≢ b
    → calc_crc (some (pre ++ a ∷ post)) ≢ calc_crc (some (pre ++ b ∷ post))
unfolding calc_crc
calc_crc_changed pre a b post k l ls ne e =
    ne (crc_bytes_changed 0xFFFF pre a b post (omega arith) k l ls e)
