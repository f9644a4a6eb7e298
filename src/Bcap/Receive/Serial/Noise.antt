-- ===== src/Bcap/Receive/Serial/Noise.antt =====
-- Bytes before a header, and the beginnings of a frame, in bcap_recv of library/src/bcap_common.c.
use denso_ipc.Prelude.{
  ℕ, zero, suc, eq→==, ap₂, ◌≢◌, ◌≤◌, ◌≡◌, refl, sym, ap, ◌⊎◌, inl, inr, ◌==◌, Bool-cases, List, [],
  ◌∷◌, ◌++◌, length, take, drop, arith,
}
use denso_ipc.Bcap.Packet.{header}
use denso_ipc.Bcap.Receive.Serial.{from_header}

-- No byte is a header.
abbrev pub IsNoise : List ℕ → Type 0
IsNoise noise = from_header noise ≡ []

unfoldable pub first : ℕ → List ℕ → ℕ
first a [] = a
first a (b ∷ bs) = b

tail : List ℕ → List ℕ
tail [] = []
tail (b ∷ bs) = bs

cons-ne-nil : (b : ℕ) (bs : List ℕ) → b ∷ bs ≢ []
cons-ne-nil b bs e = cc

pub from_header-append : (x y : List ℕ) → IsNoise x → from_header (x ++ y) ≡ from_header y
unfolding from_header
from_header-append [] y h = refl
from_header-append (b ∷ x) y h = elim (Bool-cases (b == header)) [
  | inl e ↦ absurd (cons-ne-nil b x (rw e at h))
  | inr e ↦ rw e (from_header-append x y (rw e at h))
]

pub IsNoise-append : (x y : List ℕ) → IsNoise (x ++ y) → IsNoise x × IsNoise y
unfolding from_header
IsNoise-append [] y h = (refl, h)
IsNoise-append (b ∷ x) y h = elim (Bool-cases (b == header)) [
  | inl e ↦ absurd (cons-ne-nil b (x ++ y) (rw e at h))
  | inr e ↦ rw e (IsNoise-append x y (rw e at h))
]

-- Two ways to cut the same bytes.
pub cut_cases :
    (x y noise frame : List ℕ)
    → x ++ y ≡ noise ++ frame
    → ((rest : List ℕ) × (noise ≡ x ++ rest) × (y ≡ rest ++ frame))
      ⊎ ((rest : List ℕ) × (x ≡ noise ++ rest) × (rest ++ y ≡ frame))
unfolding first tail
cut_cases [] y noise frame e = inl (noise, refl, e)
cut_cases (b ∷ x) y [] frame e = inr (b ∷ x, refl, e)
cut_cases (b ∷ x) y (c ∷ noise) frame e = elim (cut_cases x y noise frame (ap tail e)) [
  | inl (rest, f, g) ↦ inl (rest, ap₂ (λ h t. h ∷ t) (ap (first c) (sym e)) f, g)
  | inr (rest, f, g) ↦ inr (rest, ap₂ (λ h t. h ∷ t) (ap (first c) e) f, g)
]

pub from_header-prefix : (b rest bytes : List ℕ) → b ++ rest ≡ header ∷ bytes → from_header b ≡ b
unfolding first from_header
from_header-prefix [] rest bytes e = refl
from_header-prefix (h ∷ b) rest bytes e = rw (eq→== h header (ap (first h) e)) refl

pub take-prefix :
    (b rest frame : List ℕ) (n : ℕ) → b ++ rest ≡ frame → n ≤ length b → take n b ≡ take n frame
unfolding first tail
take-prefix b rest frame zero e h = refl
take-prefix [] rest frame (suc n) e h = absurd (omega (arith, h))
take-prefix (x ∷ b) rest [] (suc n) e h = absurd (cons-ne-nil x (b ++ rest) e)
take-prefix (x ∷ b) rest (y ∷ frame) (suc n) e h =
    ap₂ (λ h t. h ∷ t) (ap (first x) e) (take-prefix b rest frame n (ap tail e) (omega (arith, h)))

pub take-long : (b : List ℕ) (n : ℕ) → length b ≤ n → take n b ≡ b
take-long [] zero h = refl
take-long [] (suc n) h = refl
take-long (x ∷ b) zero h = absurd (omega (arith, h))
take-long (x ∷ b) (suc n) h = ap (λ t. x ∷ t) (take-long b n (omega (arith, h)))

pub take-drop_one : (b : List ℕ) → take 4 (drop 1 b) ≡ drop 1 (take 5 b)
take-drop_one [] = refl
take-drop_one (x ∷ b) = refl
