-- ===== src/Device/Options/Fields.antt =====
-- How library/src/dn_device.c splits a connection option, against the joining of fields by colons.
use denso_ipc.Prelude.{
  ℕ, zero, suc, ◌≤◌, ◌<◌, ◌≡◌, ◌≢◌, refl, ap, ◌∙◌, List, [], ◌∷◌, ◌++◌, none, some, ne→==, arith,
}
use denso_ipc.Device.Options.{cut, add_field, split}

-- No colon.
abbrev pub IsField : List ℕ → Type 0
IsField [] = Unit
IsField (c ∷ s) = (c ≢ 58) × IsField s

abbrev pub AllFields : List (List ℕ) → Type 0
AllFields [] = Unit
AllFields (s ∷ ss) = IsField s × AllFields ss

abbrev pub number : List (List ℕ) → ℕ
number [] = 0
number (s ∷ ss) = suc (number ss)

-- The fields `s ∷ ss` with colons between them.
unfoldable pub join : List ℕ → List (List ℕ) → List ℕ
join s [] = s
join s (t ∷ ts) = s ++ 58 ∷ join t ts

cut-field : (s : List ℕ) → IsField s → cut s ≡ (s, none)
unfolding cut
cut-field [] h = refl
cut-field (c ∷ s) (ne, h) = rw (ne→== c 58 ne, cut-field s h) refl

cut-append : (s rest : List ℕ) → IsField s → cut (s ++ 58 ∷ rest) ≡ (s, some rest)
unfolding cut
cut-append [] rest h = refl
cut-append (c ∷ s) rest (ne, h) = rw (ne→== c 58 ne, cut-append s rest h) refl

split_last :
    (room : ℕ) (top s : List ℕ) → cut top ≡ (s, none) → split (suc room) top ≡ some (s ∷ [])
unfolding split
split_last room top s e = rw (split, ap (λ c. c.1) e, ap (λ c. c.0) e) refl

split_next :
    (room : ℕ) (top s later : List ℕ)
    → cut top ≡ (s, some later)
    → split (suc room) top ≡ add_field s (split room later)
unfolding split
split_next room top s later e = rw (split, ap (λ c. c.1) e, ap (λ c. c.0) e) refl

-- Fields without colons, joined by colons, come back from the loop that splits the string, if
-- there are no more than it has room for.
pub split-join :
    (room : ℕ) (s : List ℕ) (ss : List (List ℕ))
    → IsField s
    → AllFields ss
    → number ss < room
    → split room (join s ss) ≡ some (s ∷ ss)
unfolding split join add_field
split-join zero s ss h hs less = absurd (omega arith)
split-join (suc room) s [] h hs less = split_last room s s (cut-field s h)
split-join (suc room) s (t ∷ ts) h (ht, hts) less =
    split_next room (s ++ 58 ∷ join t ts) s (join t ts) (cut-append s (join t ts) h)
    ∙ ap (add_field s) (split-join room t ts ht hts (omega arith))

-- More fields than there is room for are refused.
pub split-join_crowded :
    (room : ℕ) (s : List ℕ) (ss : List (List ℕ))
    → IsField s
    → AllFields ss
    → room ≤ number ss
    → split room (join s ss) ≡ none
unfolding split join add_field
split-join_crowded zero s ss h hs more = refl
split-join_crowded (suc room) s [] h hs more = absurd (omega arith)
split-join_crowded (suc room) s (t ∷ ts) h (ht, hts) more =
    split_next room (s ++ 58 ∷ join t ts) s (join t ts) (cut-append s (join t ts) h)
    ∙ ap (add_field s) (split-join_crowded room t ts ht hts (omega arith))
