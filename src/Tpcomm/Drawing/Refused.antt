-- ===== src/Tpcomm/Drawing/Refused.antt =====
-- The drawing functions of library/src/TPComm/dn_tpcomm.c that give a colour as an array of VT_UI1.
use native.Mathlib.Nat.{mod-eq_of_lt}
use denso_ipc.Prelude.{
  ℕ, ◌/◌, ◌<◌, ◌≡◌, refl, Option, List, [], ◌∷◌, ◌++◌, some, of_le, to_le, replicate, arith,
}
use denso_ipc.Outcome.{Hresult, ok, err, badvartype}
use denso_ipc.Bcap.Writer.{store}
use denso_ipc.Variant.{
  Variant, Variants, Bstr, scalar, numbers, variants, nil, cons, vt_ui1, element_size,
}
use denso_ipc.Variant.Change.{Conversions, change_type, of_scalar}
use denso_ipc.Variant.Gather.{
  change_to_variants, gather_numbers, gather, put_variant, cell, variant_at, all_at,
}
use denso_ipc.Tpcomm.{Tp, Line}
use denso_ipc.Tpcomm.Drawing.{
  Encoding, color_fg, color_bg, draw_line, draw_rect, color_command, corners_command,
  string_commands, put_pair, put_commands, draw_all, draw_mini_tp, draw_a_string, draw_a_line,
  draw_a_rectangle,
}

byte_le : (n : ℕ) → n < 256 → to_le 8 n ≡ n ∷ replicate 7 0
unfolding to_le
byte_le n h = rw (mod-eq_of_lt h, small) refl
  where
    small : n / 256 ≡ 0
    small = omega (arith, h)

cell-byte : (vt n : ℕ) → n < 256 → cell vt n ≡ to_le 2 vt ++ (replicate 6 0 ++ (n ∷ replicate 7 0))
unfolding cell
cell-byte vt n h = rw (byte_le n h) refl

-- The destination after the first VARIANT, and after the second, which is written one byte behind it.
abbrev first_put : ℕ → List ℕ
first_put a = 17 ∷ replicate 7 0 ++ (a ∷ replicate 23 0)

abbrev second_put : ℕ → List ℕ
second_put b = 17 ∷ 17 ∷ replicate 7 0 ++ (b ∷ replicate 22 0)

put_first : (a : ℕ) → a < 256 → put_variant (replicate 32 0) 0 vt_ui1 a ≡ ok (first_put a)
unfolding put_variant store of_le to_le
put_first a h = rw (cell-byte 17 a h) refl

put_second : (a b : ℕ) → b < 256 → put_variant (first_put a) 1 vt_ui1 b ≡ ok (second_put b)
unfolding put_variant store of_le to_le
put_second a b h = rw (cell-byte 17 b h) refl

garbled :
    (a b : ℕ)
    → a < 256
    → b < 256
    → change_to_variants 2 (numbers vt_ui1 (a ∷ b ∷ []))
      ≡ ok (some (scalar 0x1111 (of_le (0 ∷ b ∷ replicate 6 0)) ∷ scalar 0 0 ∷ []))
unfolding change_to_variants gather_numbers gather all_at variant_at of_le element_size
garbled a b ha hb = rw (put_first a ha, put_second a b hb) refl

module _ (c : Conversions) (wcstombs : Encoding) where
  put_pair-garbled :
      (n : ℕ) (v : Variant) (data_ : List ℕ)
      → put_pair c wcstombs (some (scalar 0x1111 n ∷ v ∷ [])) data_ ≡ err badvartype
  unfolding put_pair change_type of_scalar
  put_pair-garbled n v data_ = refl

  module _ {ℓ} {W : Type ℓ} (line : Line W) (fd : ℕ) (tp : Tp W) (w : W) where
    -- A drawing that begins with two bytes as an array of VT_UI1.
    drawing_refused :
        (a b : ℕ) (rest : Variants)
        → a < 256
        → b < 256
        → (stale : Option Hresult)
        → draw_mini_tp c wcstombs line fd tp w stale
            (variants (cons (numbers vt_ui1 (a ∷ b ∷ [])) rest))
          ≡ ok (some badvartype, tp, w)
    unfolding draw_mini_tp draw_all put_commands
    drawing_refused a b rest ha hb stale = rw (garbled a b ha hb, put_pair-garbled _ _ _) refl

    -- TPComm_DrawString, TPComm_DrawLine and TPComm_DrawRectangle end with DISP_E_BADVARTYPE and send nothing, whatever their
    -- arguments, the foreground colour below 256: of an array of VT_UI1, ChangeVarType writes the second VARIANT over the first.
    pub drawings-badvartype :
        (fg : ℕ)
        → fg < 256
        → (stale : Option Hresult) (s : Bstr) (x y x' y' size attr bg : ℕ)
        → (draw_a_string c wcstombs line fd tp w stale s x y size attr fg bg
            ≡ ok (some badvartype, tp, w))
          × (draw_a_line c wcstombs line fd tp w stale x y x' y' fg ≡ ok (some badvartype, tp, w))
          × (draw_a_rectangle c wcstombs line fd tp w stale x y x' y' fg bg
              ≡ ok (some badvartype, tp, w))
    unfolding draw_a_string draw_a_line draw_a_rectangle
    drawings-badvartype fg h stale s x y x' y' size attr bg = (
      drawing_refused color_fg fg (string_commands s x y size attr bg) (omega arith) h stale,
      drawing_refused color_fg fg (cons (corners_command draw_line x y x' y') nil) (omega arith) h
          stale,
      drawing_refused color_fg fg
          (cons (color_command color_bg bg) (cons (corners_command draw_rect x y x' y') nil))
          (omega arith) h stale,
    )
