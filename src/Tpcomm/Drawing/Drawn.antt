-- ===== src/Tpcomm/Drawing/Drawn.antt =====
-- What TPComm_DrawMiniTP of library/src/TPComm/dn_tpcomm.c sends for commands that are pairs of VARIANTs.
use denso_ipc.Prelude.{
  ℕ, ◌+◌, ◌≤◌, ◌≡◌, refl, ap, ◌∙◌, ltb, if◌then◌else◌, Bool-cases, inl, inr, List, [], ◌∷◌, ◌++◌,
  Option, some, length, length-append, append_assoc, append-nil, le→ltb-false, lt→ltb, arith,
}
use denso_ipc.Outcome.{Hresult, Outcome, ok, err, fault, stuck, bind, catch, e_outofmemory}
use denso_ipc.Bcap.Writer.{store}
use denso_ipc.Variant.{Variant, Variants, scalar, variants, nil, cons, vt_ui1, element_size}
use denso_ipc.Variant.Change.{Conversions, change_type}
use denso_ipc.Variant.Gather.{
  change_to_variants, take_copies, variant_copy, change_to_bytes, bytes_from,
}
use denso_ipc.Tpcomm.{Tp, Line}
use denso_ipc.Tpcomm.Drawing.{
  Encoding, max_drawing, color_fg, color_bg, color_fill, draw_line, draw_rect, tp_cmd_mtp_draw,
  corners_command, put_color, put_line, put_code, put_pair, put_commands, draw_all, draw_mini_tp,
}
use denso_ipc.Tpcomm.Requests.{request}

-- A colour or four coordinates.
pub data Shape : Type 0 where
  foreground background filling : ℕ → Shape
  straight box : (x y x' y' : ℕ) → Shape

abbrev color_pair : ℕ → ℕ → Variant
color_pair code n = variants (cons (scalar vt_ui1 code) (cons (scalar vt_ui1 n) nil))

unfoldable pub as_command : Shape → Variant
as_command (foreground n) = color_pair color_fg n
as_command (background n) = color_pair color_bg n
as_command (filling n) = color_pair color_fill n
as_command (straight x y x' y') = corners_command draw_line x y x' y'
as_command (box x y x' y') = corners_command draw_rect x y x' y'

-- The command, the length of its data, and the data.
unfoldable pub shape_bytes : Shape → List ℕ
shape_bytes (foreground n) = color_fg ∷ 1 ∷ n ∷ []
shape_bytes (background n) = color_bg ∷ 1 ∷ n ∷ []
shape_bytes (filling n) = color_fill ∷ 1 ∷ n ∷ []
shape_bytes (straight x y x' y') = draw_line ∷ 4 ∷ x ∷ y ∷ x' ∷ y' ∷ []
shape_bytes (box x y x' y') = draw_rect ∷ 4 ∷ x ∷ y ∷ x' ∷ y' ∷ []

unfoldable pub commands : List Shape → Variants
commands [] = nil
commands (s ∷ ss) = cons (as_command s) (commands ss)

unfoldable pub drawing_bytes : List Shape → List ℕ
drawing_bytes [] = []
drawing_bytes (s ∷ ss) = shape_bytes s ++ drawing_bytes ss

module _ (c : Conversions) (wcstombs : Encoding) where
  -- The data with one more command, if there is room.
  Adds : List ℕ → List ℕ → Outcome (List ℕ)
  Adds data_ bytes =
      if ltb max_drawing (length data_ + length bytes)
      then err e_outofmemory
      else ok (data_ ++ bytes)

  put_shape :
      (s : Shape) (data_ : List ℕ)
      → bind (change_to_variants 2 (as_command s)) (λ o. put_pair c wcstombs o data_)
        ≡ Adds data_ (shape_bytes s)
  unfolding as_command shape_bytes change_to_variants take_copies variant_copy element_size put_pair
      change_type put_code put_color put_line change_to_bytes bytes_from store Adds
  put_shape (foreground n) data_ = refl
  put_shape (background n) data_ = refl
  put_shape (filling n) data_ = refl
  put_shape (straight x y x' y') data_ = refl
  put_shape (box x y x' y') data_ = refl

  bind_assoc :
      {A B D : Type 0} (o : Outcome A) (f : A → Outcome B) (g : B → Outcome D)
      → bind o (λ a. bind (f a) g) ≡ bind (bind o f) g
  bind_assoc (ok a) f g = refl
  bind_assoc (err e) f g = refl
  bind_assoc fault f g = refl
  bind_assoc stuck f g = refl

  put_commands-shapes :
      (ss : List Shape) (data_ : List ℕ)
      → length data_ ≤ max_drawing
      → put_commands c wcstombs (commands ss) data_ ≡ Adds data_ (drawing_bytes ss)
  unfolding put_commands commands drawing_bytes Adds
  put_commands-shapes [] data_ h =
      rw (le→ltb-false max_drawing (length data_ + 0) (omega (arith, h)), append-nil data_) refl
  put_commands-shapes (s ∷ ss) data_ h =
      bind_assoc (change_to_variants 2 (as_command s)) (λ o. put_pair c wcstombs o data_)
        (put_commands c wcstombs (commands ss))
      ∙ ap (λ o. bind o (put_commands c wcstombs (commands ss))) (put_shape s data_)
      ∙ elim (Bool-cases (ltb max_drawing (length data_ + length (shape_bytes s)))) [
        | inl t ↦
            rw
              (
                t,
                lt→ltb max_drawing (length data_ + length (shape_bytes s ++ drawing_bytes ss))
                    (ground (arith, length-append (shape_bytes s) (drawing_bytes ss))),
              )
              refl
        | inr f ↦ rw f (
            put_commands-shapes ss (data_ ++ shape_bytes s)
              (ground (arith, length-append data_ (shape_bytes s)))
            ∙ same)
      ]
    where
      same :
          Adds (data_ ++ shape_bytes s) (drawing_bytes ss)
          ≡ Adds data_ (shape_bytes s ++ drawing_bytes ss)
      same =
          rw
            (
              length-append data_ (shape_bytes s),
              length-append (shape_bytes s) (drawing_bytes ss),
              append_assoc data_ (shape_bytes s) (drawing_bytes ss),
              total,
            )
            refl
        where
          total :
              length data_ + length (shape_bytes s) + length (drawing_bytes ss)
              ≡ length data_ + (length (shape_bytes s) + length (drawing_bytes ss))
          total = omega arith

  catch-Adds {ℓ} :
      {B : Type ℓ} (bytes : List ℕ) (g : Hresult → Outcome B) (f : List ℕ → Outcome B)
      → catch (Adds [] bytes) g f
        ≡ (if ltb max_drawing (length bytes) then g e_outofmemory else f bytes)
  unfolding Adds
  catch-Adds bytes g f =
      rw whole (elim (Bool-cases (ltb max_drawing (length bytes))) [
        | inl t ↦ rw t refl
        | inr e ↦ rw e refl
      ])
    where
      whole : 0 + length bytes ≡ length bytes
      whole = omega arith

  -- TPComm_DrawMiniTP sends one or more colours, lines and rectangles, given as pairs of VARIANTs, in order as one request, each as its command,
  -- the length of its data and the data, if all that is no more than 248 bytes, and else sends nothing and returns E_OUTOFMEMORY.
  pub draw_mini_tp-shapes {ℓ} :
      {W : Type ℓ} (line : Line W) (fd : ℕ) (tp : Tp W) (w : W) (stale : Option Hresult) (s : Shape)
      (ss : List Shape)
      → draw_mini_tp c wcstombs line fd tp w stale (variants (commands (s ∷ ss))) ≡ (
          if ltb max_drawing (length (drawing_bytes (s ∷ ss)))
          then ok (some e_outofmemory, tp, w)
          else request line fd tp w tp_cmd_mtp_draw (drawing_bytes (s ∷ ss)))
  unfolding draw_mini_tp draw_all commands
  draw_mini_tp-shapes line fd tp w stale s ss = rw (put_commands-shapes (s ∷ ss) [] (omega arith)) (
      catch-Adds (drawing_bytes (s ∷ ss)) (λ e. ok (some e, tp, w))
        (request line fd tp w tp_cmd_mtp_draw))
