-- ===== src/Tpcomm/Drawing.antt =====
-- The drawing functions of library/src/TPComm/dn_tpcomm.c.
pub mod Refused
pub mod Drawn
mod Tests
use denso_ipc.Prelude.{
  ℕ, zero, suc, ◌+◌, ◌*◌, ◌%◌, ◌^◌, ◌==◌, leb, ltb, ◌||◌, if◌then◌else◌, Bool, true, false, List,
  [], ◌∷◌, ◌++◌, Option, none, some, length, replicate,
}
use denso_ipc.Outcome.{
  Hresult, Outcome, ok, err, fault, bind, catch, e_handle, e_invalidarg, e_outofmemory,
}
use denso_ipc.Robotalk.{to_be}
use denso_ipc.Variant.{
  Variant, Variants, Bstr, scalar, string, numbers, variants, null_array, nil, cons, vt_ui1,
  vt_bstr, vt_variant, sys_string_len,
}
use denso_ipc.Variant.Change.{Conversions, change_type}
use denso_ipc.Variant.Gather.{change_to_variants, change_to_bytes, byte_of}
use denso_ipc.Tpcomm.{Tp, Line}
use denso_ipc.Tpcomm.Link.{Receipt, missed, got, send_receive}
use denso_ipc.Tpcomm.Requests.{request}

abbrev pub tp_cmd_mtp_draw : ℕ
tp_cmd_mtp_draw = 0x0C81

abbrev pub color_fg : ℕ
color_fg = 0x10

abbrev pub color_bg : ℕ
color_bg = 0x11

abbrev pub color_fill : ℕ
color_fill = 0x12

abbrev pub draw_string : ℕ
draw_string = 0x20

abbrev pub draw_line : ℕ
draw_line = 0x30

abbrev pub draw_rect : ℕ
draw_rect = 0x31

abbrev pub max_drawing : ℕ
max_drawing = 248

-- The bytes of a string in the local encoding: what is in `n` bytes after wcstombs.
abbrev pub Encoding : Type 0
Encoding = List ℕ → ℕ → List ℕ

abbrev pub characters : Bstr → List ℕ
characters none = []
characters (some cs) = cs

-- The data behind a string command: its length, the place, the size, the string with a 0, and an attribute for each character.
abbrev pub string_bytes_of : Encoding → Bstr → ℕ → ℕ → ℕ → ℕ → List ℕ
string_bytes_of wcstombs s x y size attr =
    (sys_string_len s * 2 + 5) % 2 ^ 8
    ∷ x
    ∷ y
    ∷ size
    ∷ sys_string_len s % 2 ^ 8
    ∷ (wcstombs (characters s) (sys_string_len s) ++ 0 ∷ replicate (sys_string_len s) attr)

-- The arrays that the drawing functions build, where there is memory.
abbrev pub color_command : ℕ → ℕ → Variant
color_command code color = numbers vt_ui1 (code ∷ color ∷ [])

abbrev pub corners_command : (code x y x' y' : ℕ) → Variant
corners_command code x y x' y' =
    variants (cons (scalar vt_ui1 code) (cons (numbers vt_ui1 (x ∷ y ∷ x' ∷ y' ∷ [])) nil))

abbrev pub string_commands : Bstr → (x y size attr bg : ℕ) → Variants
string_commands s x y size attr bg = cons (color_command color_bg bg) (
    cons
      (variants (
        cons (scalar vt_ui1 draw_string) (
          cons
            (variants (
              cons (string s) (
                cons (scalar vt_ui1 x) (
                  cons (scalar vt_ui1 y)
                    (cons (scalar vt_ui1 size) (cons (scalar vt_ui1 attr) nil))))))
            nil)))
      nil)

module _ (c : Conversions) (wcstombs : Encoding) where
  abbrev pub string_of : Variant → Bstr
  string_of (string s) = s
  string_of _ = none

  unfoldable pub put_color : ℕ → Variant → List ℕ → Outcome (List ℕ)
  put_color code par data_ =
      if ltb max_drawing (length data_ + 3)
      then err e_outofmemory
      else bind (change_type c par vt_ui1) (λ v. ok (data_ ++ (code ∷ 1 ∷ byte_of v ∷ [])))

  unfoldable pub put_line : ℕ → Variant → List ℕ → Outcome (List ℕ)
  put_line code par data_ = bind (change_to_bytes c par (0 ∷ 0 ∷ 0 ∷ 0 ∷ [])) (λ r.
      if ltb r.0 4
      then err e_invalidarg
      else if ltb max_drawing (length data_ + 6)
      then err e_outofmemory
      else ok (data_ ++ code ∷ 4 ∷ r.1))

  -- `data` has room for the string if its length does not wrap in a byte.
  unfoldable pub put_text : ℕ → Bstr → ℕ → ℕ → ℕ → ℕ → List ℕ → Outcome (List ℕ)
  put_text code s x y size attr data_ =
      if ltb max_drawing (length data_ + (sys_string_len s * 2 + 5) + 2)
      then err e_outofmemory
      else ok (data_ ++ code ∷ string_bytes_of wcstombs s x y size attr)

  unfoldable pub put_drawn_string : ℕ → Option (List Variant) → List ℕ → Outcome (List ℕ)
  unfolding put_text
  put_drawn_string code (some (s ∷ x ∷ y ∷ size ∷ attr ∷ [])) data_ =
      bind (change_type c s vt_bstr) (λ s'. bind (change_type c x vt_ui1) (λ x'.
        bind (change_type c y vt_ui1) (λ y'. bind (change_type c size vt_ui1) (λ size'.
          bind (change_type c attr vt_ui1) (λ attr'.
            put_text code (string_of s') (byte_of x') (byte_of y') (byte_of size') (byte_of attr')
              data_)))))
  put_drawn_string code _ data_ = err e_invalidarg

  unfoldable pub put_code : ℕ → Variant → List ℕ → Outcome (List ℕ)
  unfolding put_color put_line put_drawn_string
  put_code code par data_ =
      if (code == color_fg) || ((code == color_bg) || (code == color_fill))
      then put_color code par data_
      else if code == draw_string
      then bind (change_to_variants 5 par) (λ o. put_drawn_string code o data_)
      else if (code == draw_line) || (code == draw_rect)
      then put_line code par data_
      else err e_invalidarg

  unfoldable pub put_pair : Option (List Variant) → List ℕ → Outcome (List ℕ)
  unfolding put_code
  put_pair (some (k ∷ par ∷ [])) data_ =
      bind (change_type c k vt_ui1) (λ k'. put_code (byte_of k') par data_)
  put_pair _ data_ = err e_invalidarg

  -- The loop over the commands.
  unfoldable pub put_commands : Variants → List ℕ → Outcome (List ℕ)
  unfolding put_pair
  put_commands nil data_ = ok data_
  put_commands (cons v vs) data_ =
      bind (change_to_variants 2 v) (λ o. bind (put_pair o data_) (put_commands vs))

  module _ {ℓ} {W : Type ℓ} (line : Line W) (fd : ℕ) (tp : Tp W) (w : W) where
    -- Without a command the code that decides is what the variable `hr` happens to hold: `stale`.
    unfoldable pub draw_all : Variants → Option Hresult → Outcome (Option Hresult × Tp W × W)
    unfolding put_commands request
    draw_all nil (some e) = ok (some e, tp, w)
    draw_all nil none = request line fd tp w tp_cmd_mtp_draw []
    draw_all (cons v vs) stale =
        catch (put_commands (cons v vs) []) (λ e. ok (some e, tp, w))
          (request line fd tp w tp_cmd_mtp_draw)

    unfoldable pub draw_mini_tp : Option Hresult → Variant → Outcome (Option Hresult × Tp W × W)
    unfolding draw_all
    draw_mini_tp stale (variants vs) = draw_all vs stale
    draw_mini_tp stale (null_array vt) =
        if vt == vt_variant then fault else ok (some e_invalidarg, tp, w)
    draw_mini_tp stale _ = ok (some e_invalidarg, tp, w)

    unfoldable pub draw_a_string :
        Option Hresult → Bstr → (x y size attr fg bg : ℕ) → Outcome (Option Hresult × Tp W × W)
    unfolding draw_mini_tp
    draw_a_string stale s x y size attr fg bg =
        draw_mini_tp stale
          (variants (cons (color_command color_fg fg) (string_commands s x y size attr bg)))

    unfoldable pub draw_a_line :
        Option Hresult → (x y x' y' fg : ℕ) → Outcome (Option Hresult × Tp W × W)
    unfolding draw_mini_tp
    draw_a_line stale x y x' y' fg = draw_mini_tp stale (
        variants
          (cons (color_command color_fg fg) (cons (corners_command draw_line x y x' y') nil)))

    unfoldable pub draw_a_rectangle :
        Option Hresult → (x y x' y' fg bg : ℕ) → Outcome (Option Hresult × Tp W × W)
    unfolding draw_mini_tp
    draw_a_rectangle stale x y x' y' fg bg = draw_mini_tp stale (
        variants (
          cons (color_command color_fg fg)
            (cons (color_command color_bg bg) (cons (corners_command draw_rect x y x' y') nil))))
