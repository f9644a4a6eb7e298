-- ===== src/Tpcomm/Drawing/Tests.antt =====
-- Drawings for a pendant on a UDP port.
use denso_ipc.Prelude.{◌≡◌, ltb, if◌then◌else◌, true, [], ◌∷◌, none, some, refl, length, arith}
use denso_ipc.Outcome.{ok, err, badvartype, typemismatch, e_outofmemory}
use denso_ipc.Variant.{variants}
use denso_ipc.Variant.Change.{Conversions}
use denso_ipc.Tpcomm.Drawing.{
  Encoding, tp_cmd_mtp_draw, max_drawing, draw_mini_tp, draw_a_string, draw_a_line,
  draw_a_rectangle,
}
use denso_ipc.Tpcomm.Requests.{request}
use denso_ipc.Tpcomm.Drawing.Refused.{drawings-badvartype}
use denso_ipc.Tpcomm.Drawing.Drawn.{
  foreground, straight, commands, drawing_bytes, shape_bytes, draw_mini_tp-shapes,
}
use denso_ipc.Tpcomm.Tests.{line, connected}

abbrev conversions : Conversions
conversions = record {
  to_r4 = λ v. 0;
  to_r8 = λ v. 0;
  to_bstr = λ v. err typemismatch;
  of_float = λ v vt. err typemismatch;
  of_bstr = λ s vt. err typemismatch;
}

abbrev ascii : Encoding
ascii cs n = cs

shapes_in_order :
    drawing_bytes (foreground 15 ∷ straight 1 2 3 4 ∷ [])
    ≡ 0x10 ∷ 1 ∷ 15 ∷ 0x30 ∷ 4 ∷ 1 ∷ 2 ∷ 3 ∷ 4 ∷ []
unfolding drawing_bytes shape_bytes
shapes_in_order = refl

draw_mini_tp-shapes_example :
    draw_mini_tp conversions ascii
      (line true 5)
      1
      connected.tp
      []
      none
      (variants (commands (foreground 15 ∷ straight 1 2 3 4 ∷ [])))
    ≡ (if ltb max_drawing (length (drawing_bytes (foreground 15 ∷ straight 1 2 3 4 ∷ [])))
        then ok (some e_outofmemory, connected.tp, [])
        else request
            (line true 5)
            1
            connected.tp
            []
            tp_cmd_mtp_draw
            (drawing_bytes (foreground 15 ∷ straight 1 2 3 4 ∷ [])))
draw_mini_tp-shapes_example =
    draw_mini_tp-shapes conversions ascii (line true 5) 1 connected.tp [] none (foreground 15)
      (straight 1 2 3 4 ∷ [])

drawings-badvartype_example :
    (draw_a_string conversions ascii
        (line true 5)
        1
        connected.tp
        []
        none
        (some (72 ∷ 105 ∷ 0 ∷ []))
        1
        2
        1
        0
        15
        0
      ≡ ok (some badvartype, connected.tp, []))
    × (draw_a_line conversions ascii (line true 5) 1 connected.tp [] none 1 2 3 4 15
        ≡ ok (some badvartype, connected.tp, []))
    × (draw_a_rectangle conversions ascii (line true 5) 1 connected.tp [] none 1 2 3 4 15 0
        ≡ ok (some badvartype, connected.tp, []))
drawings-badvartype_example =
    drawings-badvartype conversions ascii (line true 5) 1 connected.tp [] 15 (omega arith) none
      (some (72 ∷ 105 ∷ 0 ∷ [])) 1 2 3 4 1 0 0
