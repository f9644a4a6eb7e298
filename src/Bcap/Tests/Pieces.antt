-- ===== src/Bcap/Tests/Pieces.antt =====
-- The sample packet on a serial line, in pieces and behind other bytes.
use denso_ipc.Prelude.{
  ℕ, ◌≡◌, refl, ap, ◌∙◌, inl, none, List, [], ◌∷◌, ◌++◌, map, take, drop, take-append-drop,
  append-nil, length-drop, length-take, arith,
}
use denso_ipc.Bcap.Send.Serial.{serial_frame}
use denso_ipc.Bcap.Receive.Serial.{read, from_header, bcap_recv_serial}
use denso_ipc.Bcap.Receive.Serial.Chunks.{joined, Delivers}
use denso_ipc.Bcap.Receive.Serial.Frames.{
  length-serial_frame, bcap_recv_serial-serial_frame, bcap_recv_serial-skips, start_of,
}
use denso_ipc.Bcap.Tests.{machine, sample, sample_exact, sample_size}

abbrev sample_frame : List ℕ
sample_frame = serial_frame machine sample

abbrev two_pieces : List (List ℕ)
two_pieces = (7 ∷ 9 ∷ take 3 sample_frame) ∷ drop 3 sample_frame ∷ []

joined-two_pieces : joined two_pieces ≡ (7 ∷ 9 ∷ []) ++ sample_frame
unfolding joined
joined-two_pieces =
    ap (λ t. 7 ∷ 9 ∷ t)
      (ap (λ t. take 3 sample_frame ++ t) (append-nil (drop 3 sample_frame))
        ∙ take-append-drop 3 sample_frame)

bcap_recv_serial-serial_frame_example :
    Delivers (bcap_recv_serial machine (map read two_pieces) 0xffff none) sample
unfolding from_header
bcap_recv_serial-serial_frame_example =
    bcap_recv_serial-serial_frame machine sample (λ n. refl) sample_exact
      (omega (arith, sample_size)) two_pieces (7 ∷ 9 ∷ []) joined-two_pieces refl
      (
        omega (arith, length-take 3 sample_frame),
        (
          omega
              (arith, length-drop 3 sample_frame, length-serial_frame machine sample, sample_size),
          tt,
        ),
      )

-- The frame of the sample behind a header byte with the length 0, and then in two pieces.
bcap_recv_serial-skips_example :
    Delivers
      (bcap_recv_serial machine (map read ((start_of 0 ++ sample_frame) ∷ two_pieces)) 0xffff none)
      sample
unfolding from_header
bcap_recv_serial-skips_example =
    bcap_recv_serial-skips machine sample sample (λ n. refl) sample_exact
      (omega (arith, sample_size)) (omega (arith, sample_size)) 0 (omega arith) (inl (omega arith))
      two_pieces (7 ∷ 9 ∷ []) joined-two_pieces refl
      (
        omega (arith, length-take 3 sample_frame),
        (
          omega
              (arith, length-drop 3 sample_frame, length-serial_frame machine sample, sample_size),
          tt,
        ),
      )
