-- ===== src/Robotalk/Tests.antt =====
-- A ROBOTalk packet with two bytes of data.
use denso_ipc.Prelude.{
  ℕ, ◌≡◌, refl, true, some, none, List, [], ◌∷◌, ◌++◌, length-replicate, replicate, drop, arith,
}
use denso_ipc.Outcome.{Outcome, ok, bind}
use denso_ipc.Device.{ConnParamCommon, SendArg, null, conn_com, is_closed}
use denso_ipc.Robotalk.{rtk_param2packet, rtk_send, sum_bytes, to_be}
use denso_ipc.Robotalk.Frame.{rtk_frame, fields, rtk_send-rtk_param2packet}
use denso_ipc.Prelude.{Bool, map}
use denso_ipc.Outcome.All.{All}
use denso_ipc.Bcap.Receive.Serial.{read}
use denso_ipc.Bcap.Receive.Serial.Chunks.{joined}
use denso_ipc.Robotalk.Receive.{rtk_recv_serial, returned}
use denso_ipc.Robotalk.Receive.Sound.{IsSound, rtk_recv_serial-IsSound}
use denso_ipc.Robotalk.Receive.Frames.{Delivers, rtk_recv_serial-rtk_frame}
use denso_ipc.Robotalk.Receive.Unchecked.{IsLong, rtk_recv_serial-unchecked}

abbrev keep : List (List ℕ) → ℕ → List ℕ → SendArg → Outcome (List (List ℕ))
keep sent sock buf parg = ok (buf ∷ sent)

abbrev line : ConnParamCommon (List (List ℕ))
line = record {
  sock = 3;
  kind = conn_com;
  arg = none;
  dn_send = some keep;
  dn_open = true;
  dn_close = true;
  dn_recv = true;
  dn_set_timeout = true;
  dn_clear = true;
}

frame_of_two :
    rtk_frame 0x0E02 (0x80 ∷ 0xFF ∷ []) 1 2
    ≡ 5 ∷ 2 ∷ 0x0E ∷ 2 ∷ 1 ∷ 2 ∷ 0x80 ∷ 0xFF ∷ 0x01 ∷ 0x99 ∷ []
unfolding rtk_frame fields sum_bytes to_be
frame_of_two = refl

rtk_send-rtk_param2packet_example :
    bind
      (rtk_param2packet 0x0E02 (some (0x80 ∷ 0xFF ∷ [])) 2 1 2 (some (replicate 256 7)))
      (λ packet. rtk_send line (some packet) [])
    ≡ bind
        (keep [] 3 (rtk_frame 0x0E02 (0x80 ∷ 0xFF ∷ []) 1 2) null)
        (λ w'. ok (w', rtk_frame 0x0E02 (0x80 ∷ 0xFF ∷ []) 1 2 ++ drop 10 (replicate 256 7)))
unfolding is_closed
rtk_send-rtk_param2packet_example =
    rtk_send-rtk_param2packet 0x0E02 (0x80 ∷ 0xFF ∷ []) 1 2 (omega arith) line keep refl refl refl
      (replicate 256 7) (length-replicate {A = ℕ} 256 7) []

-- The same packet in three pieces.
abbrev pieces : List (List ℕ)
pieces = (5 ∷ []) ∷ (2 ∷ 0x0E ∷ 2 ∷ 1 ∷ 2 ∷ 0x80 ∷ 0xFF ∷ []) ∷ (0x01 ∷ 0x99 ∷ []) ∷ []

ample : ℕ → Bool
ample n = true

abbrev blank : ℕ → List ℕ
blank n = replicate n 0

rtk_recv_serial-rtk_frame_example :
    Delivers 0x0E02
      (0x80 ∷ 0xFF ∷ [])
      1
      2
      (omega arith)
      ample
      blank
      line
      (replicate 256 7)
      (length-replicate {A = ℕ} 256 7)
      (rtk_recv_serial ample blank line (map read pieces) 2 (replicate 256 7) [])
      []
unfolding rtk_frame fields sum_bytes to_be joined
rtk_recv_serial-rtk_frame_example =
    rtk_recv_serial-rtk_frame 0x0E02 (0x80 ∷ 0xFF ∷ []) 1 2 (omega arith) ample blank line
      (replicate 256 7) (length-replicate {A = ℕ} 256 7) pieces 2 [] refl

rtk_recv_serial-IsSound_example :
    All IsSound (rtk_recv_serial ample blank line (map read pieces) 2 (replicate 256 7) [])
rtk_recv_serial-IsSound_example =
    rtk_recv_serial-IsSound ample blank line (map read pieces) 2 (replicate 256 7) [] (
      (λ e. omega arith),
      (
        (λ e. omega arith),
        (
          (λ e. omega arith),
          (
            (λ e. omega arith),
            (
              (λ e. omega arith),
              (
                (λ e. omega arith),
                ((λ e. absurd (omega (arith, e))), ((λ e. omega arith), ((λ e. omega arith), tt))),
              ),
            ),
          ),
        ),
      ),
    )

-- A read that begins like a packet of 255 bytes.
abbrev long_read : List ℕ
long_read = 5 ∷ 255 ∷ 0 ∷ 0 ∷ 0 ∷ 0 ∷ 0 ∷ 0 ∷ []

rtk_recv_serial-unchecked_example :
    rtk_recv_serial ample blank line
      (map read (long_read ∷ long_read ∷ long_read ∷ []) ++ [])
      2
      (replicate 256 7)
      []
    ≡ ok (returned (replicate 256 7) [] [])
unfolding IsLong
rtk_recv_serial-unchecked_example =
    rtk_recv_serial-unchecked ample blank line long_read (long_read ∷ long_read ∷ []) []
      (replicate 256 7) []
      (
        (refl, omega arith, omega arith, omega arith),
        (
          (refl, omega arith, omega arith, omega arith),
          ((refl, omega arith, omega arith, omega arith), tt),
        ),
      )
