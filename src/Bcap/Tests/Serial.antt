-- ===== src/Bcap/Tests/Serial.antt =====
-- The sample packet on a serial line.
use denso_ipc.Prelude.{
  of_le, ℕ, ◌+◌, ◌≡◌, ◌≢◌, refl, true, false, some, none, List, [], ◌∷◌, ◌++◌, length-replicate,
  replicate, arith,
}
use denso_ipc.Outcome.{Outcome, ok}
use denso_ipc.Device.{ConnParamCommon, SendArg, conn_com, is_closed}
use denso_ipc.Bcap.Wire.{wire_size}
use denso_ipc.Bcap.Crc.{
  calc_crc, crc_bytes, crc_byte, crc_bits, crc_bit, calc_crc_changed, AllBytes,
}
use denso_ipc.Bcap.Reader.{load}
use denso_ipc.Bcap.Send.{bcap_send, size_crc}
use denso_ipc.Bcap.Send.Serial.{serial_frame, bcap_send-serial_frame}
use denso_ipc.Bcap.Receive.{check_crc, check_crc_changed, unpack, unpack-serial_frame}
use denso_ipc.Bcap.Tests.{machine, sample, sample_exact, sample_size}

-- A driver that keeps what it is given.
abbrev keep : List (List ℕ) → ℕ → List ℕ → SendArg → Outcome (List (List ℕ))
keep sent sock buf parg = ok (buf ∷ sent)

abbrev line : ConnParamCommon (List (List ℕ))
line = record {
  sock = 3;
  kind = conn_com;
  arg = none;
  dn_send = some keep;
  dn_open = true;
  dn_close = true;
  dn_recv = true;
  dn_set_timeout = true;
  dn_clear = true;
}

crc_of_digits :
    calc_crc (some (0x31 ∷ 0x32 ∷ 0x33 ∷ 0x34 ∷ 0x35 ∷ 0x36 ∷ 0x37 ∷ 0x38 ∷ 0x39 ∷ [])) ≡ 0x29B1
unfolding calc_crc crc_bytes crc_byte crc_bits crc_bit
crc_of_digits = refl

calc_crc_changed_example :
    calc_crc (some ((1 ∷ 2 ∷ []) ++ 3 ∷ (4 ∷ []))) ≢ calc_crc (some ((1 ∷ 2 ∷ []) ++ 7 ∷ (4 ∷ [])))
unfolding AllBytes
calc_crc_changed_example =
    calc_crc_changed (1 ∷ 2 ∷ []) 3 7 (4 ∷ []) (omega arith) (omega arith) (omega arith, tt)
      (λ e. omega (arith, e))

bcap_send-serial_frame_example :
    bcap_send machine (λ n. replicate n 9) (some line) (some sample) []
    ≡ ok (serial_frame machine sample ∷ [])
unfolding is_closed
bcap_send-serial_frame_example =
    bcap_send-serial_frame machine sample (λ n. replicate n 9) line keep refl refl refl
      (tt, (tt, (tt, ((tt, (tt, tt)), tt)))) refl (omega (arith, sample_size)) refl
      (length-replicate {A = ℕ} (wire_size machine sample + size_crc) 9) []

unpack-serial_frame_example :
    unpack machine conn_com
      (serial_frame machine sample)
      (wire_size machine sample + size_crc)
      0xffff
      none
    ≡ ok (sample, true)
unpack-serial_frame_example =
    unpack-serial_frame machine (λ n. refl) sample sample_exact (omega (arith, sample_size))

check_crc_changed_example :
    check_crc conn_com
      (1 ∷ 0x31 ∷ 0x33 ∷ 0x33 ∷ 0x34 ∷ 0x35 ∷ 0x36 ∷ 0x37 ∷ 0x38 ∷ 0x39 ∷ 0xB1 ∷ 0x29 ∷ 4 ∷ [])
      13
    ≡ ok false
unfolding AllBytes check_crc calc_crc crc_bytes crc_byte crc_bits crc_bit of_le load
check_crc_changed_example =
    check_crc_changed 1 (0x31 ∷ []) 0x32 0x33 (0x33 ∷ 0x34 ∷ 0x35 ∷ 0x36 ∷ 0x37 ∷ 0x38 ∷ 0x39 ∷ [])
      (0xB1 ∷ 0x29 ∷ []) 4 refl (omega arith) (omega arith)
      (
        omega arith,
        (
          omega arith,
          (omega arith, (omega arith, (omega arith, (omega arith, (omega arith, tt))))),
        ),
      )
      (λ e. omega (arith, e)) refl
