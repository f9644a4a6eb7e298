-- ===== src/Bcap/Tests.antt =====
-- Packets at work: the theorems at inputs that meet their hypotheses, and runs.
mod Faults
mod Serial
mod Pieces
use denso_ipc.Prelude.{
  ℕ, ◌+◌, ◌-◌, ◌*◌, ◌/◌, ◌^◌, ◌≡◌, refl, true, some, none, ◌%◌, to_le, of_le, List, [], ◌∷◌, inl,
  inr, ltb, replicate, arith,
}
use denso_ipc.Outcome.{ok}
use denso_ipc.Variant.{scalar, string, numbers, variants, nil, cons, sys_string_len}
use denso_ipc.Bcap.Platform.{Platform}
use denso_ipc.Bcap.Packet.{Packet}
use denso_ipc.Bcap.Encode.{vntdate2bytary, packet2bytary}
use denso_ipc.Bcap.Elements.{scalar_size, array_size}
use denso_ipc.Bcap.Size.{calc_size_packet}
use denso_ipc.Bcap.Wire.{wire_size, frame, payload, framed, scalar_bytes, number_bytes, text, words}
use denso_ipc.Bcap.Wire.Sizes.{calc_size_packet-wire_size}
use denso_ipc.Bcap.Wire.Packets.{packet2bytary-frame}
use denso_ipc.Bcap.Decode.{bytary2vntdate, bytary2packet}
use denso_ipc.Bcap.Decode.Exact.{IsExactPacket}
use denso_ipc.Bcap.RoundTrip.{bytary2packet-packet2bytary}

-- Whole numbers in place of doubles.
abbrev pub machine : Platform
machine = record {
  malloc = λ n. true;
  double_of = λ n. n;
  time_of = λ n. n;
  div = λ a b. a / b;
  add = λ a b. a + b;
  sub = λ a b. a - b;
  mul = λ a b. a * b;
  is_positive = λ a. ltb 0 a;
}

-- A number, a date, "Hi", and an array of a number and an array of two 16-bit numbers.
abbrev pub sample : Packet
sample = record {
  serial = 7;
  reserv = 0;
  id = 3;
  argc = 4;
  args = cons (scalar 19 1000) (
      cons (scalar 7 864000) (
        cons (string (some (0x48 ∷ 0x69 ∷ [])))
          (cons (variants (cons (scalar 17 5) (cons (numbers 2 (1 ∷ 2 ∷ [])) nil))) nil)));
}

pub sample_exact : IsExactPacket machine sample
unfolding scalar_size array_size bytary2vntdate vntdate2bytary to_le of_le
sample_exact = record {
  serial_fits = omega arith;
  reserv_fits = omega arith;
  id_fits = omega arith;
  argc_fits = omega arith;
  counted = refl;
  exact = (
    (omega arith, refl, omega arith, inr (omega arith, omega arith)),
    (
      (omega arith, refl, omega arith, inl (refl, refl)),
      (
        omega arith,
        (
          (
            omega arith,
            (
              (omega arith, refl, omega arith, inr (omega arith, omega arith)),
              ((omega arith, inr (inr (omega arith, omega arith))), tt),
            ),
          ),
          tt,
        ),
      ),
    ),
  );
}

pub sample_size : wire_size machine sample ≡ 93
unfolding wire_size payload framed scalar_bytes number_bytes text words scalar_size array_size
    vntdate2bytary to_le sys_string_len
sample_size = refl

bytary2packet-packet2bytary_example :
    (bytes : List ℕ) × (packet2bytary machine (some sample) (some (replicate 103 9)) 103 ≡ ok bytes)
    × (bytary2packet machine (some bytes) 103 0xffff none ≡ ok sample)
bytary2packet-packet2bytary_example =
    bytary2packet-packet2bytary machine (λ n. refl) sample sample_exact 103 (omega arith)
      (omega (arith, sample_size)) (replicate 103 9) refl

packet2bytary-frame_example :
    packet2bytary machine (some sample) (some (replicate 93 9)) 93 ≡ ok (frame machine sample 93)
packet2bytary-frame_example =
    packet2bytary-frame machine sample (tt, (tt, (tt, ((tt, (tt, tt)), tt)))) refl 93 (omega arith)
      (omega (arith, sample_size)) (replicate 93 9) refl

calc_size_packet-wire_size_example :
    calc_size_packet (some sample) ≡ ok (wire_size machine sample % 2 ^ 32)
calc_size_packet-wire_size_example = calc_size_packet-wire_size machine sample refl
