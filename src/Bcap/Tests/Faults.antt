-- ===== src/Bcap/Tests/Faults.antt =====
-- Bytes that the reader does not take, and those that it takes too far.
use denso_ipc.Prelude.{
  ℕ, suc, zero, ◌+◌, ◌*◌, ◌^◌, ◌≤◌, ◌<◌, ◌≡◌, ◌≢◌, refl, some, none, List, [], ◌∷◌, ◌++◌, length,
  length-replicate, length-append, length-to_le, replicate, to_le, take, drop, arith,
}
use denso_ipc.Outcome.{ok, err, fault, stuck, e_invalidarg}
use denso_ipc.Bcap.Wire.{text, words}
use denso_ipc.Bcap.Wire.Sizes.{length-words, length-chars}
use denso_ipc.Bcap.Elements.{chars}
use denso_ipc.Variant.{sys_string_len}
use denso_ipc.Bcap.Decode.{bytary2packet, get_bytes, get_string, elements}
use denso_ipc.Bcap.Decode.Exact.{AllChars}
use denso_ipc.Bcap.Decode.Total.{bytary2packet-ne-stuck}
use denso_ipc.Bcap.Decode.Overflow.{get_string-overflow, get_bytes_cases, string_len}
use denso_ipc.Bcap.Tests.{machine}

-- A packet whose one argument is an array of VARIANT in an array of VARIANT, cut off.
abbrev cut : List ℕ
cut =
    1 ∷ 33 ∷ 0 ∷ 0 ∷ 0 ∷ 1 ∷ 0 ∷ 0 ∷ 0 ∷ 3 ∷ 0 ∷ 0 ∷ 0 ∷ 1 ∷ 0 ∷ 12 ∷ 0 ∷ 0 ∷ 0 ∷ 12 ∷ 32 ∷ 1 ∷ 0
    ∷ 0 ∷ 0 ∷ 12 ∷ 32 ∷ 1 ∷ 0 ∷ 0 ∷ 0 ∷ 0 ∷ 4 ∷ []

bytary2packet-ne-stuck_example : bytary2packet machine (some cut) 33 0xffff none ≢ stuck
bytary2packet-ne-stuck_example =
    bytary2packet-ne-stuck machine cut 33 0xffff none (omega arith) refl

-- 16383 letters.
long : List ℕ
long = replicate 16383 65

letters : (n : ℕ) → AllChars (replicate n 65)
letters zero = tt
letters (suc n) = (omega arith, omega arith, letters n)

length-long : length long ≡ 16383
unfolding long
length-long = length-replicate {A = ℕ} 16383 65

long_letters : AllChars long
unfolding long
long_letters = letters 16383

length-text-long : length (text (some long)) ≡ 32770
unfolding text
length-text-long = omega (
  arith,
  length-long,
  length-append (to_le 4 (2 * sys_string_len (some long))) (words 2 (chars (some long))),
  length-to_le 4 (2 * sys_string_len (some long)),
  length-words 2 (chars (some long)),
  length-chars (some long),
  string_len long long_letters (omega (arith, length-long)),
)

get_string-overflow_example :
    get_string machine 32770 ([] ++ (text (some long) ++ (0x04 ∷ []))) (length {A = ℕ} []) ≡ fault
get_string-overflow_example =
    get_string-overflow 32770 (omega arith) machine long long_letters (omega (arith, length-long))
      (omega (arith, length-long)) refl [] (0x04 ∷ []) (omega (arith, length-text-long))

abbrev most : ℕ
most = 0xffffffff

get_bytes_cases_example :
    (2 + most ≤ 4
      → get_bytes 4 most most (1 ∷ 2 ∷ 3 ∷ 4 ∷ 5 ∷ []) 2
        ≡ ok (elements (take most (drop 2 (1 ∷ 2 ∷ 3 ∷ 4 ∷ 5 ∷ []))), 2 + most))
    × (4 < 2 + most
        → 2 + most < 2 ^ 32
        → get_bytes 4 most most (1 ∷ 2 ∷ 3 ∷ 4 ∷ 5 ∷ []) 2 ≡ err e_invalidarg)
    × (2 ^ 32 ≤ 2 + most → get_bytes 4 most most (1 ∷ 2 ∷ 3 ∷ 4 ∷ 5 ∷ []) 2 ≡ fault)
get_bytes_cases_example =
    get_bytes_cases 4 most most (1 ∷ 2 ∷ 3 ∷ 4 ∷ 5 ∷ []) 2 (omega arith) (omega arith) (omega arith)
      (omega arith) (omega arith)
