-- ===== src/Prelude/Bytes.antt =====
-- Numbers as bytes: `memcpy_le` and `memcpy_be` of library/src/dn_device.c on a little-endian
-- machine, where a variable of `n` bytes lies in memory as `to_le n v`.
use Prim.Native.Nat.{ℕ, zero, suc, ◌+◌, ◌*◌, ◌/◌, ◌%◌, ◌^◌, ◌<◌}
use mathlib.Core.Path.{◌≡◌, refl, ap}
use mathlib.Core.List.{List, [], ◌∷◌}
use native.Mathlib.Nat.{pow-suc}
use native.Mathlib.Omega.{arith}
use denso_ipc.Prelude.Lists.{length}

-- The `n` low bytes of `v`, lowest first.
unfoldable pub to_le : ℕ → ℕ → List ℕ
to_le zero v = []
to_le (suc n) v = v % 256 ∷ to_le n (v / 256)

unfoldable pub of_le : List ℕ → ℕ
of_le [] = 0
of_le (b ∷ bs) = b + 256 * of_le bs

pub length-to_le : (n v : ℕ) → length (to_le n v) ≡ n
unfolding to_le
length-to_le zero v = refl
length-to_le (suc n) v = ap suc (length-to_le n (v / 256))

-- A value that fits is read back.
pub of_le-to_le : (n v : ℕ) → v < 256 ^ n → of_le (to_le n v) ≡ v
unfolding to_le of_le
of_le-to_le zero v h = omega arith
of_le-to_le (suc n) v h =
    omega (arith, of_le-to_le n (v / 256) (omega (arith, pow-suc 256 n)), pow-suc 256 n)
