-- ===== src/Bcap/Platform.antt =====
-- What library/src/bcap_common.c uses and the library does not implement.
use denso_ipc.Prelude.{ℕ, Bool}

-- `malloc n` says whether a request for `n` bytes is met. A `double` and a `time_t` are their 64
-- bits, and the other fields are the operations of C on doubles: the conversions
-- from and to `time_t`, `/`, `+`, `-`, `*`, and `x > 0`.
pub record Platform : Type 0 where
  pub malloc : ℕ → Bool
  pub double_of : ℕ → ℕ
  pub time_of : ℕ → ℕ
  pub div : ℕ → ℕ → ℕ
  pub add : ℕ → ℕ → ℕ
  pub sub : ℕ → ℕ → ℕ
  pub mul : ℕ → ℕ → ℕ
  pub is_positive : ℕ → Bool
