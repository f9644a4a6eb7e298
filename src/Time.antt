-- ===== src/Time.antt =====
-- calc_time_diff of library/include/dn_thread.h, on the uint32_t milliseconds of gettimeofday_msec.
use denso_ipc.Prelude.{ℕ, ◌+◌, ◌-◌, ◌%◌, ◌^◌, ◌<◌, ◌≡◌, leb, if◌then◌else◌, arith}

unfoldable pub calc_time_diff : ℕ → ℕ → ℕ
calc_time_diff from to = if leb from to then to - from else (2 ^ 32 - 1 - to + from) % 2 ^ 32

-- The clock `d` milliseconds later, which wraps around after 49 days.
abbrev pub later : ℕ → ℕ → ℕ
later from d = (from + d) % 2 ^ 32

-- calc_time_diff of a time and the clock `d` milliseconds later, `d` below 2 ^ 32, is `d` if the clock has
-- not wrapped around in between, and 2 ^ 32 - 1 - `d` if it has.
pub calc_time_diff-later :
    (from d : ℕ)
    → from < 2 ^ 32
    → d < 2 ^ 32
    → calc_time_diff from (later from d) ≡ (if leb (2 ^ 32) (from + d) then 2 ^ 32 - 1 - d else d)
unfolding calc_time_diff
calc_time_diff-later from d h k = ground arith
