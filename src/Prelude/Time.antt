-- ===== src/Prelude/Time.antt =====
-- Points in time and durations of the crates chrono and std: both are numbers of nanoseconds, the
-- former since the epoch. `+` on them is exact; what chrono does past its own range is not modelled.
use Prim.Native.Nat.{ℕ, ◌*◌, ◌-◌, ◌^◌}
use mathlib.Core.Option.{Option}

abbrev pub DateTime : Type 0
DateTime = ℕ

abbrev pub Duration : Type 0
Duration = ℕ

abbrev pub seconds : ℕ → Duration
seconds n = n * 1_000_000_000

-- What the program calls of chrono: `Duration::from_std`, `none` where it returns an error, and the
-- value of `Duration::seconds(i64::MAX)`.
pub record Chrono : Type 0 where
  pub from_std : Duration → Option Duration
  pub seconds_max : Duration

abbrev pub u32_max : ℕ
u32_max = 2 ^ 32 - 1

abbrev pub u64_max : ℕ
u64_max = 2 ^ 64 - 1
