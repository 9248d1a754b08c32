-- ===== src/Accounts/Block/Precedence.antt =====
-- Which block of src/accounts/mod.rs prevails, and how long the local backoff is.
use Prim.Native.Nat.{max}
use codaze.Prelude.{
  ℕ, zero, suc, ◌^◌, ◌<◌, ◌≡◌, refl, inl, inr, Bool, true, false, ◌&&◌, some, arith, ltb, nat_eq,
  Bool-cases,
}
use codaze.Prelude.Time.{DateTime, Duration, seconds}
use codaze.Accounts.Types.{AccountRecord}
use codaze.Accounts.Block.{
  RetryableBlock, timed, has_active_block_at, apply_block_transition, next_local_backoff,
}

-- A timed block that meets a timed block still in force never shortens it: the account stays blocked
-- until the later of the two times.
pub timed-later :
    (r : AccountRecord) (now until : DateTime) (c : RetryableBlock)
    → r.blocked_until ≡ some until
    → now < until
    → (apply_block_transition r now (timed c)).blocked_until ≡ some (max until c.until)
unfolding apply_block_transition
timed-later r now until c e h = ground arith

-- After a timed block that ends later than now the account is blocked, whatever stood before.
pub timed-active :
    (r : AccountRecord) (now : DateTime) (c : RetryableBlock)
    → now < c.until
    → has_active_block_at (apply_block_transition r now (timed c)) now ≡ true
unfolding apply_block_transition
timed-active r now c h = ground arith

-- A test that every level below a bound passes.
passes_below : (ℕ → Bool) → ℕ → Bool
passes_below test zero = true
passes_below test (suc bound) = passes_below test bound && test bound

passes_below-lt :
    (test : ℕ → Bool) (bound level : ℕ)
    → level < bound
    → passes_below test bound ≡ true
    → test level ≡ true
unfolding passes_below
passes_below-lt test zero level small all = absurd (omega arith)
passes_below-lt test (suc bound) level small all = ground (arith, passes_below-lt test bound level)

-- The backoff in nanoseconds, without the saturations of the source.
abbrev pub backoff_by_level : ℕ → Duration
backoff_by_level level = elim (ltb level 11) [ true ↦ seconds (2 ^ level) | false ↦ seconds 1800 ]

backoff_table : passes_below (λ l. nat_eq (next_local_backoff l) (backoff_by_level l)) 64 ≡ true
unfolding passes_below next_local_backoff
backoff_table = refl

-- The local backoff doubles from one second and stops at half an hour, from level 11 on, for every
-- level: no shift or product overflows.
pub next_local_backoff-eq : (level : ℕ) → next_local_backoff level ≡ backoff_by_level level
unfolding next_local_backoff
next_local_backoff-eq level = elim (Bool-cases (ltb level 64)) [
  | inl small ↦
      let same = passes_below-lt _ 64 level (ground arith) backoff_table in ground (arith, same)
  | inr large ↦ ground arith
]
