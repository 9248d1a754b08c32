-- ===== src/Accounts/Block.antt =====
-- The blocks of src/accounts/mod.rs: why and until when an account gets no requests. The readings
-- of the clock are arguments.
pub mod Precedence
use codaze.Prelude.{
  ℕ, ◌+◌, ◌-◌, ◌*◌, ◌^◌, min, Bool, true, false, ◌||◌, Option, none, some, Ordering, if◌then◌else◌,
  is_some, ltb, leb, unwrap_or,
}
use Prim.Native.Nat.{compare as compare_nat}
use Prim.Native.Nat.Ordering.{lt, gt}
use codaze.Prelude.Order.{then_with}
use codaze.Prelude.Time.{DateTime, Duration, seconds, Chrono, u32_max, u64_max}
use codaze.Accounts.Types.{
  RoutingState, BlockedReason, BlockedSource, AccountRecord, WakeDisposition, woken,
  skipped_auth_invalid, is_auth_invalid,
}

-- `TEMPORARY_FAILURE_COOLDOWN_SECONDS`, `RISK_COOLDOWN_SECONDS`, `LOCAL_BACKOFF_BASE_SECONDS`,
-- `LOCAL_BACKOFF_MAX_SECONDS`
abbrev pub temporary_failure_cooldown_seconds : ℕ
temporary_failure_cooldown_seconds = 60

abbrev pub risk_cooldown_seconds : ℕ
risk_cooldown_seconds = 1800

abbrev pub local_backoff_base_seconds : ℕ
local_backoff_base_seconds = 1

abbrev pub local_backoff_max_seconds : ℕ
local_backoff_max_seconds = 30 * 60

pub record RetryableBlock : Type 0 where
  pub reason : BlockedReason
  pub source : BlockedSource
  pub until : DateTime

pub data BlockTransition : Type 0 where
  no_change clear : BlockTransition
  permanent : BlockedReason → BlockedSource → BlockTransition
  timed : RetryableBlock → BlockTransition

unfoldable pub has_active_block_at : AccountRecord → DateTime → Bool
has_active_block_at r now = elim r.blocked_until [
  | some until ↦ ltb now until
  | none ↦ is_some r.blocked_reason
]

-- The test that a timed block passes to replace what stands.
should_replace_existing : AccountRecord → DateTime → RetryableBlock → Bool
unfolding has_active_block_at
should_replace_existing r now candidate = elim r.blocked_until [
  | some existing ↦ if ltb now existing then leb existing candidate.until else true
  | none ↦ if has_active_block_at r now then false else true
]

unfoldable pub apply_block_transition : AccountRecord → DateTime → BlockTransition → AccountRecord
unfolding should_replace_existing
apply_block_transition r now no_change = r
apply_block_transition r now clear = record r {
  blocked_reason = none;
  blocked_source = none;
  blocked_until = none;
}
apply_block_transition r now (permanent reason source) = record r {
  blocked_reason = some reason;
  blocked_source = some source;
  blocked_until = none;
}
apply_block_transition r now (timed candidate) =
    if should_replace_existing r now candidate
    then record r {
      blocked_reason = some candidate.reason;
      blocked_source = some candidate.source;
      blocked_until = some candidate.until;
    }
    else r

unfoldable pub clear_block : AccountRecord → DateTime → AccountRecord
unfolding apply_block_transition
clear_block r now = apply_block_transition r now clear

unfoldable pub apply_auth_invalid_block : AccountRecord → DateTime → AccountRecord
unfolding apply_block_transition
apply_auth_invalid_block r now =
    apply_block_transition r now (permanent BlockedReason.auth_invalid BlockedSource.fixed_policy)

-- `1u64.checked_shl(level).unwrap_or(u64::MAX)`, times the base, saturated, at most the maximum.
unfoldable pub next_local_backoff : ℕ → Duration
next_local_backoff level =
    let multiplier : ℕ = elim (ltb level 64) [ true ↦ 2 ^ level | false ↦ u64_max ] in
    seconds (min (min u64_max (local_backoff_base_seconds * multiplier)) local_backoff_max_seconds)

abbrev pub is_auth_invalid_reason : Option BlockedReason → Bool
is_auth_invalid_reason (some BlockedReason.auth_invalid) = true
is_auth_invalid_reason _ = false

-- The state of an account that nothing holds back.
abbrev pub idle_state : AccountRecord → RoutingState
idle_state r = if is_some r.access_token then RoutingState.ready else RoutingState.cold

unfoldable pub apply_wake : AccountRecord → DateTime → AccountRecord × WakeDisposition
unfolding clear_block
apply_wake r now =
    if is_auth_invalid r.routing_state || is_auth_invalid_reason r.blocked_reason
    then (r, skipped_auth_invalid)
    else let cleared = clear_block r now in
      (
        record cleared {
          local_backoff_level = 0;
          routing_state = if r.refresh_in_flight then RoutingState.warming else idle_state r;
        },
        woken,
      )

unfoldable pub blocked_reason_rank : BlockedReason → ℕ
blocked_reason_rank BlockedReason.quota_exhausted = 0
blocked_reason_rank BlockedReason.rate_limited = 1
blocked_reason_rank BlockedReason.risk_controlled = 2
blocked_reason_rank BlockedReason.temporarily_unavailable = 3
blocked_reason_rank BlockedReason.auth_invalid = 4

abbrev by_rank : BlockedReason → BlockedReason → Ordering
by_rank l r = compare_nat (blocked_reason_rank l) (blocked_reason_rank r)

unfoldable pub compare_block_priority :
    BlockedReason × Option DateTime → BlockedReason × Option DateTime → Ordering
unfolding blocked_reason_rank
compare_block_priority (l, some left_until) (r, some right_until) =
    then_with (compare_nat left_until right_until) (by_rank l r)
compare_block_priority (l, some left_until) (r, none) = lt
compare_block_priority (l, none) (r, some right_until) = gt
compare_block_priority (l, none) (r, none) = by_rank l r

module _ (chrono : Chrono) where
  unfoldable pub duration_from_std : Duration → Duration
  duration_from_std d = unwrap_or (chrono.from_std d) chrono.seconds_max

  -- The block, and the record with its backoff level raised if the backoff was used.
  unfoldable pub build_retryable_block :
      AccountRecord → DateTime → BlockedReason → Option Duration → RetryableBlock × AccountRecord
  unfolding duration_from_std next_local_backoff
  build_retryable_block r now reason (some retry_after) = (
    record {
      reason = reason;
      source = BlockedSource.upstream_retry_after;
      until = now + duration_from_std retry_after;
    },
    r,
  )
  build_retryable_block r now reason none = (
    record {
      reason = reason;
      source = BlockedSource.local_backoff;
      until = now + duration_from_std (next_local_backoff r.local_backoff_level);
    },
    record r { local_backoff_level = min u32_max (r.local_backoff_level + 1) },
  )

  unfoldable pub apply_retryable_block :
      AccountRecord → DateTime → BlockedReason → Option Duration → AccountRecord
  unfolding build_retryable_block apply_block_transition
  apply_retryable_block r now reason retry_after =
      let (candidate, r') = build_retryable_block r now reason retry_after in
      apply_block_transition r' now (timed candidate)

unfoldable pub apply_fixed_block :
    AccountRecord → DateTime → BlockedReason → Duration → AccountRecord
unfolding apply_block_transition
apply_fixed_block r now reason duration = apply_block_transition r now (
    timed (record { reason = reason; source = BlockedSource.fixed_policy; until = now + duration }))
