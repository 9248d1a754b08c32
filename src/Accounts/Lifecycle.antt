-- ===== src/Accounts/Lifecycle.antt =====
-- src/accounts/lifecycle.rs: how a request, a refresh and a wake change an account. Each operation
-- is split into what it does to the record and what it does to the store.
use codaze.Prelude.{
  ◌-◌, String, Bool, false, not, ◌&&◌, Option, none, some, if◌then◌else◌, is_some, nat_eq,
}
use codaze.Prelude.Assoc.{lookup, adjust, remove}
use codaze.Prelude.Result.{Result, ok}
use codaze.Prelude.Time.{DateTime, Duration, seconds, Chrono}
use codaze.Classifier.{FailureClass}
use codaze.Accounts.Types.{
  RoutingState, BlockedReason, AccountRecord, AccountStore, Error, is_auth_invalid, is_warming,
}
use codaze.Accounts.Block.{
  has_active_block_at, no_change, apply_block_transition, apply_auth_invalid_block, idle_state,
  apply_retryable_block, apply_fixed_block, temporary_failure_cooldown_seconds,
  risk_cooldown_seconds,
}

-- `get_mut`, and a change of the record that it finds.
abbrev pub update : AccountStore → String → (AccountRecord → AccountRecord) → AccountStore
update s id f = record s { records = adjust id f s.records }

abbrev pub removable : Option AccountRecord → Bool
removable none = false
removable (some r) = r.detached && nat_eq r.in_flight_requests 0 && not r.refresh_in_flight

unfoldable pub maybe_remove_detached : AccountStore → String → AccountStore
maybe_remove_detached s id =
    if removable (lookup id s.records) then record s { records = remove id s.records } else s

-- The request is over: `in_flight_requests.saturating_sub(1)`, no refresh in flight.
abbrev pub settle : AccountRecord → AccountRecord
settle r = record r { in_flight_requests = r.in_flight_requests - 1; refresh_in_flight = false }

unfoldable pub request_success : DateTime → AccountRecord → AccountRecord
unfolding has_active_block_at
request_success now r =
    let s = settle r in
    let t =
      if not (is_auth_invalid s.routing_state) && not (has_active_block_at s now)
      then record s { routing_state = idle_state s; local_backoff_level = 0; last_error = none }
      else s in
    record t { last_success_at = some now }

unfoldable pub mark_request_success : AccountStore → String → DateTime → AccountStore
unfolding request_success maybe_remove_detached
mark_request_success s id now = maybe_remove_detached (update s id (request_success now)) id

unfoldable pub drop_access_token : DateTime → AccountRecord → AccountRecord
unfolding has_active_block_at
drop_access_token now r =
    let s = record r {
      access_token = none;
      access_token_expires_at = none;
      refresh_in_flight = false;
    } in
    if not (is_auth_invalid s.routing_state) && not (has_active_block_at s now)
    then record s { routing_state = RoutingState.cold }
    else s

unfoldable pub invalidate_access_token : AccountStore → String → DateTime → AccountStore
unfolding drop_access_token maybe_remove_detached
invalidate_access_token s id now = maybe_remove_detached (update s id (drop_access_token now)) id

unfoldable pub release_record : DateTime → AccountRecord → AccountRecord
unfolding has_active_block_at
release_record now r =
    let s = settle r in
    if is_warming s.routing_state && not (has_active_block_at s now)
    then record s { routing_state = idle_state s }
    else s

unfoldable pub release_selection : AccountStore → String → DateTime → AccountStore
unfolding release_record maybe_remove_detached
release_selection s id now = maybe_remove_detached (update s id (release_record now)) id

module _ (chrono : Chrono) where
  -- The `match failure` of `apply_failure`.
  unfoldable pub fail_by : FailureClass → DateTime → Option Duration → AccountRecord → AccountRecord
  unfolding has_active_block_at apply_block_transition apply_auth_invalid_block
      apply_retryable_block apply_fixed_block
  fail_by FailureClass.access_token_rejected now retry_after r =
      apply_fixed_block
        (record r {
          access_token = none;
          access_token_expires_at = none;
          routing_state = RoutingState.temporarily_unavailable;
        })
        now BlockedReason.temporarily_unavailable (seconds temporary_failure_cooldown_seconds)
  fail_by FailureClass.auth_invalid now retry_after r =
      apply_auth_invalid_block
        (record r {
          routing_state = RoutingState.auth_invalid;
          access_token = none;
          access_token_expires_at = none;
        })
        now
  fail_by FailureClass.rate_limited now retry_after r =
      record (apply_retryable_block chrono r now BlockedReason.rate_limited retry_after) {
        routing_state = RoutingState.cooldown;
      }
  fail_by FailureClass.quota_exhausted now retry_after r =
      record (apply_retryable_block chrono r now BlockedReason.quota_exhausted retry_after) {
        routing_state = RoutingState.cooldown;
      }
  fail_by FailureClass.risk_controlled now retry_after r =
      apply_fixed_block (record r { routing_state = RoutingState.risk_controlled }) now
        BlockedReason.risk_controlled (seconds risk_cooldown_seconds)
  fail_by FailureClass.temporary_failure now retry_after r =
      let s = record r { routing_state = RoutingState.temporarily_unavailable } in
      if is_some retry_after
      then apply_retryable_block chrono s now BlockedReason.temporarily_unavailable retry_after
      else apply_fixed_block s now BlockedReason.temporarily_unavailable
          (seconds temporary_failure_cooldown_seconds)
  fail_by _ now retry_after r =
      let s = apply_block_transition r now no_change in
      if not (has_active_block_at s now) && not (is_auth_invalid s.routing_state)
      then record s { routing_state = idle_state s }
      else s

  unfoldable pub request_failure :
      FailureClass → Option Duration → String → DateTime → AccountRecord → AccountRecord
  unfolding fail_by
  request_failure failure retry_after details now r =
      fail_by failure now retry_after
        (record (settle r) { last_error_at = some now; last_error = some details })

  -- `apply_failure`, which never fails itself; `mark_request_failure` is the same call.
  unfoldable pub apply_failure :
      AccountStore → String → FailureClass → Option Duration → String → DateTime → AccountStore
  unfolding request_failure maybe_remove_detached
  apply_failure s id failure retry_after details now =
      maybe_remove_detached (update s id (request_failure failure retry_after details now)) id

  abbrev pub mark_request_failure :
      AccountStore
      → String
      → FailureClass
      → Option Duration
      → String
      → DateTime
      → Result Error (Unit {0}) × AccountStore
  mark_request_failure s id failure retry_after details now =
      (ok tt, apply_failure s id failure retry_after details now)
