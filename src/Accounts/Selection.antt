-- ===== src/Accounts/Selection.antt =====
-- src/accounts/selection.rs: the choice of an account for a request. The readings of the clock in one
-- call are arguments; those of the tests of eligibility are one reading.
pub mod Laws
pub mod Revived
use codaze.Prelude.{
  ◌+◌, ◌-◌, String, Bool, true, not, ◌&&◌, Option, none, some, List, [], ◌∷◌, map, if◌then◌else◌,
  is_some, leb, min, contains, keep_if, any, filter_map, and_then,
}
use Prim.Native.String.{compare}
use codaze.Prelude.Assoc.{lookup, values}
use codaze.Prelude.Order.{sort_by, min_by}
use codaze.Prelude.Result.{Result, ok, err}
use codaze.Prelude.Time.{DateTime, Duration, seconds, Chrono, u32_max}
use codaze.Config.{RoutingPolicy}
use codaze.Router.{RouteCandidate, by_id, select_candidate}
use codaze.Accounts.Types.{
  RoutingState, BlockedReason, AccountRecord, AccountStore, AccountView, view_of, AccountSelection,
  SelectionFailure, no_eligible_account, internal, selected_account_disappeared, PoolBlockSummary,
  is_auth_invalid,
}
use codaze.Accounts.Block.{has_active_block_at, compare_block_priority, duration_from_std}
use codaze.Accounts.Lifecycle.{update}
use codaze.Accounts.Refresh.{refresh_expired_blocks}

unfoldable pub is_eligible : DateTime → AccountRecord → Bool
is_eligible now r =
    not r.detached
    && not r.refresh_in_flight
    && not (is_auth_invalid r.routing_state)
    && elim r.blocked_until [ none ↦ true | some until ↦ leb until now ]

abbrev pub candidate_of : AccountRecord → RouteCandidate
candidate_of r = record {
  account_id = r.id;
  in_flight_requests = r.in_flight_requests;
  last_selected_at = r.last_selected_at;
}

-- The test that `build_route_candidates` filters by.
abbrev pub is_candidate : List String → DateTime → AccountRecord → Bool
is_candidate excluded now r = is_eligible now r && not (contains excluded r.id)

unfoldable pub build_route_candidates : AccountStore → List String → DateTime → List RouteCandidate
build_route_candidates s excluded now =
    sort_by by_id (map candidate_of (keep_if (is_candidate excluded now) (values s.records)))

unfoldable pub token_needs_refresh : AccountRecord → Duration → DateTime → Bool
token_needs_refresh r skew now = elim r.access_token_expires_at [
  | none ↦ true
  | some expires_at ↦ if is_some r.access_token then leb expires_at (now + skew) else true
]

-- The readings of the clock in one `select_account`.
pub record Readings : Type 0 where
  pub refreshed : DateTime
  pub tested : DateTime
  pub selected : DateTime
  pub checked : DateTime

unfoldable pub lease : Readings → Duration → AccountRecord → AccountRecord
unfolding token_needs_refresh
lease at skew r =
    let s = record r {
      in_flight_requests = min u32_max (r.in_flight_requests + 1);
      last_selected_at = some at.selected;
    } in
    if token_needs_refresh s skew at.checked
    then record s { routing_state = RoutingState.warming; refresh_in_flight = true }
    else s

-- The account chosen by `select_candidate` is taken from the store as the expired blocks and the new
-- cursor have left it.
unfoldable pub lease_chosen :
    AccountStore
    → Option String
    → Readings
    → Duration
    → Result SelectionFailure AccountSelection × AccountStore
unfolding lease
lease_chosen s none at skew = (err no_eligible_account, s)
lease_chosen s (some id) at skew = elim (lookup id s.records) [
  | none ↦ (err (internal selected_account_disappeared), s)
  | some r ↦ (
    ok (record {
      account_id = id;
      refresh_token = r.refresh_token;
      needs_refresh = token_needs_refresh r skew at.checked;
    }),
    update s id (lease at skew),
  )
]

unfoldable pub select_account :
    AccountStore
    → RoutingPolicy
    → Duration
    → List String
    → Readings
    → Result SelectionFailure AccountSelection × AccountStore
unfolding refresh_expired_blocks build_route_candidates lease_chosen
select_account s policy skew excluded at =
    let s' = refresh_expired_blocks s at.refreshed in
    let candidates = build_route_candidates s' excluded at.tested in
    let (chosen, cursor) = select_candidate policy candidates s'.round_robin_cursor in
    lease_chosen (record s' { round_robin_cursor = cursor }) chosen at skew

unfoldable pub list : AccountStore → DateTime → List AccountView × AccountStore
unfolding refresh_expired_blocks view_of
list s now =
    let s' = refresh_expired_blocks s now in
    (sort_by (λ left right. compare left.id right.id) (map view_of (values s'.records)), s')

abbrev pub is_routeable : List String → AccountRecord → Bool
is_routeable excluded r =
    not r.detached && not (is_auth_invalid r.routing_state) && not (contains excluded r.id)

abbrev is_free : DateTime → AccountRecord → Bool
is_free now r = not r.refresh_in_flight && not (has_active_block_at r now)

abbrev block_of : AccountRecord → Option (BlockedReason × Option DateTime)
block_of r = elim r.blocked_reason [ none ↦ none | some reason ↦ some (reason, r.blocked_until) ]

-- `(until - now).to_std().ok()`: there is none before `now`.
abbrev time_left : DateTime → DateTime → Option Duration
time_left now until = if leb now until then some (until - now) else none

module _ (chrono : Chrono) where
  -- The summary over the routeable records.
  summarize : List AccountRecord → DateTime → Option PoolBlockSummary
  unfolding has_active_block_at compare_block_priority duration_from_std
  summarize [] now = none
  summarize (r ∷ rs) now =
      if any (is_free now) (r ∷ rs)
      then none
      else if any (λ r. r.refresh_in_flight) (r ∷ rs)
      then some (record {
        blocked_reason = BlockedReason.temporarily_unavailable;
        blocked_until = some (now + duration_from_std chrono (seconds 1));
        retry_after = some (seconds 1);
      })
      else elim (min_by compare_block_priority
          (filter_map block_of (keep_if (λ r. not r.refresh_in_flight) (r ∷ rs)))) [
            | none ↦ none
            | some (reason, until) ↦ some (record {
              blocked_reason = reason;
              blocked_until = until;
              retry_after = and_then until (time_left now);
            })
          ]

  unfoldable pub summarize_selection_failure :
      AccountStore → List String → DateTime → DateTime → Option PoolBlockSummary × AccountStore
  unfolding refresh_expired_blocks summarize
  summarize_selection_failure s excluded refreshed now =
      let s' = refresh_expired_blocks s refreshed in
      (summarize (keep_if (is_routeable excluded) (values s'.records)) now, s')
