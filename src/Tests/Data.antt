-- ===== src/Tests/Data.antt =====
-- The accounts, the clock and the parsers that the tests run on.
use codaze.Prelude.{false, none, some, [], ◌∷◌, arith, refl}
use codaze.Prelude.Assoc.{lookup}
use codaze.Prelude.Time.{DateTime, seconds, Chrono}
use codaze.Accounts.Types.{RoutingState, BlockedReason, BlockedSource, AccountRecord, AccountStore}
use codaze.Accounts.Invariant.{IsConsistent}
use codaze.Accounts.Selection.{Readings}
use codaze.Accounts.Store.{IsValid}
use codaze.Semantics.Payload.{Parsers}

abbrev pub clock : Chrono
clock = record { from_std = λ d. some d; seconds_max = seconds 9_223_372_036_854_775 }

abbrev pub noon : DateTime
noon = seconds 43_200

abbrev pub at_noon : Readings
at_noon = record { refreshed = noon; tested = noon; selected = noon; checked = noon }

-- An account with a token that is good until one o'clock.
abbrev pub alice : AccountRecord
alice = record {
  id = "alice";
  file_path = "accounts" ∷ "alice.json" ∷ [];
  label = none;
  email = some "alice@example.org";
  refresh_token = "refresh-alice";
  access_token = some "access-alice";
  account_id = some "acc-1";
  plan_type = none;
  access_token_expires_at = some (seconds 46_800);
  last_refresh_at = none;
  routing_state = RoutingState.ready;
  blocked_reason = none;
  blocked_source = none;
  blocked_until = none;
  local_backoff_level = 0;
  refresh_in_flight = false;
  in_flight_requests = 1;
  last_selected_at = none;
  last_success_at = none;
  last_error_at = none;
  last_error = none;
  auth_invalid_tombstone = false;
  detached = false;
}

-- An account that is blocked until a minute past noon.
abbrev pub bob : AccountRecord
bob = record alice {
  id = "bob";
  routing_state = RoutingState.cooldown;
  blocked_reason = some BlockedReason.rate_limited;
  blocked_source = some BlockedSource.upstream_retry_after;
  blocked_until = some (seconds 43_260);
}

-- An account whose refresh token was refused, with a request still in flight.
abbrev pub carol : AccountRecord
carol = record alice {
  id = "carol";
  access_token = none;
  routing_state = RoutingState.auth_invalid;
  blocked_reason = some BlockedReason.auth_invalid;
  blocked_source = some BlockedSource.fixed_policy;
}

abbrev pub pool : AccountStore
pool = record {
  accounts_dir = "accounts" ∷ [];
  records = ("alice", alice) ∷ ("bob", bob) ∷ [];
  round_robin_cursor = 0;
}

pub alice-IsConsistent : IsConsistent alice
alice-IsConsistent = record {
  sourced = refl;
  reasoned = refl;
  condemned = refl;
  level = omega arith;
  load = omega arith;
}

pub bob-IsConsistent : IsConsistent bob
bob-IsConsistent = record {
  sourced = refl;
  reasoned = refl;
  condemned = refl;
  level = omega arith;
  load = omega arith;
}

pub pool-IsValid : IsValid pool
unfolding lookup
pool-IsValid = record {
  distinct = (refl, (refl, tt));
  good = (
    record { named = refl; consistent = alice-IsConsistent },
    (record { named = refl; consistent = bob-IsConsistent }, tt),
  );
  cursor = omega arith;
}

-- A parser that knows no JSON and no date.
abbrev pub no_parsers : Parsers
no_parsers = record { json = λ s. none; rfc2822 = λ s. none; scaled_seconds = λ s u. none }
