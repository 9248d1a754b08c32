-- ===== src/Accounts/Invariant.antt =====
-- What holds of every record of src/accounts at all times.
pub mod Requests
use codaze.Prelude.{ℕ, ◌≤◌, ◌≡◌, Bool, true, false, not, ◌&&◌, ◌||◌, Option, none, some, is_some}
use codaze.Prelude.Time.{u32_max}
use codaze.Accounts.Types.{AccountRecord}
use codaze.Accounts.Block.{is_auth_invalid_reason}

-- A block has a reason and a source, or neither; an end only with a reason. An account whose refresh
-- token was refused is blocked for that reason, without an end. The counters fit their 32 bits.
pub record IsConsistent (r : AccountRecord) : Type 0 where
  pub sourced : is_some r.blocked_reason ≡ is_some r.blocked_source
  pub reasoned : (not (is_some r.blocked_until) || is_some r.blocked_reason) ≡ true
  pub condemned :
      (not r.auth_invalid_tombstone
        || (is_auth_invalid_reason r.blocked_reason && not (is_some r.blocked_until)))
      ≡ true
  pub level : r.local_backoff_level ≤ u32_max
  pub load : r.in_flight_requests ≤ u32_max
