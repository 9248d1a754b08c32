-- ===== src/Accounts/Selection/Revived.antt =====
-- A block without an end does not stop src/accounts/selection.rs from selecting an account.
use codaze.Prelude.{String, true, false, Option, none, some, ◌≡◌, arith}
use codaze.Prelude.Time.{DateTime, Duration, Chrono}
use codaze.Classifier.{FailureClass}
use codaze.Accounts.Types.{BlockedReason, AccountRecord}
use codaze.Accounts.Block.{has_active_block_at, apply_block_transition, apply_retryable_block}
use codaze.Accounts.Lifecycle.{fail_by, request_failure}
use codaze.Accounts.Selection.{is_eligible}

-- If an attached account is blocked without an end, as one whose refresh token was refused is, and
-- another request on it ends with a rate limit, it stays so blocked and yet is eligible from then on.
pub rate_limited-eligible :
    (chrono : Chrono) (r : AccountRecord) (retry_after : Option Duration) (details : String)
    (now later : DateTime) (reason : BlockedReason)
    → r.detached ≡ false
    → r.blocked_until ≡ none
    → r.blocked_reason ≡ some reason
    → let s = request_failure chrono FailureClass.rate_limited retry_after details now r in
      (has_active_block_at s later ≡ true)
      × (s.blocked_reason ≡ some reason)
      × (is_eligible later s ≡ true)
unfolding request_failure fail_by apply_retryable_block apply_block_transition has_active_block_at
    is_eligible
rate_limited-eligible chrono r (some d) details now later reason attached endless blocked =
    ground arith
rate_limited-eligible chrono r none details now later reason attached endless blocked = ground arith
