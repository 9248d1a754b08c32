-- ===== src/Failover/Step.antt =====
-- src/failover.rs: the data of the loop, and what it waits for. The tasks that run beside it are part
-- of the environment: they change the store whenever the loop waits without the lock.
use codaze.Prelude.{ℕ, String, Bool, true, false, Option, none, some, List}
use codaze.Prelude.Result.{Result}
use codaze.Prelude.Time.{DateTime, Duration, Chrono}
use codaze.Classifier.{FailureClass}
use codaze.Semantics.Payload.{Parsers}
use codaze.Semantics.Analysis.{TransportError, http, analyze_request_http}
use codaze.Accounts.Types.{
  BlockedReason, AccountStore, Error, SelectionFailure, no_eligible_account, RefreshedAccount,
  UpstreamAccount, PoolBlockSummary,
}
use codaze.Accounts.Selection.{Readings, summarize_selection_failure}
use codaze.Accounts.AuthInvalid.{Disk}

pub data SuccessDisposition : Type 0 where
  release_immediately hold_until_caller : SuccessDisposition

pub record RefreshFailure : Type 0 where
  pub status : ℕ
  pub body : String
  pub class : FailureClass
  pub retry_after : Option Duration

pub data FailoverFailure : Type 0 where
  refresh : RefreshFailure → FailoverFailure
  transport : TransportError → FailoverFailure
  pool_blocked : PoolBlockSummary → FailoverFailure
  caller_json : ℕ → String → FailoverFailure
  internal : ℕ → Error → FailoverFailure

pub record RoutedExecution (T : Type 0) : Type 0 where
  pub account_id : String
  pub value : T

-- What the loop meets while it runs, by the state `W` of the world: the clock, the other tasks, the
-- disk, the upstream. `next` is the world after a wait. `details` is the text of a failure.
pub record Env (W T : Type 0) : Type 0 where
  pub chrono : Chrono
  pub parsers : Parsers
  pub readings : W → Readings
  pub now : W → DateTime
  pub others : W → AccountStore → AccountStore
  pub disk : W → Disk
  pub refresh : W → String → Result RefreshFailure RefreshedAccount
  pub execute : W → UpstreamAccount → Result TransportError T
  pub details : TransportError → FailureClass → String
  pub refresh_details : RefreshFailure → String
  pub next : W → W

-- The variables of the loop. (`last_retryable_response` is written and never read.)
pub record LoopState (W : Type 0) : Type 0 where
  pub world : W
  pub store : AccountStore
  pub tried : List String
  pub forced : List String
  pub summary : Option PoolBlockSummary

-- The end of a round: the next one, or the answer.
pub data Round (W T : Type 0) : Type 0 where
  continue : LoopState W → Round W T
  return : Result FailoverFailure (RoutedExecution T) → LoopState W → Round W T

unfoldable pub should_failover_failure_class : FailureClass → Bool
should_failover_failure_class FailureClass.request_rejected = false
should_failover_failure_class FailureClass.internal_failure = false
should_failover_failure_class _ = true

abbrev pub internal_server_error : ℕ
internal_server_error = 500

-- `extract_retry_after`, which reads a response as one of status 502.
unfoldable pub extract_retry_after : Parsers → TransportError → DateTime → Option Duration
unfolding analyze_request_http
extract_retry_after p (http status headers body) now =
    (analyze_request_http p 502 headers body now).retry_after
extract_retry_after p _ now = none

abbrev pub default_summary : PoolBlockSummary
default_summary = record {
  blocked_reason = BlockedReason.temporarily_unavailable;
  blocked_until = none;
  retry_after = none;
}

unfoldable pub resolve_selection_failure :
    Chrono
    → AccountStore
    → SelectionFailure
    → List String
    → Option PoolBlockSummary
    → DateTime
    → DateTime
    → FailoverFailure × AccountStore
unfolding summarize_selection_failure
resolve_selection_failure chrono s (SelectionFailure.internal e) excluded candidate refreshed now =
    (FailoverFailure.internal internal_server_error e, s)
resolve_selection_failure chrono s no_eligible_account excluded candidate refreshed now =
    let (summary, s') = summarize_selection_failure chrono s excluded refreshed now in
    elim summary [
      | some found ↦ (pool_blocked found, s')
      | none ↦ elim candidate [
        | some last ↦ (pool_blocked last, s')
        | none ↦ (pool_blocked default_summary, s')
      ]
    ]
