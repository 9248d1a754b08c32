-- ===== src/Failover/Settlement.antt =====
-- src/failover.rs: how the end of a request reaches the accounts.
use codaze.Prelude.{String, Option}
use codaze.Prelude.Result.{Result, ok}
use codaze.Prelude.Time.{DateTime, Duration, Chrono}
use codaze.Classifier.{FailureClass}
use codaze.Accounts.Types.{AccountStore, Error}
use codaze.Accounts.Lifecycle.{mark_request_success, release_selection, mark_request_failure}

pub data AccountSettlement : Type 0 where
  success release : AccountSettlement
  failure : FailureClass → Option Duration → String → AccountSettlement

unfoldable pub apply_account_settlement :
    Chrono
    → AccountStore
    → String
    → AccountSettlement
    → DateTime
    → Result Error (Unit {0}) × AccountStore
unfolding mark_request_success release_selection
apply_account_settlement chrono s id success now = (ok tt, mark_request_success s id now)
apply_account_settlement chrono s id release now = (ok tt, release_selection s id now)
apply_account_settlement chrono s id (failure class retry_after details) now =
    mark_request_failure chrono s id class retry_after details now
