-- ===== src/Accounts/Store/Ids.antt =====
-- No operation on a record of src/accounts changes its id.
use codaze.Prelude.{String, Option, none, some, ◌≡◌, arith}
use codaze.Prelude.Time.{DateTime, Duration, Chrono}
use codaze.Classifier.{FailureClass}
use codaze.Accounts.Types.{AccountRecord, RefreshedAccount}
use codaze.Accounts.Block.{apply_wake}
use codaze.Accounts.Lifecycle.{
  request_success, drop_access_token, release_record, fail_by, request_failure,
}
use codaze.Accounts.Refresh.{refresh_success, expire_block}
use codaze.Accounts.Selection.{Readings, lease}

pub request_success-id : (now : DateTime) (r : AccountRecord) → (request_success now r).id ≡ r.id
unfolding request_success
request_success-id now r = ground arith

pub drop_access_token-id :
    (now : DateTime) (r : AccountRecord) → (drop_access_token now r).id ≡ r.id
unfolding drop_access_token
drop_access_token-id now r = ground arith

pub release_record-id : (now : DateTime) (r : AccountRecord) → (release_record now r).id ≡ r.id
unfolding release_record
release_record-id now r = ground arith

pub fail_by-id :
    (chrono : Chrono) (f : FailureClass) (now : DateTime) (d : Option Duration) (r : AccountRecord)
    → (fail_by chrono f now d r).id ≡ r.id
unfolding fail_by
fail_by-id chrono FailureClass.access_token_rejected now d r = ground arith
fail_by-id chrono FailureClass.rate_limited now none r = ground arith
fail_by-id chrono FailureClass.rate_limited now (some d) r = ground arith
fail_by-id chrono FailureClass.quota_exhausted now none r = ground arith
fail_by-id chrono FailureClass.quota_exhausted now (some d) r = ground arith
fail_by-id chrono FailureClass.temporary_failure now none r = ground arith
fail_by-id chrono FailureClass.temporary_failure now (some d) r = ground arith
fail_by-id chrono _ now d r = ground arith

pub request_failure-id :
    (chrono : Chrono) (f : FailureClass) (d : Option Duration) (details : String) (now : DateTime)
    (r : AccountRecord)
    → (request_failure chrono f d details now r).id ≡ r.id
unfolding request_failure
request_failure-id chrono f d details now r = fail_by-id chrono f now d _

pub refresh_success-id :
    (refreshed : RefreshedAccount) (now : DateTime) (r : AccountRecord)
    → (refresh_success refreshed now r).id ≡ r.id
unfolding refresh_success
refresh_success-id refreshed now r = ground arith

pub expire_block-id : (now : DateTime) (r : AccountRecord) → (expire_block now r).id ≡ r.id
unfolding expire_block
expire_block-id now r = ground arith

pub lease-id : (at : Readings) (skew : Duration) (r : AccountRecord) → (lease at skew r).id ≡ r.id
unfolding lease
lease-id at skew r = ground arith

pub apply_wake-id : (now : DateTime) (r : AccountRecord) → (apply_wake r now).0.id ≡ r.id
unfolding apply_wake
apply_wake-id now r = ground arith
