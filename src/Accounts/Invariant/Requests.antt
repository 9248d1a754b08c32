-- ===== src/Accounts/Invariant/Requests.antt =====
-- The operations on one record keep it consistent.
use codaze.Prelude.{String, Option, none, some, arith}
use codaze.Prelude.Time.{DateTime, Duration, Chrono}
use codaze.Classifier.{FailureClass}
use codaze.Accounts.Types.{AccountRecord, RefreshedAccount, FilePath, AccountFile}
use codaze.Accounts.Block.{apply_wake}
use codaze.Accounts.Lifecycle.{
  request_success, drop_access_token, release_record, fail_by, request_failure,
}
use codaze.Accounts.Refresh.{refresh_success, expire_block}
use codaze.Accounts.AuthInvalid.{condemn, bury, note_trash_failure}
use codaze.Accounts.Selection.{Readings, lease}
use codaze.Accounts.Import.{fresh_record, reread_record, detach}
use codaze.Accounts.Invariant.{IsConsistent}

pub request_success-IsConsistent :
    (now : DateTime) {r : AccountRecord} → IsConsistent r → IsConsistent (request_success now r)
unfolding request_success
request_success-IsConsistent now c = ground arith

pub drop_access_token-IsConsistent :
    (now : DateTime) {r : AccountRecord} → IsConsistent r → IsConsistent (drop_access_token now r)
unfolding drop_access_token
drop_access_token-IsConsistent now c = ground arith

pub release_record-IsConsistent :
    (now : DateTime) {r : AccountRecord} → IsConsistent r → IsConsistent (release_record now r)
unfolding release_record
release_record-IsConsistent now c = ground arith

fail_by-IsConsistent :
    (chrono : Chrono) (f : FailureClass) (now : DateTime) (retry_after : Option Duration)
    {r : AccountRecord}
    → IsConsistent r
    → IsConsistent (fail_by chrono f now retry_after r)
unfolding fail_by
fail_by-IsConsistent chrono FailureClass.access_token_rejected now retry_after c = ground arith
fail_by-IsConsistent chrono FailureClass.auth_invalid now retry_after c = ground arith
fail_by-IsConsistent chrono FailureClass.rate_limited now none c = ground arith
fail_by-IsConsistent chrono FailureClass.rate_limited now (some d) c = ground arith
fail_by-IsConsistent chrono FailureClass.quota_exhausted now none c = ground arith
fail_by-IsConsistent chrono FailureClass.quota_exhausted now (some d) c = ground arith
fail_by-IsConsistent chrono FailureClass.temporary_failure now none c = ground arith
fail_by-IsConsistent chrono FailureClass.temporary_failure now (some d) c = ground arith
fail_by-IsConsistent chrono _ now retry_after c = ground arith

pub request_failure-IsConsistent :
    (chrono : Chrono) (f : FailureClass) (retry_after : Option Duration) (details : String)
    (now : DateTime) {r : AccountRecord}
    → IsConsistent r
    → IsConsistent (request_failure chrono f retry_after details now r)
unfolding request_failure
request_failure-IsConsistent chrono f retry_after details now c =
    fail_by-IsConsistent chrono f now retry_after (ground arith)

pub refresh_success-IsConsistent :
    (refreshed : RefreshedAccount) (now : DateTime) {r : AccountRecord}
    → IsConsistent r
    → IsConsistent (refresh_success refreshed now r)
unfolding refresh_success
refresh_success-IsConsistent refreshed now c = ground arith

pub expire_block-IsConsistent :
    (now : DateTime) {r : AccountRecord} → IsConsistent r → IsConsistent (expire_block now r)
unfolding expire_block
expire_block-IsConsistent now c = ground arith

pub apply_wake-IsConsistent :
    (now : DateTime) {r : AccountRecord} → IsConsistent r → IsConsistent (apply_wake r now).0
unfolding apply_wake
apply_wake-IsConsistent now c = ground arith

pub condemn-IsConsistent :
    (now : DateTime) (details : String) {r : AccountRecord}
    → IsConsistent r
    → IsConsistent (condemn now details r)
unfolding condemn
condemn-IsConsistent now details c = ground arith

pub bury-IsConsistent :
    (now : DateTime) {r : AccountRecord} → IsConsistent r → IsConsistent (bury now r)
unfolding bury
bury-IsConsistent now c = ground arith

pub note_trash_failure-IsConsistent :
    (error : String) (now : DateTime) {r : AccountRecord}
    → IsConsistent r
    → IsConsistent (note_trash_failure error now r)
unfolding note_trash_failure
note_trash_failure-IsConsistent error now c = record {
  sourced = c.sourced;
  reasoned = c.reasoned;
  condemned = c.condemned;
  level = c.level;
  load = c.load;
}

pub lease-IsConsistent :
    (at : Readings) (skew : Duration) {r : AccountRecord}
    → IsConsistent r
    → IsConsistent (lease at skew r)
unfolding lease
lease-IsConsistent at skew c = ground arith

pub reread_record-IsConsistent :
    (path : FilePath) (disk : AccountFile) {r : AccountRecord}
    → IsConsistent r
    → IsConsistent (reread_record path disk r)
reread_record-IsConsistent path disk c = ground arith

pub fresh_record-IsConsistent :
    (id : String) (path : FilePath) (disk : AccountFile) → IsConsistent (fresh_record id path disk)
fresh_record-IsConsistent id path disk = ground arith

pub detach-IsConsistent : {r : AccountRecord} → IsConsistent r → IsConsistent (detach r)
detach-IsConsistent c = ground arith
