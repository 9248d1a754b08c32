-- ===== src/Accounts/Store.antt =====
-- The store of src/accounts as a state machine: a step for every operation that changes it.
pub mod Ids
pub mod Keeps
pub mod Reachable
pub mod Leaks
pub mod Drained
use codaze.Prelude.{ℕ, String, Option, none, some, List, ◌≡◌, ◌≤◌}
use codaze.Prelude.Assoc.{Distinct, Entries}
use codaze.Prelude.Result.{Result, ok, err}
use codaze.Prelude.Time.{DateTime, Duration, Chrono}
use codaze.Classifier.{FailureClass}
use codaze.Config.{RoutingPolicy}
use codaze.Router.{usize_max}
use codaze.Accounts.Types.{
  AccountRecord, AccountStore, FilePath, RefreshedAccount, AccountDiskOp, AuthInvalidPlan,
  WakeAccountResult, ImportAccountPlan, ImportAccountResult, RemoveAccountPlan,
}
use codaze.Accounts.Lifecycle.{
  mark_request_success, apply_failure, invalidate_access_token, release_selection,
}
use codaze.Accounts.Refresh.{finish_refresh_success_without_persist}
use codaze.Accounts.Wake.{wake_account, wake_all_accounts}
use codaze.Accounts.AuthInvalid.{
  prepare_auth_invalid_failure, finalize_auth_invalid_failure, note_auth_invalid_trash_failure,
}
use codaze.Accounts.Selection.{Readings, select_account, list, summarize_selection_failure}
use codaze.Accounts.Import.{apply_import_account_plan, apply_remove_account_plan}
use codaze.Accounts.Sync.{DiskSyncPlan, apply_disk_sync_plan}
use codaze.Accounts.Invariant.{IsConsistent}

-- The key of a record is its id, and the record is consistent.
pub record IsGood (id : String) (r : AccountRecord) : Type 0 where
  pub named : r.id ≡ id
  pub consistent : IsConsistent r

pub record IsValid (s : AccountStore) : Type 0 where
  pub distinct : Distinct s.records
  pub good : Entries IsGood s.records
  pub cursor : s.round_robin_cursor ≤ usize_max

-- The operations under the lock of the store. A plan is applied to whatever the store has become, so
-- any plan can be applied.
pub data Step (chrono : Chrono) (s : AccountStore) : AccountStore → Type 0 where
  select :
      (policy : RoutingPolicy) (skew : Duration) (excluded : List String) (at : Readings)
      → Step chrono s (select_account s policy skew excluded at).1
  summarize :
      (excluded : List String) (refreshed now : DateTime)
      → Step chrono s (summarize_selection_failure chrono s excluded refreshed now).1
  list_all : (now : DateTime) → Step chrono s (list s now).1
  succeed : (id : String) (now : DateTime) → Step chrono s (mark_request_success s id now)
  fail :
      (id : String) (failure : FailureClass) (retry_after : Option Duration) (details : String)
      (now : DateTime)
      → Step chrono s (apply_failure chrono s id failure retry_after details now)
  invalidate : (id : String) (now : DateTime) → Step chrono s (invalidate_access_token s id now)
  release : (id : String) (now : DateTime) → Step chrono s (release_selection s id now)
  refresh :
      (id : String) (refreshed : RefreshedAccount) (now : DateTime) {op : Option AccountDiskOp}
      {t : AccountStore}
      → finish_refresh_success_without_persist s id refreshed now ≡ ok (op, t)
      → Step chrono s t
  prepare :
      (id : String) (details : String) (now : DateTime) {plan : AuthInvalidPlan} {t : AccountStore}
      → prepare_auth_invalid_failure s id details now ≡ ok (plan, t)
      → Step chrono s t
  finalize :
      (id : String) (now : DateTime) {t : AccountStore}
      → finalize_auth_invalid_failure s id now ≡ ok t
      → Step chrono s t
  note :
      (id error : String) (now : DateTime)
      → Step chrono s (note_auth_invalid_trash_failure s id error now)
  wake :
      (id : String) (now : DateTime) {result : WakeAccountResult} {t : AccountStore}
      → wake_account s id now ≡ ok (result, t)
      → Step chrono s t
  wake_all : (now : DateTime) → Step chrono s (wake_all_accounts s now).1
  import_account :
      (plan : ImportAccountPlan) {result : ImportAccountResult} {t : AccountStore}
      → apply_import_account_plan s plan ≡ ok (result, t)
      → Step chrono s t
  remove_account : (plan : RemoveAccountPlan) → Step chrono s (apply_remove_account_plan s plan)
  sync : (plan : DiskSyncPlan) → Step chrono s (apply_disk_sync_plan s plan)

-- What any history of operations makes of an empty store.
pub data Reach (chrono : Chrono) (dir : FilePath) : AccountStore → Type 0 where
  start : {s : AccountStore} → s ≡ codaze.Accounts.Types.new_store dir → Reach chrono dir s
  next : {s t : AccountStore} → Reach chrono dir s → Step chrono s t → Reach chrono dir t
