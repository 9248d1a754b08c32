-- ===== src/Accounts/Store/Reachable.antt =====
-- Every store that a history of operations reaches is valid.
use codaze.Prelude.{String, Option, ◌≡◌, refl, sym, arith, inl, inr, Option-cases}
use mathlib.Core.Path.{subst}
use codaze.Prelude.Assoc.{lookup, keys}
use codaze.Prelude.Order.{sort_by}
use Prim.Native.String.{compare}
use codaze.Prelude.Result.{ok, >>=-eq-ok}
use codaze.Prelude.Time.{DateTime, Chrono}
use codaze.Accounts.Types.{
  AccountRecord, AccountStore, FilePath, RefreshedAccount, ImportApply, ImportAccountPlan,
  ImportAccountResult, new_store, AccountDiskOp, AuthInvalidPlan, WakeAccountResult,
}
use codaze.Accounts.Lifecycle.{
  update, maybe_remove_detached, mark_request_success, invalidate_access_token, release_selection,
  apply_failure,
}
use codaze.Accounts.Refresh.{refresh_success, finish_refresh_success_without_persist}
use codaze.Accounts.Wake.{view, wake_account, wake_all_accounts}
use codaze.Accounts.AuthInvalid.{
  condemn, prepare_auth_invalid_failure, bury, finalize_auth_invalid_failure, note_trash_failure,
  note_auth_invalid_trash_failure,
}
use codaze.Accounts.Selection.{list, summarize_selection_failure}
use codaze.Accounts.Import.{apply_import, apply_import_account_plan, apply_remove_account_plan}
use codaze.Accounts.Sync.{upsert_all, apply_disk_sync_plan}
use codaze.Accounts.Invariant.{IsConsistent}
use codaze.Accounts.Invariant.Requests.{
  request_success-IsConsistent, drop_access_token-IsConsistent, release_record-IsConsistent,
  request_failure-IsConsistent, refresh_success-IsConsistent, condemn-IsConsistent,
  bury-IsConsistent, note_trash_failure-IsConsistent,
}
use codaze.Accounts.Store.{
  IsValid, Step, Reach, start, next, select, summarize, list_all, succeed, fail, invalidate,
  release, refresh, prepare, finalize, note, wake, wake_all, import_account, remove_account, sync,
}
use codaze.Accounts.Store.Ids.{
  request_success-id, drop_access_token-id, release_record-id, request_failure-id,
  refresh_success-id,
}
use codaze.Accounts.Store.Keeps.{
  update-IsValid, maybe_remove_detached-IsValid, refresh_expired_blocks-IsValid,
  select_account-IsValid, wake-IsValid, wake_each-IsValid, upsert_disk_record-IsValid,
  upsert_all-IsValid, detach-IsValid, retire_unseen-IsValid,
}

-- The shape of most operations: one record changes, and is dropped if nothing uses it any more.
settle-IsValid :
    (s : AccountStore) (id : String) (f : AccountRecord → AccountRecord)
    → ((r : AccountRecord) → (f r).id ≡ r.id)
    → ((r : AccountRecord) → IsConsistent r → IsConsistent (f r))
    → IsValid s
    → IsValid (maybe_remove_detached (update s id f) id)
settle-IsValid s id f same keep v =
    maybe_remove_detached-IsValid _ id (update-IsValid s id f same keep v)

refresh-IsValid :
    (s : AccountStore) (id : String) (refreshed : RefreshedAccount) (now : DateTime)
    {op : Option AccountDiskOp} {t : AccountStore}
    → finish_refresh_success_without_persist s id refreshed now ≡ ok (op, t)
    → IsValid s
    → IsValid t
unfolding finish_refresh_success_without_persist
refresh-IsValid s id refreshed now e v = elim (Option-cases (lookup id s.records)) [
  | inl missing ↦ absurd (ground arith)
  | inr (r, found) ↦ subst IsValid (ground arith) (
      settle-IsValid s id (refresh_success refreshed now) (refresh_success-id refreshed now)
        (λ r c. refresh_success-IsConsistent refreshed now c) v)
]

prepare-IsValid :
    (s : AccountStore) (id details : String) (now : DateTime) {plan : AuthInvalidPlan}
    {t : AccountStore}
    → prepare_auth_invalid_failure s id details now ≡ ok (plan, t)
    → IsValid s
    → IsValid t
unfolding prepare_auth_invalid_failure
prepare-IsValid s id details now e v = elim (Option-cases (lookup id s.records)) [
  | inl missing ↦ absurd (ground arith)
  | inr (r, found) ↦ subst IsValid (ground arith) (
      update-IsValid s id (condemn now details) (λ r. refl)
        (λ r c. condemn-IsConsistent now details c) v)
]

finalize-IsValid :
    (s : AccountStore) (id : String) (now : DateTime) {t : AccountStore}
    → finalize_auth_invalid_failure s id now ≡ ok t
    → IsValid s
    → IsValid t
unfolding finalize_auth_invalid_failure
finalize-IsValid s id now e v = elim (Option-cases (lookup id s.records)) [
  | inl missing ↦ absurd (ground arith)
  | inr (r, found) ↦
      subst IsValid (ground arith)
        (settle-IsValid s id (bury now) (λ r. refl) (λ r c. bury-IsConsistent now c) v)
]

wake_account-IsValid :
    (s : AccountStore) (id : String) (now : DateTime) {result : WakeAccountResult}
    {t : AccountStore}
    → wake_account s id now ≡ ok (result, t)
    → IsValid s
    → IsValid t
unfolding wake_account
wake_account-IsValid s id now e v = elim (Option-cases (lookup id s.records)) [
  | inl missing ↦ absurd (ground arith)
  | inr (r, found) ↦ subst IsValid (ground arith) (wake-IsValid s id now v)
]

apply_import-IsValid :
    (s : AccountStore) (a : ImportApply) {t : AccountStore}
    → apply_import s a ≡ ok t
    → IsValid s
    → IsValid t
unfolding apply_import
apply_import-IsValid s ImportApply.nothing e v = subst IsValid (cc) v
apply_import-IsValid s (ImportApply.insert id path disk) e v =
    subst IsValid (cc) (upsert_disk_record-IsValid s id path disk v)
apply_import-IsValid s (ImportApply.update_metadata id label email) e v =
    elim (Option-cases (lookup id s.records)) [
      | inl missing ↦ absurd (ground arith)
      | inr (r, found) ↦ subst IsValid (ground arith) (
          update-IsValid s id (λ r. record r { label = label; email = email }) (λ r. refl)
            (λ r c. ground arith) v)
    ]

import-IsValid :
    (s : AccountStore) (plan : ImportAccountPlan) {result : ImportAccountResult} {t : AccountStore}
    → apply_import_account_plan s plan ≡ ok (result, t)
    → IsValid s
    → IsValid t
unfolding apply_import_account_plan
import-IsValid s plan e v =
    let (s', applied, viewed) = >>=-eq-ok (apply_import s plan.apply) _ e in
    let (account, _, done) = >>=-eq-ok (view s' plan.account_id) _ viewed in
    subst IsValid (ground arith) (apply_import-IsValid s plan.apply applied v)

-- Each operation keeps the store valid.
pub Step-IsValid : (chrono : Chrono) {s t : AccountStore} → Step chrono s t → IsValid s → IsValid t
unfolding list summarize_selection_failure mark_request_success apply_failure
    invalidate_access_token release_selection note_auth_invalid_trash_failure wake_all_accounts
    apply_remove_account_plan apply_disk_sync_plan
Step-IsValid chrono {s} (select policy skew excluded at) v =
    select_account-IsValid s policy skew excluded at v
Step-IsValid chrono {s} (summarize excluded refreshed now) v =
    refresh_expired_blocks-IsValid s refreshed v
Step-IsValid chrono {s} (list_all now) v = refresh_expired_blocks-IsValid s now v
Step-IsValid chrono {s} (succeed id now) v =
    settle-IsValid s id _ (request_success-id now) (λ r c. request_success-IsConsistent now c) v
Step-IsValid chrono {s} (fail id f d details now) v =
    settle-IsValid s id _ (request_failure-id chrono f d details now)
      (λ r c. request_failure-IsConsistent chrono f d details now c) v
Step-IsValid chrono {s} (invalidate id now) v =
    settle-IsValid s id _ (drop_access_token-id now) (λ r c. drop_access_token-IsConsistent now c) v
Step-IsValid chrono {s} (release id now) v =
    settle-IsValid s id _ (release_record-id now) (λ r c. release_record-IsConsistent now c) v
Step-IsValid chrono {s} (refresh id refreshed now e) v = refresh-IsValid s id refreshed now e v
Step-IsValid chrono {s} (prepare id details now e) v = prepare-IsValid s id details now e v
Step-IsValid chrono {s} (finalize id now e) v = finalize-IsValid s id now e v
Step-IsValid chrono {s} (note id error now) v =
    update-IsValid s id (note_trash_failure error now) (λ r. refl)
      (λ r c. note_trash_failure-IsConsistent error now c) v
Step-IsValid chrono {s} (wake id now e) v = wake_account-IsValid s id now e v
Step-IsValid chrono {s} (wake_all now) v =
    wake_each-IsValid (sort_by compare (keys s.records)) s now v
Step-IsValid chrono {s} (import_account plan e) v = import-IsValid s plan e v
Step-IsValid chrono {s} (remove_account plan) v =
    maybe_remove_detached-IsValid _ plan.account_id (detach-IsValid s plan.account_id v)
Step-IsValid chrono {s} (sync plan) v =
    retire_unseen-IsValid plan (keys (upsert_all s plan.upserts).records) _
      (upsert_all-IsValid plan.upserts s v)

new_store-IsValid : (dir : FilePath) → IsValid (new_store dir)
unfolding new_store
new_store-IsValid dir = record { distinct = tt; good = tt; cursor = omega arith }

-- Whatever operations run, in whatever order, from an empty store: no key stands twice, each record
-- stands under its own id and is consistent, and the cursor fits its machine word.
pub Reach-IsValid :
    (chrono : Chrono) (dir : FilePath) {s : AccountStore} → Reach chrono dir s → IsValid s
Reach-IsValid chrono dir (start e) = subst IsValid (sym e) (new_store-IsValid dir)
Reach-IsValid chrono dir (next r st) = Step-IsValid chrono st (Reach-IsValid chrono dir r)
