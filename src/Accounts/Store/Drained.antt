-- ===== src/Accounts/Store/Drained.antt =====
-- Every operation of src/accounts but the first half of a condemnation leaves no detached account
-- behind that nothing uses.
use codaze.Prelude.{String, Option, ◌≡◌, arith, inl, inr, Option-cases}
use mathlib.Core.Path.{subst}
use Prim.Native.String.{compare}
use codaze.Prelude.Assoc.{lookup, keys, adjust-Entries}
use codaze.Prelude.Order.{sort_by}
use codaze.Prelude.Result.{ok, >>=-eq-ok}
use codaze.Prelude.Time.{DateTime, Chrono}
use codaze.Accounts.Types.{
  AccountRecord, AccountStore, ImportApply, RefreshedAccount, AccountDiskOp, WakeAccountResult,
}
use codaze.Accounts.Block.{apply_wake}
use codaze.Accounts.Lifecycle.{
  update, maybe_remove_detached, mark_request_success, apply_failure, invalidate_access_token,
  release_selection,
}
use codaze.Accounts.Refresh.{refresh_success, finish_refresh_success_without_persist}
use codaze.Accounts.Wake.{view, wake_account, wake_all_accounts}
use codaze.Accounts.AuthInvalid.{
  bury, finalize_auth_invalid_failure, note_trash_failure, note_auth_invalid_trash_failure,
}
use codaze.Accounts.Selection.{select_account, list, summarize_selection_failure}
use codaze.Accounts.Import.{
  upsert_disk_record, detach, apply_import, apply_import_account_plan, apply_remove_account_plan,
}
use codaze.Accounts.Sync.{upsert_all, apply_disk_sync_plan}
use codaze.Accounts.Store.{
  Step, select, summarize, list_all, succeed, fail, invalidate, release, refresh, prepare, finalize,
  note, wake, wake_all, import_account, remove_account, sync,
}
use codaze.Accounts.Store.Leaks.{
  NoLeak, IsUsed, settle-NoLeak, refresh_expired_blocks-NoLeak, lease_chosen-NoLeak, wake-NoLeak,
  wake_each-NoLeak, upsert_disk_record-NoLeak, upsert_all-NoLeak, retire_unseen-NoLeak,
}

apply_import-NoLeak :
    (s : AccountStore) (a : ImportApply) {t : AccountStore}
    → apply_import s a ≡ ok t
    → NoLeak s
    → NoLeak t
unfolding apply_import
apply_import-NoLeak s ImportApply.nothing {t} e h = subst NoLeak {x = s} {y = t} (cc) h
apply_import-NoLeak s (ImportApply.insert id path disk) {t} e h =
    subst NoLeak {x = upsert_disk_record s id path disk} {y = t} (cc)
      (upsert_disk_record-NoLeak s id path disk h)
apply_import-NoLeak s (ImportApply.update_metadata id label email) {t} e h =
    let change = λ (r : AccountRecord). record r { label = label; email = email } in
    elim (Option-cases (lookup id s.records)) [
      | inl missing ↦ absurd (ground arith)
      | inr (r, found) ↦
          subst NoLeak {x = update s id change} {y = t} (ground arith)
            (adjust-Entries IsUsed id change s.records (λ r used. used) h)
    ]

refresh-NoLeak :
    (s : AccountStore) (id : String) (refreshed : RefreshedAccount) (now : DateTime)
    {op : Option AccountDiskOp} {t : AccountStore}
    → finish_refresh_success_without_persist s id refreshed now ≡ ok (op, t)
    → NoLeak s
    → NoLeak t
unfolding finish_refresh_success_without_persist
refresh-NoLeak s id refreshed now {t = t} e h = elim (Option-cases (lookup id s.records)) [
  | inl missing ↦ absurd (ground arith)
  | inr (r, found) ↦
      let f = refresh_success refreshed now in
      subst NoLeak {x = maybe_remove_detached (update s id f) id} {y = t} (ground arith)
        (settle-NoLeak s id f h)
]

finalize-NoLeak :
    (s : AccountStore) (id : String) (now : DateTime) {t : AccountStore}
    → finalize_auth_invalid_failure s id now ≡ ok t
    → NoLeak s
    → NoLeak t
unfolding finalize_auth_invalid_failure
finalize-NoLeak s id now {t} e h = elim (Option-cases (lookup id s.records)) [
  | inl missing ↦ absurd (ground arith)
  | inr (r, found) ↦
      subst NoLeak {x = maybe_remove_detached (update s id (bury now)) id} {y = t} (ground arith)
        (settle-NoLeak s id (bury now) h)
]

wake_account-NoLeak :
    (s : AccountStore) (id : String) (now : DateTime) {result : WakeAccountResult}
    {t : AccountStore}
    → wake_account s id now ≡ ok (result, t)
    → NoLeak s
    → NoLeak t
unfolding wake_account
wake_account-NoLeak s id now {t = t} e h = elim (Option-cases (lookup id s.records)) [
  | inl missing ↦ absurd (ground arith)
  | inr (r, found) ↦
      subst NoLeak {x = update s id (λ r. (apply_wake r now).0)} {y = t} (ground arith)
        (wake-NoLeak s id now h)
]

-- The operation is none but the first half of a condemnation, `prepare_auth_invalid_failure`.
abbrev pub IsWhole : (chrono : Chrono) (s t : AccountStore) → Step chrono s t → Type 0
IsWhole chrono s t (prepare id details now e) = ⊥
IsWhole chrono s t _ = Unit

-- Every operation but `prepare_auth_invalid_failure`, from a store in which each detached account has
-- a request or a refresh in flight, leads to such a store.
pub Step-NoLeak :
    (chrono : Chrono) (s t : AccountStore) (step : Step chrono s t)
    → IsWhole chrono s t step
    → NoLeak s
    → NoLeak t
unfolding select_account list summarize_selection_failure mark_request_success apply_failure
    invalidate_access_token release_selection note_auth_invalid_trash_failure note_trash_failure
    wake_all_accounts apply_import_account_plan apply_remove_account_plan apply_disk_sync_plan
Step-NoLeak chrono s _ (select policy skew excluded at) w h =
    lease_chosen-NoLeak _ _ at skew (refresh_expired_blocks-NoLeak s at.refreshed h)
Step-NoLeak chrono s _ (summarize excluded refreshed now) w h =
    refresh_expired_blocks-NoLeak s refreshed h
Step-NoLeak chrono s _ (list_all now) w h = refresh_expired_blocks-NoLeak s now h
Step-NoLeak chrono s _ (succeed id now) w h = settle-NoLeak s id _ h
Step-NoLeak chrono s _ (fail id f d details now) w h = settle-NoLeak s id _ h
Step-NoLeak chrono s _ (invalidate id now) w h = settle-NoLeak s id _ h
Step-NoLeak chrono s _ (release id now) w h = settle-NoLeak s id _ h
Step-NoLeak chrono s _ (refresh id refreshed now e) w h = refresh-NoLeak s id refreshed now e h
Step-NoLeak chrono s _ (prepare id details now e) w h = absurd w
Step-NoLeak chrono s _ (finalize id now e) w h = finalize-NoLeak s id now e h
Step-NoLeak chrono s _ (note id error now) w h =
    adjust-Entries IsUsed id (note_trash_failure error now) s.records (λ r used. used) h
Step-NoLeak chrono s _ (wake id now e) w h = wake_account-NoLeak s id now e h
Step-NoLeak chrono s _ (wake_all now) w h =
    wake_each-NoLeak (sort_by compare (keys s.records)) s now h
Step-NoLeak chrono s t (import_account plan e) w h =
    let (s', applied, viewed) = >>=-eq-ok (apply_import s plan.apply) _ e in
    let (account, _, done) = >>=-eq-ok (view s' plan.account_id) _ viewed in
    subst NoLeak {x = s'} {y = t} (ground arith) (apply_import-NoLeak s plan.apply applied h)
Step-NoLeak chrono s _ (remove_account plan) w h = settle-NoLeak s plan.account_id detach h
Step-NoLeak chrono s _ (sync plan) w h =
    retire_unseen-NoLeak plan (keys (upsert_all s plan.upserts).records) _
      (upsert_all-NoLeak plan.upserts s h)
