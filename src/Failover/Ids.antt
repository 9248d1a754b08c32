-- ===== src/Failover/Ids.antt =====
-- The operations that the loop of src/failover.rs calls bring no new account into the store.
use codaze.Prelude.{
  String, Option, none, some, List, ◌≡◌, refl, arith, inl, inr, In, Option-cases, Bool-cases,
}
use mathlib.Core.Path.{subst, sym}
use codaze.Prelude.Assoc.{Entries, lookup, adjust-Entries, remove-Entries, map_values-Entries}
use codaze.Prelude.Result.{ok}
use codaze.Prelude.Time.{DateTime, Duration, Chrono}
use codaze.Classifier.{FailureClass, is_auth_invalid_class}
use codaze.Accounts.Types.{AccountRecord, AccountStore, RefreshedAccount, AccountDiskOp}
use codaze.Accounts.Lifecycle.{
  update, removable, maybe_remove_detached, apply_failure, invalidate_access_token,
  release_selection,
}
use codaze.Accounts.Refresh.{
  expire_block, refresh_expired_blocks, refresh_success, finish_refresh_success_without_persist,
}
use codaze.Accounts.AuthInvalid.{
  Disk, condemn, prepare_auth_invalid_failure, bury, finalize_auth_invalid_failure,
  note_auth_invalid_trash_failure, conclude, condemn_account, finish_refresh_failure,
}
use codaze.Accounts.Selection.{Readings, lease, lease_chosen}
use codaze.Accounts.Store.Ids.{
  drop_access_token-id, release_record-id, request_failure-id, refresh_success-id, expire_block-id,
  lease-id,
}

-- Every record of the store has one of the ids.
abbrev pub Within : List String → AccountStore → Type 0
Within ids s = Entries (λ _ r. In r.id ids) s.records

module _ (ids : List String) where
  update-Within :
      (s : AccountStore) (id : String) (f : AccountRecord → AccountRecord)
      → ((r : AccountRecord) → (f r).id ≡ r.id)
      → Within ids s
      → Within ids (update s id f)
  update-Within s id f same h =
      adjust-Entries (λ _ r. In r.id ids) id f s.records
        (λ r m. subst (λ i. In i ids) (sym (same r)) m) h

  settle-Within :
      (s : AccountStore) (id : String) (f : AccountRecord → AccountRecord)
      → ((r : AccountRecord) → (f r).id ≡ r.id)
      → Within ids s
      → Within ids (maybe_remove_detached (update s id f) id)
  unfolding maybe_remove_detached
  settle-Within s id f same h =
      let kept = update-Within s id f same h in
      elim (Bool-cases (removable (lookup id (update s id f).records))) [
        | inl gone ↦
            rw (gone, maybe_remove_detached)
              (remove-Entries (λ _ r. In r.id ids) id (update s id f).records kept)
        | inr stays ↦ rw (stays, maybe_remove_detached) kept
      ]

  pub refresh_expired_blocks-Within :
      (s : AccountStore) (now : DateTime) → Within ids s → Within ids (refresh_expired_blocks s now)
  unfolding refresh_expired_blocks
  refresh_expired_blocks-Within s now h =
      map_values-Entries (λ _ r. In r.id ids) (expire_block now) s.records
        (λ _ r m. subst (λ i. In i ids) (sym (expire_block-id now r)) m) h

  pub apply_failure-Within :
      (chrono : Chrono) (s : AccountStore) (id : String) (f : FailureClass) (d : Option Duration)
      (details : String) (now : DateTime)
      → Within ids s
      → Within ids (apply_failure chrono s id f d details now)
  unfolding apply_failure
  apply_failure-Within chrono s id f d details now =
      settle-Within s id _ (request_failure-id chrono f d details now)

  pub invalidate_access_token-Within :
      (s : AccountStore) (id : String) (now : DateTime)
      → Within ids s
      → Within ids (invalidate_access_token s id now)
  unfolding invalidate_access_token
  invalidate_access_token-Within s id now = settle-Within s id _ (drop_access_token-id now)

  pub release_selection-Within :
      (s : AccountStore) (id : String) (now : DateTime)
      → Within ids s
      → Within ids (release_selection s id now)
  unfolding release_selection
  release_selection-Within s id now = settle-Within s id _ (release_record-id now)

  pub lease_chosen-Within :
      (s : AccountStore) (chosen : Option String) (at : Readings) (skew : Duration)
      → Within ids s
      → Within ids (lease_chosen s chosen at skew).1
  unfolding lease_chosen
  lease_chosen-Within s none at skew h = h
  lease_chosen-Within s (some id) at skew h = elim (Option-cases (lookup id s.records)) [
    | inl e ↦ rw (e, lease_chosen) h
    | inr (r, e) ↦ rw (e, lease_chosen) (update-Within s id (lease at skew) (lease-id at skew) h)
  ]

  pub refresh-Within :
      (s : AccountStore) (id : String) (refreshed : RefreshedAccount) (now : DateTime)
      {op : Option AccountDiskOp} {t : AccountStore}
      → finish_refresh_success_without_persist s id refreshed now ≡ ok (op, t)
      → Within ids s
      → Within ids t
  unfolding finish_refresh_success_without_persist
  refresh-Within s id refreshed now {t = t} e h = elim (Option-cases (lookup id s.records)) [
    | inl missing ↦ absurd (ground arith)
    | inr (r, found) ↦
        let f = refresh_success refreshed now in
        subst (Within ids) {x = maybe_remove_detached (update s id f) id} {y = t} (ground arith)
          (settle-Within s id f (refresh_success-id refreshed now) h)
  ]

  conclude-Within :
      (s : AccountStore) (id : String) (outcome : Option String) (later : DateTime)
      → Within ids s
      → Within ids (conclude s id outcome later).1
  unfolding conclude note_auth_invalid_trash_failure finalize_auth_invalid_failure
  conclude-Within s id (some error) later h = update-Within s id _ (λ r. refl) h
  conclude-Within s id none later h = elim (Option-cases (lookup id s.records)) [
    | inl missing ↦ rw (missing, conclude, finalize_auth_invalid_failure) h
    | inr (r, found) ↦
        rw (found, conclude, finalize_auth_invalid_failure)
          (settle-Within s id (bury later) (λ r. refl) h)
  ]

  module _ (disk : Disk)
      (meanwhile : (s : AccountStore) → Within ids s → Within ids (disk.meanwhile s)) where
    condemn_account-Within :
        (s : AccountStore) (id details : String) (now later : DateTime)
        → Within ids s
        → Within ids (condemn_account disk s id details now later).1
    unfolding condemn_account prepare_auth_invalid_failure
    condemn_account-Within s id details now later h = elim (Option-cases (lookup id s.records)) [
      | inl missing ↦ rw (missing, condemn_account, prepare_auth_invalid_failure) h
      | inr (r, found) ↦
          rw (found, condemn_account, prepare_auth_invalid_failure)
            (conclude-Within (disk.meanwhile (update s id (condemn now details))) id _ later
              (meanwhile _ (update-Within s id (condemn now details) (λ r. refl) h)))
    ]

    pub finish_refresh_failure-Within :
        (chrono : Chrono) (s : AccountStore) (id : String) (f : FailureClass) (d : Option Duration)
        (details : String) (now later : DateTime)
        → Within ids s
        → Within ids (finish_refresh_failure chrono disk s id f d details now later).1
    unfolding finish_refresh_failure
    finish_refresh_failure-Within chrono s id f d details now later h =
        elim (Bool-cases (is_auth_invalid_class f)) [
          | inl e ↦ rw (e, finish_refresh_failure) (condemn_account-Within s id details now later h)
          | inr e ↦
              rw (e, finish_refresh_failure) (apply_failure-Within chrono s id f d details now h)
        ]
