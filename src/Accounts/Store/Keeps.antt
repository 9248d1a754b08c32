-- ===== src/Accounts/Store/Keeps.antt =====
-- The operations keep the store valid.
use codaze.Prelude.{
  ℕ, String, Option, none, some, List, [], ◌∷◌, ◌≡◌, refl, arith, inl, inr, Bool-cases,
  Option-cases, ◌≤◌,
}
use codaze.Prelude.Assoc.{
  lookup, adjust-Distinct, adjust-Entries, remove-Distinct, remove-Entries, map_values-Distinct,
  map_values-Entries, insert-Distinct, insert-Entries,
}
use codaze.Prelude.Time.{DateTime, Duration}
use codaze.Config.{RoutingPolicy, round_robin, least_in_flight, fill_first}
use codaze.Router.{RouteCandidate, usize_max, select_candidate}
use codaze.Accounts.Types.{AccountRecord, AccountStore, FilePath, AccountFile}
use codaze.Accounts.Block.{apply_wake}
use codaze.Accounts.Lifecycle.{update, removable, maybe_remove_detached}
use codaze.Accounts.Refresh.{expire_block, refresh_expired_blocks}
use codaze.Accounts.Wake.{wake_each}
use codaze.Accounts.Selection.{
  Readings, lease, lease_chosen, select_account, build_route_candidates,
}
use codaze.Accounts.Import.{upsert_disk_record, fresh_record, reread_record, detach}
use codaze.Accounts.Sync.{
  DiskSyncUpsert, DiskSyncPlan, upsert_all, retire, retire_unseen, is_spared, is_idle,
}
use codaze.Accounts.Invariant.{IsConsistent}
use codaze.Accounts.Invariant.Requests.{
  expire_block-IsConsistent, apply_wake-IsConsistent, lease-IsConsistent,
  reread_record-IsConsistent, fresh_record-IsConsistent, detach-IsConsistent,
}
use codaze.Accounts.Store.{IsGood, IsValid}
use codaze.Accounts.Store.Ids.{expire_block-id, lease-id, apply_wake-id}

-- A change of one record that keeps ids and consistency keeps the store valid.
pub update-IsValid :
    (s : AccountStore) (id : String) (f : AccountRecord → AccountRecord)
    → ((r : AccountRecord) → (f r).id ≡ r.id)
    → ((r : AccountRecord) → IsConsistent r → IsConsistent (f r))
    → IsValid s
    → IsValid (update s id f)
update-IsValid s id f same keep v = record {
  distinct = adjust-Distinct id f s.records v.distinct;
  good =
      adjust-Entries IsGood id f s.records
        (λ r g. record { named = cc (same r, g.named); consistent = keep r g.consistent }) v.good;
  cursor = v.cursor;
}

pub maybe_remove_detached-IsValid :
    (s : AccountStore) (id : String) → IsValid s → IsValid (maybe_remove_detached s id)
unfolding maybe_remove_detached
maybe_remove_detached-IsValid s id v = elim (Bool-cases (removable (lookup id s.records))) [
  | inl gone ↦
      rw (gone, maybe_remove_detached)
        (record {
          distinct = remove-Distinct id s.records v.distinct;
          good = remove-Entries IsGood id s.records v.good;
          cursor = v.cursor;
        })
  | inr stays ↦ rw (stays, maybe_remove_detached) v
]

pub refresh_expired_blocks-IsValid :
    (s : AccountStore) (now : DateTime) → IsValid s → IsValid (refresh_expired_blocks s now)
unfolding refresh_expired_blocks
refresh_expired_blocks-IsValid s now v = record {
  distinct = map_values-Distinct (expire_block now) s.records v.distinct;
  good =
      map_values-Entries IsGood (expire_block now) s.records
        (λ id r g. record {
          named = cc (expire_block-id now r, g.named);
          consistent = expire_block-IsConsistent now g.consistent;
        })
        v.good;
  cursor = v.cursor;
}

select_candidate-cursor :
    (policy : RoutingPolicy) (cs : List RouteCandidate) (cursor : ℕ)
    → cursor ≤ usize_max
    → (select_candidate policy cs cursor).1 ≤ usize_max
unfolding select_candidate
select_candidate-cursor policy [] cursor h = h
select_candidate-cursor round_robin (c ∷ cs) cursor h = omega arith
select_candidate-cursor least_in_flight (c ∷ cs) cursor h = h
select_candidate-cursor fill_first (c ∷ cs) cursor h = h

lease_chosen-IsValid :
    (s : AccountStore) (chosen : Option String) (at : Readings) (skew : Duration)
    → IsValid s
    → IsValid (lease_chosen s chosen at skew).1
unfolding lease_chosen
lease_chosen-IsValid s none at skew v = v
lease_chosen-IsValid s (some id) at skew v = elim (Option-cases (lookup id s.records)) [
  | inl e ↦ rw (e, lease_chosen) v
  | inr (r, e) ↦
      rw (e, lease_chosen)
        (update-IsValid s id (lease at skew) (lease-id at skew)
          (λ r c. lease-IsConsistent at skew c) v)
]

pub select_account-IsValid :
    (s : AccountStore) (policy : RoutingPolicy) (skew : Duration) (excluded : List String)
    (at : Readings)
    → IsValid s
    → IsValid (select_account s policy skew excluded at).1
unfolding select_account
select_account-IsValid s policy skew excluded at v =
    let w = refresh_expired_blocks-IsValid s at.refreshed v in
    let s' = refresh_expired_blocks s at.refreshed in
    let cs = build_route_candidates s' excluded at.tested in
    lease_chosen-IsValid _ (select_candidate policy cs s'.round_robin_cursor).0 at skew (record {
      distinct = w.distinct;
      good = w.good;
      cursor = select_candidate-cursor policy cs s'.round_robin_cursor w.cursor;
    })

pub wake-IsValid :
    (s : AccountStore) (id : String) (now : DateTime)
    → IsValid s
    → IsValid (update s id (λ r. (apply_wake r now).0))
wake-IsValid s id now =
    update-IsValid s id _ (apply_wake-id now) (λ r c. apply_wake-IsConsistent now c)

pub wake_each-IsValid :
    (ids : List String) (s : AccountStore) (now : DateTime)
    → IsValid s
    → IsValid (wake_each ids s now).1
unfolding wake_each
wake_each-IsValid [] s now v = v
wake_each-IsValid (id ∷ ids) s now v = elim (Option-cases (lookup id s.records)) [
  | inl e ↦ rw (e, wake_each) (wake_each-IsValid ids s now v)
  | inr (r, e) ↦ rw (e, wake_each) (wake_each-IsValid ids _ now (wake-IsValid s id now v))
]

pub upsert_disk_record-IsValid :
    (s : AccountStore) (id : String) (path : FilePath) (disk : AccountFile)
    → IsValid s
    → IsValid (upsert_disk_record s id path disk)
unfolding upsert_disk_record
upsert_disk_record-IsValid s id path disk v = elim (Option-cases (lookup id s.records)) [
  | inl e ↦
      rw (e, upsert_disk_record)
        (record {
          distinct = insert-Distinct id (fresh_record id path disk) s.records v.distinct;
          good =
              insert-Entries IsGood id (fresh_record id path disk) s.records
                (record { named = refl; consistent = fresh_record-IsConsistent id path disk })
                v.good;
          cursor = v.cursor;
        })
  | inr (r, e) ↦
      rw (e, upsert_disk_record)
        (update-IsValid s id (reread_record path disk) (λ r. refl)
          (λ r c. reread_record-IsConsistent path disk c) v)
]

pub upsert_all-IsValid :
    (us : List DiskSyncUpsert) (s : AccountStore) → IsValid s → IsValid (upsert_all s us)
unfolding upsert_all
upsert_all-IsValid [] s v = v
upsert_all-IsValid (u ∷ us) s v =
    upsert_all-IsValid us _ (upsert_disk_record-IsValid s u.id u.path u.disk v)

pub detach-IsValid : (s : AccountStore) (id : String) → IsValid s → IsValid (update s id detach)
detach-IsValid s id = update-IsValid s id detach (λ r. refl) (λ r c. detach-IsConsistent c)

retire-IsValid : (s : AccountStore) (id : String) → IsValid s → IsValid (retire s id)
unfolding retire
retire-IsValid s id v = elim (Option-cases (lookup id s.records)) [
  | inl e ↦ rw (e, retire) v
  | inr (r, e) ↦ elim (Bool-cases (is_idle r)) [
    | inl gone ↦
        rw (e, retire, gone)
          (record {
            distinct = remove-Distinct id s.records v.distinct;
            good = remove-Entries IsGood id s.records v.good;
            cursor = v.cursor;
          })
    | inr busy ↦ rw (e, retire, busy) (detach-IsValid s id v)
  ]
]

pub retire_unseen-IsValid :
    (plan : DiskSyncPlan) (ids : List String) (s : AccountStore)
    → IsValid s
    → IsValid (retire_unseen plan ids s)
unfolding retire_unseen
retire_unseen-IsValid plan [] s v = v
retire_unseen-IsValid plan (id ∷ ids) s v = elim (Bool-cases (is_spared plan id)) [
  | inl spared ↦ rw (spared, retire_unseen) (retire_unseen-IsValid plan ids s v)
  | inr unseen ↦
      rw (unseen, retire_unseen) (retire_unseen-IsValid plan ids _ (retire-IsValid s id v))
]
