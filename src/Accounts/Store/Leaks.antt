-- ===== src/Accounts/Store/Leaks.antt =====
-- No record lingers in the store of src/accounts: a detached account stays only while a request or a
-- refresh uses it.
use codaze.Prelude.{
  String, Option, none, some, List, [], ◌∷◌, ◌≡◌, refl, false, arith, inl, inr, Option-cases,
  Bool-cases, ◌==◌, if◌then◌else◌,
}
use codaze.Prelude.Assoc.{
  Entries, lookup, adjust, remove, adjust-Entries, remove-Entries, map_values-Entries,
  insert-Entries,
}
use codaze.Prelude.Time.{DateTime, Duration}
use codaze.Accounts.Types.{AccountRecord, AccountStore, FilePath, AccountFile}
use codaze.Accounts.Block.{apply_wake}
use codaze.Accounts.Lifecycle.{update, removable, maybe_remove_detached}
use codaze.Accounts.Refresh.{expire_block, refresh_expired_blocks}
use codaze.Accounts.Wake.{wake_each}
use codaze.Accounts.Selection.{Readings, lease, lease_chosen}
use codaze.Accounts.Import.{upsert_disk_record, fresh_record, reread_record, detach}
use codaze.Accounts.Sync.{
  DiskSyncUpsert, DiskSyncPlan, upsert_all, retire, retire_unseen, is_spared, is_idle,
}

-- The record is attached, or in use.
abbrev pub IsUsed : String → AccountRecord → Type 0
IsUsed id r = removable (some r) ≡ false

abbrev pub NoLeak : AccountStore → Type 0
NoLeak s = Entries IsUsed s.records

-- Whatever changes one record and then drops it if it may go leaves nothing behind.
settle_records-NoLeak :
    (id : String) (f : AccountRecord → AccountRecord) (m : List (String × AccountRecord))
    → Entries IsUsed m
    → let m' = adjust id f m in
      Entries IsUsed (if removable (lookup id m') then remove id m' else m')
unfolding adjust lookup remove
settle_records-NoLeak id f [] h = tt
settle_records-NoLeak id f ((j, r) ∷ m) h = elim (Bool-cases (j == id)) [
  | inl same ↦ elim (Bool-cases (removable (some (f r)))) [
    | inl gone ↦ rw (same, same, gone) h.1
    | inr stays ↦ rw (same, same, stays) (stays, h.1)
  ]
  | inr other ↦ elim (Bool-cases (removable (lookup id (adjust id f m)))) [
    | inl gone ↦
        let rest = settle_records-NoLeak id f m h.1 in
        rw (other, other, gone) (h.0, rw gone at rest)
    | inr stays ↦
        let rest = settle_records-NoLeak id f m h.1 in
        rw (other, other, stays) (h.0, rw stays at rest)
  ]
]

pub settle-NoLeak :
    (s : AccountStore) (id : String) (f : AccountRecord → AccountRecord)
    → NoLeak s
    → NoLeak (maybe_remove_detached (update s id f) id)
unfolding maybe_remove_detached
settle-NoLeak s id f h =
    let kept = settle_records-NoLeak id f s.records h in
    elim (Bool-cases (removable (lookup id (adjust id f s.records)))) [
      | inl gone ↦ rw gone (rw gone at kept)
      | inr stays ↦ rw stays (rw stays at kept)
    ]

expire_block-IsUsed :
    (now : DateTime) (id : String) (r : AccountRecord)
    → IsUsed id r
    → IsUsed id (expire_block now r)
unfolding expire_block
expire_block-IsUsed now id r h = ground arith

pub refresh_expired_blocks-NoLeak :
    (s : AccountStore) (now : DateTime) → NoLeak s → NoLeak (refresh_expired_blocks s now)
unfolding refresh_expired_blocks
refresh_expired_blocks-NoLeak s now h =
    map_values-Entries IsUsed (expire_block now) s.records (expire_block-IsUsed now) h

lease-IsUsed :
    (at : Readings) (skew : Duration) (id : String) (r : AccountRecord)
    → IsUsed id (lease at skew r)
unfolding lease
lease-IsUsed at skew id r = ground arith

pub lease_chosen-NoLeak :
    (s : AccountStore) (chosen : Option String) (at : Readings) (skew : Duration)
    → NoLeak s
    → NoLeak (lease_chosen s chosen at skew).1
unfolding lease_chosen
lease_chosen-NoLeak s none at skew h = h
lease_chosen-NoLeak s (some id) at skew h = elim (Option-cases (lookup id s.records)) [
  | inl e ↦ rw (e, lease_chosen) h
  | inr (r, e) ↦
      rw (e, lease_chosen)
        (adjust-Entries IsUsed id (lease at skew) s.records (λ r _. lease-IsUsed at skew id r) h)
]

pub wake-NoLeak :
    (s : AccountStore) (id : String) (now : DateTime)
    → NoLeak s
    → NoLeak (update s id (λ r. (apply_wake r now).0))
unfolding apply_wake
wake-NoLeak s id now h = adjust-Entries IsUsed id _ s.records (λ r used. ground arith) h

pub wake_each-NoLeak :
    (ids : List String) (s : AccountStore) (now : DateTime)
    → NoLeak s
    → NoLeak (wake_each ids s now).1
unfolding wake_each
wake_each-NoLeak [] s now h = h
wake_each-NoLeak (id ∷ ids) s now h = elim (Option-cases (lookup id s.records)) [
  | inl e ↦ rw (e, wake_each) (wake_each-NoLeak ids s now h)
  | inr (r, e) ↦ rw (e, wake_each) (wake_each-NoLeak ids _ now (wake-NoLeak s id now h))
]

reread_record-IsUsed :
    (path : FilePath) (disk : AccountFile) (id : String) (r : AccountRecord)
    → IsUsed id r
    → IsUsed id (reread_record path disk r)
reread_record-IsUsed path disk id r h = ground arith

pub upsert_disk_record-NoLeak :
    (s : AccountStore) (id : String) (path : FilePath) (disk : AccountFile)
    → NoLeak s
    → NoLeak (upsert_disk_record s id path disk)
unfolding upsert_disk_record
upsert_disk_record-NoLeak s id path disk h = elim (Option-cases (lookup id s.records)) [
  | inl e ↦
      rw (e, upsert_disk_record)
        (insert-Entries IsUsed id (fresh_record id path disk) s.records refl h)
  | inr (r, e) ↦
      rw (e, upsert_disk_record)
        (adjust-Entries IsUsed id _ s.records (reread_record-IsUsed path disk id) h)
]

pub upsert_all-NoLeak :
    (us : List DiskSyncUpsert) (s : AccountStore) → NoLeak s → NoLeak (upsert_all s us)
unfolding upsert_all
upsert_all-NoLeak [] s h = h
upsert_all-NoLeak (u ∷ us) s h =
    upsert_all-NoLeak us _ (upsert_disk_record-NoLeak s u.id u.path u.disk h)

-- The record that a rescan detaches is in use: an idle one is dropped.
detach_found-NoLeak :
    (id : String) (m : List (String × AccountRecord)) {r : AccountRecord}
    → lookup id m ≡ some r
    → is_idle r ≡ false
    → Entries IsUsed m
    → Entries IsUsed (adjust id detach m)
unfolding lookup adjust
detach_found-NoLeak id [] e busy h = tt
detach_found-NoLeak id ((j, w) ∷ m) {r} e busy h = elim (Bool-cases (j == id)) [
  | inl same ↦ let found : w ≡ r = ground arith in rw same (ground arith, h.1)
  | inr other ↦ rw other (h.0, detach_found-NoLeak id m {r = r} (ground arith) busy h.1)
]

retire-NoLeak : (s : AccountStore) (id : String) → NoLeak s → NoLeak (retire s id)
unfolding retire
retire-NoLeak s id h = elim (Option-cases (lookup id s.records)) [
  | inl e ↦ rw (e, retire) h
  | inr (r, e) ↦ elim (Bool-cases (is_idle r)) [
    | inl gone ↦ rw (e, retire, gone) (remove-Entries IsUsed id s.records h)
    | inr busy ↦ rw (e, retire, busy) (detach_found-NoLeak id s.records {r = r} e busy h)
  ]
]

pub retire_unseen-NoLeak :
    (plan : DiskSyncPlan) (ids : List String) (s : AccountStore)
    → NoLeak s
    → NoLeak (retire_unseen plan ids s)
unfolding retire_unseen
retire_unseen-NoLeak plan [] s h = h
retire_unseen-NoLeak plan (id ∷ ids) s h = elim (Bool-cases (is_spared plan id)) [
  | inl spared ↦ rw (spared, retire_unseen) (retire_unseen-NoLeak plan ids s h)
  | inr unseen ↦ rw (unseen, retire_unseen) (retire_unseen-NoLeak plan ids _ (retire-NoLeak s id h))
]
