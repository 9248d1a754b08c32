-- ===== src/Accounts/Sync.antt =====
-- src/accounts/disk.rs: bringing the store in line with the account files. A scan of the directory is
-- an argument; the writes and removals of a plan are its data.
use codaze.Prelude.{
  String, Bool, true, false, not, ◌&&◌, ◌||◌, Option, none, some, List, [], ◌∷◌, ◌++◌, Ordering,
  if◌then◌else◌, ◌==◌, nat_eq, find, find_map, is_some, keep_if, map,
}
use Prim.Native.Nat.{compare as compare_nat}
use Prim.Native.String.{compare}
use codaze.Prelude.{contains, set_insert}
use codaze.Prelude.Assoc.{lookup, values, keys, remove}
use codaze.Prelude.Order.{then_with, compare_option, compare_bool, max_by, sort_by}
use codaze.Accounts.Types.{AccountRecord, AccountStore, AccountFile, FilePath}
use codaze.Accounts.Lifecycle.{update}
use codaze.Accounts.Import.{upsert_disk_record, detach}

pub data SyncMode : Type 0 where
  startup rescan : SyncMode

pub record DiskAccountEntry : Type 0 where
  pub id : String
  pub path : FilePath
  pub disk : AccountFile

pub record DiskScanSnapshot : Type 0 where
  pub entries : List DiskAccountEntry
  pub failed_file_ids : List String
  pub observed_paths : List FilePath

pub record DiskSyncUpsert : Type 0 where
  pub id : String
  pub path : FilePath
  pub disk : AccountFile

pub record DiskSyncPlan : Type 0 where
  pub mode : SyncMode
  pub writes : List (FilePath × AccountFile)
  pub removals : List FilePath
  pub upserts : List DiskSyncUpsert
  pub seen_ids : List String
  pub failed_file_ids : List String

pub record CanonicalTarget : Type 0 where
  pub id : String
  pub path : FilePath
  pub disk : AccountFile
  pub matched_group_path : Option FilePath

abbrev pub is_rescan : SyncMode → Bool
is_rescan startup = false
is_rescan rescan = true

-- The `==` of paths, of optional texts and of account files.
abbrev pub path_eq : FilePath → FilePath → Bool
path_eq [] [] = true
path_eq [] (d ∷ q) = false
path_eq (c ∷ p) [] = false
path_eq (c ∷ p) (d ∷ q) = c == d && path_eq p q

abbrev pub has_path : List FilePath → FilePath → Bool
has_path [] p = false
has_path (q ∷ qs) p = path_eq q p || has_path qs p

abbrev pub option_eq : Option String → Option String → Bool
option_eq none none = true
option_eq none (some b) = false
option_eq (some a) none = false
option_eq (some a) (some b) = a == b

abbrev pub file_eq : AccountFile → AccountFile → Bool
file_eq a b =
    a.refresh_token == b.refresh_token && option_eq a.label b.label && option_eq a.email b.email

unfoldable pub merge_duplicate_account_files : AccountFile → List DiskAccountEntry → AccountFile
merge_duplicate_account_files base entries = record base {
  label = elim base.label [ some l ↦ some l | none ↦ find_map (λ e. e.disk.label) entries ];
  email = elim base.email [ some m ↦ some m | none ↦ find_map (λ e. e.disk.email) entries ];
}

abbrev pub by_preference : AccountRecord → AccountRecord → Ordering
by_preference left right = then_with (compare_bool left.refresh_in_flight right.refresh_in_flight) (
    then_with (compare_nat left.in_flight_requests right.in_flight_requests) (
      then_with (compare_bool (is_some left.access_token) (is_some right.access_token)) (
        then_with (compare_option compare_nat left.last_selected_at right.last_selected_at)
          (compare right.id left.id))))

unfoldable pub preferred_existing_record : AccountStore → String → Option AccountRecord
preferred_existing_record s token =
    max_by by_preference
      (keep_if (λ r. not r.detached && r.refresh_token == token) (values s.records))

-- The target of a group that no record claims: its first file.
first_target : DiskAccountEntry → CanonicalTarget
first_target e = record {
  id = e.id;
  path = e.path;
  disk = e.disk;
  matched_group_path = some e.path;
}

-- The target of a group that a record claims: the record's file.
record_target : AccountRecord → String → List DiskAccountEntry → CanonicalTarget
record_target r token group = elim (find (λ e. e.id == r.id) group) [
  | some e ↦ record {
    id = r.id;
    path = r.file_path;
    disk = e.disk;
    matched_group_path = some e.path;
  }
  | none ↦ record {
    id = r.id;
    path = r.file_path;
    disk = record { refresh_token = token; label = r.label; email = r.email };
    matched_group_path = none;
  }
]

unfoldable pub select_canonical_target :
    AccountStore → List DiskAccountEntry → SyncMode → Option CanonicalTarget
unfolding first_target record_target preferred_existing_record
select_canonical_target s [] mode = none
select_canonical_target s (e ∷ es) startup = some (first_target e)
select_canonical_target s (e ∷ es) rescan =
    elim (preferred_existing_record s e.disk.refresh_token) [
      | some r ↦ some (record_target r e.disk.refresh_token (e ∷ es))
      | none ↦ some (first_target e)
    ]

-- `entry(token).or_default().push(e)`
unfoldable pub push_entry :
    DiskAccountEntry → List (String × List DiskAccountEntry) → List (String × List DiskAccountEntry)
push_entry e [] = (e.disk.refresh_token, e ∷ []) ∷ []
push_entry e ((token, group) ∷ m) =
    if token == e.disk.refresh_token
    then (token, group ++ (e ∷ [])) ∷ m
    else (token, group) ∷ push_entry e m

unfoldable pub group_entries :
    List DiskAccountEntry
    → List (String × List DiskAccountEntry)
    → List (String × List DiskAccountEntry)
unfolding push_entry
group_entries [] m = m
group_entries (e ∷ es) m = group_entries es (push_entry e m)

abbrev pub by_entry_id : DiskAccountEntry → DiskAccountEntry → Ordering
by_entry_id left right = compare left.id right.id

-- The duplicate is the file that the target keeps.
abbrev pub is_kept : CanonicalTarget → DiskAccountEntry → Bool
is_kept target e = elim target.matched_group_path [ none ↦ false | some path ↦ path_eq path e.path ]

-- One round of the loop over the groups; `none` is the error of an empty group.
unfoldable pub plan_group :
    AccountStore
    → SyncMode
    → List FilePath
    → List DiskAccountEntry
    → DiskSyncPlan
    → Option DiskSyncPlan
unfolding select_canonical_target merge_duplicate_account_files
plan_group s mode observed entries plan =
    let group = sort_by by_entry_id entries in
    elim (select_canonical_target s group mode) [
      | none ↦ none
      | some target ↦
          let merged = merge_duplicate_account_files target.disk group in
          some (record plan {
            writes =
                if not (file_eq merged target.disk) || not (has_path observed target.path)
                then plan.writes ++ ((target.path, merged) ∷ [])
                else plan.writes;
            removals =
                plan.removals ++ map (λ e. e.path) (keep_if (λ e. not (is_kept target e)) group);
            upserts =
                plan.upserts ++ (record { id = target.id; path = target.path; disk = merged } ∷ []);
            seen_ids = set_insert target.id plan.seen_ids;
          })
    ]

unfoldable pub plan_groups :
    AccountStore
    → SyncMode
    → List FilePath
    → List (List DiskAccountEntry)
    → DiskSyncPlan
    → Option DiskSyncPlan
unfolding plan_group
plan_groups s mode observed [] plan = some plan
plan_groups s mode observed (g ∷ gs) plan = elim (plan_group s mode observed g plan) [
  | none ↦ none
  | some plan' ↦ plan_groups s mode observed gs plan'
]

unfoldable pub build_disk_sync_plan :
    AccountStore → DiskScanSnapshot → SyncMode → Option DiskSyncPlan
unfolding plan_groups group_entries
build_disk_sync_plan s snapshot mode =
    plan_groups s mode snapshot.observed_paths (values (group_entries snapshot.entries []))
      (record {
        mode = mode;
        writes = [];
        removals = [];
        upserts = [];
        seen_ids = [];
        failed_file_ids = snapshot.failed_file_ids;
      })

unfoldable pub upsert_all : AccountStore → List DiskSyncUpsert → AccountStore
unfolding upsert_disk_record
upsert_all s [] = s
upsert_all s (u ∷ us) = upsert_all (upsert_disk_record s u.id u.path u.disk) us

abbrev pub is_idle : AccountRecord → Bool
is_idle r = nat_eq r.in_flight_requests 0 && not r.refresh_in_flight

-- An account whose file is gone: it is dropped, or detached while it is in use.
unfoldable pub retire : AccountStore → String → AccountStore
retire s id = elim (lookup id s.records) [
  | none ↦ s
  | some r ↦ if is_idle r then record s { records = remove id s.records } else update s id detach
]

-- The accounts that the plan leaves alone.
abbrev pub is_spared : DiskSyncPlan → String → Bool
is_spared plan id =
    contains plan.seen_ids id || (is_rescan plan.mode && contains plan.failed_file_ids id)

unfoldable pub retire_unseen : DiskSyncPlan → List String → AccountStore → AccountStore
unfolding retire
retire_unseen plan [] s = s
retire_unseen plan (id ∷ ids) s =
    retire_unseen plan ids (if is_spared plan id then s else retire s id)

unfoldable pub apply_disk_sync_plan : AccountStore → DiskSyncPlan → AccountStore
unfolding upsert_all retire_unseen
apply_disk_sync_plan s plan =
    let s' = upsert_all s plan.upserts in retire_unseen plan (keys s'.records) s'
