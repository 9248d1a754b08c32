-- ===== src/Accounts/Import.antt =====
-- src/accounts/disk.rs and src/accounts/mod.rs: importing and removing an account. The store makes a
-- plan, the file operation of the plan is run, then the plan is applied.
use Prim.Native.String.{◌++◌ as append}
use codaze.Prelude.{
  ℕ, String, Bool, true, false, not, ◌&&◌, ◌||◌, Option, none, some, List, [], ◌∷◌, if◌then◌else◌,
  ◌==◌, find, or_else,
}
use codaze.Prelude.Text.{trim, is_empty, hex_byte}
use codaze.Prelude.Assoc.{lookup, values, insert}
use codaze.Prelude.Result.{Result, ok, err, ok_or, ◌>>=◌}
use codaze.Accounts.Types.{
  RoutingState, AccountRecord, AccountStore, Error, unknown_account, invalid_refresh_token,
  AccountFile, AccountDiskOp, ImportApply, ImportAccountPlan, ImportAccountResult,
  RemoveAccountPlan, FilePath, join,
}
use codaze.Accounts.Lifecycle.{update, maybe_remove_detached}
use codaze.Accounts.Wake.{view}

unfoldable pub normalize_refresh_token : String → Result Error String
unfolding trim
normalize_refresh_token token =
    let trimmed = trim token in if is_empty trimmed then err invalid_refresh_token else ok trimmed

unfoldable pub normalize_optional_metadata : Option String → Option String
unfolding trim
normalize_optional_metadata none = none
normalize_optional_metadata (some value) =
    let trimmed = trim value in if is_empty trimmed then none else some trimmed

-- A record as `upsert_disk_record` makes it for a file that is new to the store.
abbrev pub fresh_record : String → FilePath → AccountFile → AccountRecord
fresh_record id path disk = record {
  id = id;
  file_path = path;
  label = disk.label;
  email = disk.email;
  refresh_token = disk.refresh_token;
  access_token = none;
  account_id = none;
  plan_type = none;
  access_token_expires_at = none;
  last_refresh_at = none;
  routing_state = RoutingState.cold;
  blocked_reason = none;
  blocked_source = none;
  blocked_until = none;
  local_backoff_level = 0;
  refresh_in_flight = false;
  in_flight_requests = 0;
  last_selected_at = none;
  last_success_at = none;
  last_error_at = none;
  last_error = none;
  auth_invalid_tombstone = false;
  detached = false;
}

-- A record that the store has keeps its tokens and its runtime state.
abbrev pub reread_record : FilePath → AccountFile → AccountRecord → AccountRecord
reread_record path disk r = record r {
  file_path = path;
  label = disk.label;
  email = disk.email;
  detached = if not r.auth_invalid_tombstone then false else r.detached;
}

unfoldable pub upsert_disk_record : AccountStore → String → FilePath → AccountFile → AccountStore
upsert_disk_record s id path disk = elim (lookup id s.records) [
  | some r ↦ update s id (reread_record path disk)
  | none ↦ record s { records = insert id (fresh_record id path disk) s.records }
]

unfoldable pub find_account_id_by_refresh_token : AccountStore → String → Option String
find_account_id_by_refresh_token s token =
    elim (find (λ r. not r.detached && r.refresh_token == token) (values s.records)) [
      | none ↦ none
      | some r ↦ some r.id
    ]

-- `value` is given, and is not what stands.
abbrev pub differs : Option String → Option String → Bool
differs current none = false
differs none (some value) = true
differs (some c) (some value) = not (c == value)

unfoldable pub prepare_existing_account_metadata_update :
    AccountStore → String → Option String → Option String → Result Error ImportAccountPlan
prepare_existing_account_metadata_update s id label email = do
  r ← ok_or (lookup id s.records) (unknown_account id)
  let next_label = or_else label r.label
  let next_email = or_else email r.email
  let changed = differs r.label label || differs r.email email
  ok (record {
    account_id = id;
    already_exists = true;
    apply =
        if changed
        then ImportApply.update_metadata id next_label next_email
        else ImportApply.nothing;
    disk_op =
        if changed && not r.detached
        then some (
            AccountDiskOp.write r.file_path
              (record { refresh_token = r.refresh_token; label = next_label; email = next_email }))
        else none;
  })

-- The digest of the crate sha2, as the list of its bytes, is a parameter.
module _ (sha256 : String → List ℕ) where
  hex_of : ℕ → List ℕ → String
  unfolding hex_byte
  hex_of ℕ.zero bytes = ""
  hex_of (ℕ.suc n) [] = ""
  hex_of (ℕ.suc n) (b ∷ bytes) = append (hex_byte b) (hex_of n bytes)

  -- The first 16 bytes of the digest in hexadecimal digits.
  unfoldable pub stable_account_id : String → String
  unfolding hex_of
  stable_account_id token = hex_of 16 (sha256 token)

  unfoldable pub prepare_import_account :
      AccountStore → String → Option String → Option String → Result Error ImportAccountPlan
  unfolding normalize_refresh_token normalize_optional_metadata find_account_id_by_refresh_token
      prepare_existing_account_metadata_update stable_account_id
  prepare_import_account s token label email = do
    token' ← normalize_refresh_token token
    let label' = normalize_optional_metadata label
    let email' = normalize_optional_metadata email
    elim (find_account_id_by_refresh_token s token') [
      | some existing_id ↦ prepare_existing_account_metadata_update s existing_id label' email'
      | none ↦
          let id = stable_account_id token' in
          let path = join s.accounts_dir (append id ".json") in
          let disk : AccountFile = record {
            refresh_token = token';
            label = label';
            email = email';
          } in
          ok (record {
            account_id = id;
            already_exists = false;
            apply = ImportApply.insert id path disk;
            disk_op = some (AccountDiskOp.write path disk);
          })
    ]

unfoldable pub apply_import : AccountStore → ImportApply → Result Error AccountStore
unfolding upsert_disk_record
apply_import s ImportApply.nothing = ok s
apply_import s (ImportApply.insert id path disk) = ok (upsert_disk_record s id path disk)
apply_import s (ImportApply.update_metadata id label email) = do
  r ← ok_or (lookup id s.records) (unknown_account id)
  ok (update s id (λ r. record r { label = label; email = email }))

unfoldable pub apply_import_account_plan :
    AccountStore → ImportAccountPlan → Result Error (ImportAccountResult × AccountStore)
unfolding apply_import view
apply_import_account_plan s plan = do
  s' ← apply_import s plan.apply
  account ← view s' plan.account_id
  ok (record { account = account; already_exists = plan.already_exists }, s')

unfoldable pub prepare_remove_account :
    AccountStore → String → Result Error (Option RemoveAccountPlan)
prepare_remove_account s id = elim (lookup id s.records) [
  | none ↦ ok none
  | some r ↦ ok (some (record { account_id = id; disk_op = AccountDiskOp.remove r.file_path }))
]

abbrev pub detach : AccountRecord → AccountRecord
detach r = record r { detached = true }

unfoldable pub apply_remove_account_plan : AccountStore → RemoveAccountPlan → AccountStore
unfolding maybe_remove_detached
apply_remove_account_plan s plan =
    maybe_remove_detached (update s plan.account_id detach) plan.account_id
