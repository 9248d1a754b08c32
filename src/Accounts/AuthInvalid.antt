-- ===== src/Accounts/AuthInvalid.antt =====
-- src/accounts/lifecycle.rs and src/app/mod.rs: the end of an account whose refresh token is refused.
-- Its file goes to the trash between two updates of the store, and other tasks run in between.
use Prim.Native.String.{◌++◌ as append}
use codaze.Prelude.{String, true, Option, none, some, if◌then◌else◌}
use codaze.Prelude.Text.{contains_text}
use codaze.Prelude.Assoc.{lookup}
use codaze.Prelude.Result.{Result, ok, err, ok_or, ◌>>=◌}
use codaze.Prelude.Time.{DateTime, Duration, Chrono}
use codaze.Classifier.{FailureClass, is_auth_invalid_class}
use codaze.Accounts.Types.{
  RoutingState, AccountRecord, AccountStore, Error, unknown_account, AuthInvalidPlan, AccountDiskOp,
}
use codaze.Accounts.Block.{apply_auth_invalid_block}
use codaze.Accounts.Lifecycle.{update, settle, maybe_remove_detached, apply_failure}

unfoldable pub condemn : DateTime → String → AccountRecord → AccountRecord
unfolding apply_auth_invalid_block
condemn now details r =
    let s = record (settle r) {
      last_error_at = some now;
      last_error = some details;
      access_token = none;
      access_token_expires_at = none;
      routing_state = RoutingState.auth_invalid;
    } in
    record (apply_auth_invalid_block s now) { auth_invalid_tombstone = true }

unfoldable pub prepare_auth_invalid_failure :
    AccountStore → String → String → DateTime → Result Error (AuthInvalidPlan × AccountStore)
unfolding condemn
prepare_auth_invalid_failure s id details now = do
  r ← ok_or (lookup id s.records) (unknown_account id)
  let trash_op =
      if r.detached then none else some (AccountDiskOp.move_to_trash r.file_path s.accounts_dir)
  ok (record { account_id = id; trash_op = trash_op }, update s id (condemn now details))

unfoldable pub bury : DateTime → AccountRecord → AccountRecord
unfolding apply_auth_invalid_block
bury now r =
    let s = record r {
      routing_state = RoutingState.auth_invalid;
      access_token = none;
      access_token_expires_at = none;
    } in
    record (apply_auth_invalid_block s now) { auth_invalid_tombstone = true; detached = true }

unfoldable pub finalize_auth_invalid_failure :
    AccountStore → String → DateTime → Result Error AccountStore
unfolding bury maybe_remove_detached
finalize_auth_invalid_failure s id now = do
  r ← ok_or (lookup id s.records) (unknown_account id)
  ok (maybe_remove_detached (update s id (bury now)) id)

-- The text of the error is appended to the last error, once.
next_error : Option String → String → String
next_error none suffix = suffix
next_error (some current) suffix =
    if contains_text current suffix then current else append (append current "; ") suffix

unfoldable pub note_trash_failure : String → DateTime → AccountRecord → AccountRecord
unfolding next_error
note_trash_failure error now r =
    let suffix = append "move invalid account file to trash failed: " error in
    record r { last_error = some (next_error r.last_error suffix); last_error_at = some now }

unfoldable pub note_auth_invalid_trash_failure :
    AccountStore → String → String → DateTime → AccountStore
unfolding note_trash_failure
note_auth_invalid_trash_failure s id error now = update s id (note_trash_failure error now)

-- What the file operation answers (`none` is success), and what the other tasks make of the store
-- while it runs.
pub record Disk : Type 0 where
  pub run : AccountDiskOp → Option String
  pub meanwhile : AccountStore → AccountStore

-- `run` where an operation is due.
abbrev pub run_due : Disk → Option AccountDiskOp → Option String
run_due disk none = none
run_due disk (some op) = disk.run op

-- After the file operation: a failure is noted, and otherwise the account is buried.
unfoldable pub conclude :
    AccountStore → String → Option String → DateTime → Result Error (Unit {0}) × AccountStore
conclude s id (some error) later = (ok tt, note_auth_invalid_trash_failure s id error later)
conclude s id none later = elim (finalize_auth_invalid_failure s id later) [
  | err e ↦ (err e, s)
  | ok t ↦ (ok tt, t)
]

unfoldable pub condemn_account :
    Disk
    → AccountStore
    → String
    → String
    → DateTime
    → DateTime
    → Result Error (Unit {0}) × AccountStore
condemn_account disk s id details now later = elim (prepare_auth_invalid_failure s id details now) [
  | err e ↦ (err e, s)
  | ok (plan, t) ↦ conclude (disk.meanwhile t) plan.account_id (run_due disk plan.trash_op) later
]

-- `AppState::finish_refresh_failure`: the answer, and the store. The two times are the readings of
-- the clock in the two updates.
unfoldable pub finish_refresh_failure :
    Chrono
    → Disk
    → AccountStore
    → String
    → FailureClass
    → Option Duration
    → String
    → DateTime
    → DateTime
    → Result Error (Unit {0}) × AccountStore
finish_refresh_failure chrono disk s id failure retry_after details now later =
    if is_auth_invalid_class failure
    then condemn_account disk s id details now later
    else (ok tt, apply_failure chrono s id failure retry_after details now)
