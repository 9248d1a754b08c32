-- ===== src/Accounts/Wake.antt =====
-- src/accounts/lifecycle.rs: waking one account or all, and the view of one.
use codaze.Prelude.{◌+◌, String, none, some, List, [], ◌∷◌}
use codaze.Prelude.Assoc.{lookup, keys}
use codaze.Prelude.Order.{sort_by}
use codaze.Prelude.Result.{Result, ok, ok_or, ◌>>=◌}
use codaze.Prelude.Time.{DateTime}
use Prim.Native.String.{compare}
use codaze.Accounts.Types.{
  AccountStore, Error, unknown_account, AccountView, view_of, WakeDisposition, woken,
  skipped_auth_invalid, WakeAccountResult, WakeAllResult,
}
use codaze.Accounts.Block.{apply_wake}
use codaze.Accounts.Lifecycle.{update}

unfoldable pub view : AccountStore → String → Result Error AccountView
unfolding view_of
view s id = do r ← ok_or (lookup id s.records) (unknown_account id); ok (view_of r)

unfoldable pub wake_account :
    AccountStore → String → DateTime → Result Error (WakeAccountResult × AccountStore)
unfolding apply_wake view_of
wake_account s id now = do
  r ← ok_or (lookup id s.records) (unknown_account id)
  let (r', disposition) = apply_wake r now
  ok (
    record { disposition = disposition; account = view_of r' },
    update s id (λ r. (apply_wake r now).0),
  )

-- The loop of `wake_all_accounts` over the sorted ids.
abbrev count_disposition : WakeDisposition → WakeAccountResult → WakeAllResult → WakeAllResult
count_disposition woken entry rest = record rest {
  woken = rest.woken + 1;
  accounts = entry ∷ rest.accounts;
}
count_disposition skipped_auth_invalid entry rest = record rest {
  skipped_auth_invalid = rest.skipped_auth_invalid + 1;
  accounts = entry ∷ rest.accounts;
}

unfoldable pub wake_each : List String → AccountStore → DateTime → WakeAllResult × AccountStore
unfolding apply_wake view_of
wake_each [] s now = (record { woken = 0; skipped_auth_invalid = 0; accounts = [] }, s)
wake_each (id ∷ ids) s now = elim (lookup id s.records) [
  | none ↦ wake_each ids s now
  | some r ↦
      let (r', disposition) = apply_wake r now in
      let (rest, s') = wake_each ids (update s id (λ r. (apply_wake r now).0)) now in
      (
        count_disposition disposition (record { disposition = disposition; account = view_of r' })
            rest,
        s',
      )
]

unfoldable pub wake_all_accounts : AccountStore → DateTime → WakeAllResult × AccountStore
unfolding wake_each
wake_all_accounts s now = wake_each (sort_by compare (keys s.records)) s now
