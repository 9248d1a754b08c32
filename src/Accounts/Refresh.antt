-- ===== src/Accounts/Refresh.antt =====
-- src/accounts/lifecycle.rs: a successful refresh, the blocks that run out, and what a request takes
-- from an account.
use codaze.Prelude.{
  String, Bool, false, not, ◌&&◌, Option, none, some, if◌then◌else◌, is_some, or_else, leb,
}
use codaze.Prelude.Assoc.{lookup, map_values}
use codaze.Prelude.Result.{Result, ok, ok_or, ◌>>=◌}
use codaze.Prelude.Time.{DateTime}
use codaze.Accounts.Types.{
  RoutingState, AccountRecord, AccountStore, Error, unknown_account, RefreshedAccount,
  AccountDiskOp, account_file_from_record, UpstreamAccount, UpstreamAccountError, missing_record,
  missing_access_token, is_auth_invalid, is_cold,
}
use codaze.Accounts.Block.{has_active_block_at, clear_block, idle_state}
use codaze.Accounts.Lifecycle.{update, maybe_remove_detached}

unfoldable pub refresh_success : RefreshedAccount → DateTime → AccountRecord → AccountRecord
unfolding has_active_block_at clear_block
refresh_success refreshed now r =
    let s = record r {
      access_token = some refreshed.access_token;
      refresh_token = elim refreshed.refresh_token [ none ↦ r.refresh_token | some t ↦ t ];
      account_id = or_else refreshed.account_id r.account_id;
      plan_type = or_else refreshed.plan_type r.plan_type;
      email = or_else refreshed.email r.email;
      access_token_expires_at = refreshed.access_token_expires_at;
      last_refresh_at = some now;
      refresh_in_flight = false;
    } in
    if has_active_block_at s now
    then s
    else record (clear_block (record s { routing_state = RoutingState.ready }) now) {
      local_backoff_level = 0;
      last_error = none;
    }

-- The store afterwards, and the file operation that is due: the write of the account's file, unless
-- the account is detached.
unfoldable pub finish_refresh_success_without_persist :
    AccountStore
    → String
    → RefreshedAccount
    → DateTime
    → Result Error (Option AccountDiskOp × AccountStore)
unfolding refresh_success account_file_from_record maybe_remove_detached
finish_refresh_success_without_persist s id refreshed now = do
  r ← ok_or (lookup id s.records) (unknown_account id)
  let r' = refresh_success refreshed now r
  let persist_op =
      if r'.detached
      then none
      else some (AccountDiskOp.write r'.file_path (account_file_from_record r'))
  ok (persist_op, maybe_remove_detached (update s id (refresh_success refreshed now)) id)

unfoldable pub expire_block : DateTime → AccountRecord → AccountRecord
unfolding clear_block
expire_block now r =
    let expired : Bool = elim r.blocked_until [ none ↦ false | some until ↦ leb until now ] in
    let s =
      if expired
      then (let c = clear_block r now in
          if not (is_auth_invalid c.routing_state) && not c.refresh_in_flight
          then record c { routing_state = idle_state c }
          else c)
      else r in
    if is_cold s.routing_state && is_some s.access_token
    then record s { routing_state = RoutingState.ready }
    else s

unfoldable pub refresh_expired_blocks : AccountStore → DateTime → AccountStore
unfolding expire_block
refresh_expired_blocks s now = record s { records = map_values (expire_block now) s.records }

unfoldable pub upstream_account :
    AccountStore → String → Result UpstreamAccountError UpstreamAccount
upstream_account s id = do
  r ← ok_or (lookup id s.records) missing_record
  access_token ← ok_or r.access_token missing_access_token
  ok (record { access_token = access_token; chatgpt_account_id = r.account_id })
