-- ===== src/Failover/Loop.antt =====
-- src/failover.rs: `execute_with_failover_from_inner`, a round at a time, and the loop on fuel.
use codaze.Prelude.{
  ℕ, zero, suc, String, Bool, true, false, Option, none, some, if◌then◌else◌, contains, set_insert,
}
use codaze.Prelude.Result.{Result, ok, err}
use codaze.Prelude.Time.{Duration}
use codaze.Config.{RoutingPolicy}
use codaze.Classifier.{FailureClass, is_auth_invalid_class}
use codaze.Semantics.Analysis.{TransportError, classify_request_error}
use codaze.Accounts.Types.{
  BlockedReason, AccountStore, AccountSelection, UpstreamAccount, missing_record,
  missing_access_token, PoolBlockSummary,
}
use codaze.Accounts.Lifecycle.{
  mark_request_success, apply_failure, invalidate_access_token, release_selection,
}
use codaze.Accounts.Refresh.{finish_refresh_success_without_persist, upstream_account}
use codaze.Accounts.AuthInvalid.{finish_refresh_failure}
use codaze.Accounts.Selection.{select_account}
use codaze.Failover.Step.{
  SuccessDisposition, release_immediately, hold_until_caller, RefreshFailure, FailoverFailure,
  RoutedExecution, Env, LoopState, Round, continue, return, should_failover_failure_class,
  internal_server_error, extract_retry_after, resolve_selection_failure,
}

-- The failures after which no other account is tried.
abbrev pub is_final : FailureClass → Bool
is_final FailureClass.request_rejected = true
is_final FailureClass.internal_failure = true
is_final _ = false

abbrev pub is_token_rejected : FailureClass → Bool
is_token_rejected FailureClass.access_token_rejected = true
is_token_rejected _ = false

abbrev auth_invalid_summary : PoolBlockSummary
auth_invalid_summary = record {
  blocked_reason = BlockedReason.auth_invalid;
  blocked_until = none;
  retry_after = none;
}

module _ {W T : Type 0} (env : Env W T) where
  -- The loop waits: the other tasks run.
  abbrev pub await : LoopState W → LoopState W
  await l = record l { store = env.others l.world l.store; world = env.next l.world }

  abbrev pub try_next : LoopState W → String → Round W T
  try_next l id = continue (record l { tried = set_insert id l.tried })

  abbrev pub fail : LoopState W → FailoverFailure → Round W T
  fail l e = return (err e) l

  -- The answer of `execute` is an error.
  unfoldable pub on_error : LoopState W → String → TransportError → FailureClass → Round W T
  on_error l id error failure =
      let now = env.now l.world in
      let retry_after = extract_retry_after env.parsers error now in
      let marked = λ (s : AccountStore).
        apply_failure env.chrono s id failure retry_after (env.details error failure) now in
      let invalidated = invalidate_access_token l.store id now in
      if is_token_rejected failure
      then if contains l.forced id
        then try_next (record l { store = marked invalidated }) id
        else continue (record l {
          store = release_selection invalidated id now;
          forced = set_insert id l.forced;
        })
      else if is_final failure
      then fail (record l { store = marked l.store }) (FailoverFailure.transport error)
      else if should_failover_failure_class failure
      then try_next (record l { store = marked l.store }) id
      else fail (record l { store = marked l.store }) (FailoverFailure.transport error)

  -- The account has a token: the request is sent.
  unfoldable pub send : SuccessDisposition → LoopState W → String → UpstreamAccount → Round W T
  send disposition l id account = elim (env.execute l.world account) [
    | ok value ↦
        let l' = await l in
        let answer = ok (record { account_id = id; value = value }) in
        elim disposition [
          | release_immediately ↦
              return answer
                (record l' { store = mark_request_success l'.store id (env.now l'.world) })
          | hold_until_caller ↦ return answer l'
        ]
    | err error ↦
        let l' = await l in
        on_error l' id error (classify_request_error env.parsers error (env.now l'.world))
  ]

  unfoldable pub use_account : SuccessDisposition → LoopState W → String → Round W T
  use_account disposition l id =
      let now = env.now l.world in
      elim (upstream_account l.store id) [
        | ok account ↦ send disposition l id account
        | err e ↦ elim e [
          | missing_access_token ↦
              let l' = await l in
              try_next
                (record l' {
                  store = release_selection (invalidate_access_token l'.store id now) id now;
                })
                id
          | missing_record ↦
              let l' = await l in
              try_next (record l' { store = release_selection l'.store id now }) id
        ]
      ]

  -- Whether another account is tried after a refresh that failed, by its class.
  unfoldable pub after_refresh_failure :
      LoopState W → String → RefreshFailure → FailureClass → Round W T
  after_refresh_failure l id error failure =
      let noted =
        if is_auth_invalid_class failure
        then record l { summary = some auth_invalid_summary }
        else l in
      if is_final failure
      then fail l (FailoverFailure.refresh error)
      else if should_failover_failure_class failure
      then try_next noted id
      else fail noted (FailoverFailure.refresh error)

  -- The refresh has failed: `apply_refresh_failure`, and what follows.
  unfoldable pub on_refresh_error : LoopState W → String → RefreshFailure → Round W T
  on_refresh_error l id error =
      let now = env.now l.world in
      let (applied, store) =
        finish_refresh_failure env.chrono (env.disk l.world) l.store id error.class
          error.retry_after (env.refresh_details error) now now in
      let l' = record l { store = store } in
      elim applied [
        | err e ↦ fail l' (FailoverFailure.internal internal_server_error e)
        | ok _ ↦ after_refresh_failure l' id error error.class
      ]

  unfoldable pub refresh_first : SuccessDisposition → LoopState W → AccountSelection → Round W T
  refresh_first disposition l selection =
      let id = selection.account_id in
      elim (env.refresh l.world selection.refresh_token) [
        | err error ↦ on_refresh_error (await l) id error
        | ok refreshed ↦
            let l' = await l in
            elim (finish_refresh_success_without_persist l'.store id refreshed (env.now l'.world)) [
              | err e ↦
                  fail (record l' { store = release_selection l'.store id (env.now l'.world) })
                    (FailoverFailure.internal internal_server_error e)
              | ok (persist_op, store) ↦
                  use_account disposition (await (record l' { store = store })) id
            ]
      ]

  module _ (policy : RoutingPolicy) (skew : Duration) (disposition : SuccessDisposition) where
    -- The body of the loop.
    unfoldable pub round : LoopState W → Round W T
    round l =
        let (selected, store) = select_account l.store policy skew l.tried (env.readings l.world) in
        elim selected [
          | err e ↦
              let (failure, store') =
                resolve_selection_failure env.chrono store e l.tried l.summary (env.now l.world)
                  (env.now l.world) in
              fail (record l { store = store' }) failure
          | ok selection ↦
              let l' = await (record l { store = store }) in
              if selection.needs_refresh
              then refresh_first disposition l' selection
              else use_account disposition l' selection.account_id
        ]

    -- `none` is that the fuel has run out.
    unfoldable pub execute_with_failover :
        ℕ → LoopState W → Option (Result FailoverFailure (RoutedExecution T) × LoopState W)
    execute_with_failover zero l = none
    execute_with_failover (suc fuel) l = elim (round l) [
      | return answer l' ↦ some (answer, l')
      | continue l' ↦ execute_with_failover fuel l'
    ]
