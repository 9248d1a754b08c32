-- ===== src/Failover/Advances.antt =====
-- The steps of a round of src/failover.rs: one that goes on has noted an account of the store as tried
-- or as refreshed by force, and it notes neither twice.
use codaze.Prelude.{
  ℕ, ◌+◌, ◌<◌, String, false, List, ◌≡◌, arith, inl, inr, In, Bool-cases, contains, set_insert,
}
use codaze.Prelude.Result.{Result-cases}
use codaze.Classifier.{FailureClass}
use codaze.Semantics.Analysis.{TransportError}
use codaze.Accounts.Types.{
  AccountStore, AccountSelection, UpstreamAccount, missing_access_token, missing_record,
}
use codaze.Accounts.Refresh.{upstream_account, finish_refresh_success_without_persist}
use codaze.Accounts.AuthInvalid.{finish_refresh_failure}
use codaze.Failover.Step.{
  SuccessDisposition, release_immediately, hold_until_caller, Env, LoopState, Round, continue,
  return, RefreshFailure, should_failover_failure_class,
}
use codaze.Failover.Loop.{
  await, on_error, send, use_account, after_refresh_failure, on_refresh_error, refresh_first,
}
use codaze.Failover.Measure.{missing, missing-set_insert}
use codaze.Failover.Ids.{
  Within, apply_failure-Within, invalidate_access_token-Within, release_selection-Within,
  finish_refresh_failure-Within, refresh-Within,
}

-- What the sets of the loop leave of the ids.
abbrev pub left : {W : Type 0} → List String → LoopState W → ℕ
left ids l = missing ids l.tried + missing ids l.forced

-- A round that goes on keeps the store within the ids, and leaves less than `n`.
abbrev pub Advances : {W T : Type 0} → List String → ℕ → Round W T → Type 0
Advances ids n (continue l) = Within ids l.store × (left ids l < n)
Advances ids n (return _ _) = Unit

module _ {W T : Type 0} (env : Env W T) (ids : List String)
    (others : (w : W) (s : AccountStore) → Within ids s → Within ids (env.others w s))
    (meanwhile : (w : W) (s : AccountStore)
      → Within ids s
      → Within ids ((env.disk w).meanwhile s)) where
  -- An account that is noted as tried.
  tried_lt :
      (l : LoopState W) (id : String)
      → In id ids
      → contains l.tried id ≡ false
      → left ids (record l { tried = set_insert id l.tried }) < left ids l
  tried_lt l id m new = let less = missing-set_insert ids id l.tried m new in ground arith

  on_error-Advances :
      (l : LoopState W) (id : String) (error : TransportError) (failure : FailureClass)
      → Within ids l.store
      → In id ids
      → contains l.tried id ≡ false
      → Advances ids (left ids l) (on_error env l id error failure)
  unfolding on_error should_failover_failure_class
  on_error-Advances l id error FailureClass.request_rejected h m new = tt
  on_error-Advances l id error FailureClass.internal_failure h m new = tt
  on_error-Advances l id error FailureClass.access_token_rejected h m new =
      let h' = invalidate_access_token-Within ids l.store id (env.now l.world) h in
      elim (Bool-cases (contains l.forced id)) [
        | inl e ↦
            rw (e, on_error)
              (apply_failure-Within ids env.chrono _ id _ _ _ _ h', tried_lt l id m new)
        | inr e ↦
            let less = missing-set_insert ids id l.forced m e in
            rw (e, on_error) (release_selection-Within ids _ id _ h', ground arith)
      ]
  on_error-Advances l id error FailureClass.auth_invalid h m new =
      (apply_failure-Within ids env.chrono l.store id _ _ _ _ h, tried_lt l id m new)
  on_error-Advances l id error FailureClass.rate_limited h m new =
      (apply_failure-Within ids env.chrono l.store id _ _ _ _ h, tried_lt l id m new)
  on_error-Advances l id error FailureClass.quota_exhausted h m new =
      (apply_failure-Within ids env.chrono l.store id _ _ _ _ h, tried_lt l id m new)
  on_error-Advances l id error FailureClass.risk_controlled h m new =
      (apply_failure-Within ids env.chrono l.store id _ _ _ _ h, tried_lt l id m new)
  on_error-Advances l id error FailureClass.temporary_failure h m new =
      (apply_failure-Within ids env.chrono l.store id _ _ _ _ h, tried_lt l id m new)

  send-Advances :
      (disposition : SuccessDisposition) (l : LoopState W) (id : String) (account : UpstreamAccount)
      → Within ids l.store
      → In id ids
      → contains l.tried id ≡ false
      → Advances ids (left ids l) (send env disposition l id account)
  unfolding send
  send-Advances disposition l id account h m new =
      elim (Result-cases (env.execute l.world account)) [
        | inl (value, e) ↦
            elim disposition as (λ d. Advances ids (left ids l) (send env d l id account)) [
              | release_immediately ↦ rw (e, send) tt
              | hold_until_caller ↦ rw (e, send) tt
            ]
        | inr (error, e) ↦
            rw (e, send)
              (on_error-Advances (await env l) id error _ (others l.world l.store h) m new)
      ]

  pub use_account-Advances :
      (disposition : SuccessDisposition) (l : LoopState W) (id : String)
      → Within ids l.store
      → In id ids
      → contains l.tried id ≡ false
      → Advances ids (left ids l) (use_account env disposition l id)
  unfolding use_account
  use_account-Advances disposition l id h m new =
      elim (Result-cases (upstream_account l.store id)) [
        | inl (account, e) ↦ rw (e, use_account) (send-Advances disposition l id account h m new)
        | inr (missing_access_token, e) ↦
            rw (e, use_account)
              (
                release_selection-Within ids _ id _
                    (invalidate_access_token-Within ids _ id _ (others l.world l.store h)),
                tried_lt l id m new,
              )
        | inr (missing_record, e) ↦
            rw (e, use_account)
              (release_selection-Within ids _ id _ (others l.world l.store h), tried_lt l id m new)
      ]

  after_refresh_failure-Advances :
      (l : LoopState W) (id : String) (error : RefreshFailure) (failure : FailureClass)
      → Within ids l.store
      → In id ids
      → contains l.tried id ≡ false
      → Advances ids (left ids l) (after_refresh_failure env l id error failure)
  unfolding after_refresh_failure should_failover_failure_class
  after_refresh_failure-Advances l id error FailureClass.request_rejected h m new = tt
  after_refresh_failure-Advances l id error FailureClass.internal_failure h m new = tt
  after_refresh_failure-Advances l id error FailureClass.access_token_rejected h m new =
      (h, tried_lt l id m new)
  after_refresh_failure-Advances l id error FailureClass.auth_invalid h m new =
      (h, tried_lt l id m new)
  after_refresh_failure-Advances l id error FailureClass.rate_limited h m new =
      (h, tried_lt l id m new)
  after_refresh_failure-Advances l id error FailureClass.quota_exhausted h m new =
      (h, tried_lt l id m new)
  after_refresh_failure-Advances l id error FailureClass.risk_controlled h m new =
      (h, tried_lt l id m new)
  after_refresh_failure-Advances l id error FailureClass.temporary_failure h m new =
      (h, tried_lt l id m new)

  on_refresh_error-Advances :
      (l : LoopState W) (id : String) (error : RefreshFailure)
      → Within ids l.store
      → In id ids
      → contains l.tried id ≡ false
      → Advances ids (left ids l) (on_refresh_error env l id error)
  unfolding on_refresh_error
  on_refresh_error-Advances l id error h m new =
      let now = env.now l.world in
      let answer =
        finish_refresh_failure env.chrono (env.disk l.world) l.store id error.class
          error.retry_after (env.refresh_details error) now now in
      let kept =
        finish_refresh_failure-Within ids (env.disk l.world) (meanwhile l.world) env.chrono l.store
          id error.class error.retry_after (env.refresh_details error) now now h in
      elim (Result-cases answer.0) [
        | inr (e, failed) ↦ rw (failed, on_refresh_error) tt
        | inl (done, applied) ↦
            rw (applied, on_refresh_error)
              (after_refresh_failure-Advances (record l { store = answer.1 }) id error error.class
                kept m new)
      ]

  pub refresh_first-Advances :
      (disposition : SuccessDisposition) (l : LoopState W) (selection : AccountSelection)
      → Within ids l.store
      → In selection.account_id ids
      → contains l.tried selection.account_id ≡ false
      → Advances ids (left ids l) (refresh_first env disposition l selection)
  unfolding refresh_first
  refresh_first-Advances disposition l selection h m new =
      let id = selection.account_id in
      let l' = await env l in
      let h' : Within ids l'.store = others l.world l.store h in
      elim (Result-cases (env.refresh l.world selection.refresh_token)) [
        | inr (error, e) ↦ rw (e, refresh_first) (on_refresh_error-Advances l' id error h' m new)
        | inl (refreshed, e) ↦
            let finished =
              finish_refresh_success_without_persist l'.store id refreshed (env.now l'.world) in
            elim (Result-cases finished) [
              | inr (missing, f) ↦ rw (e, f, refresh_first) tt
              | inl ((op, store), f) ↦
                  rw (e, f, refresh_first)
                    (use_account-Advances disposition (await env (record l' { store = store })) id
                      (others l'.world store
                        (refresh-Within ids l'.store id refreshed (env.now l'.world) f h'))
                      m new)
            ]
      ]
