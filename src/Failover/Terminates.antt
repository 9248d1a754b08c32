-- ===== src/Failover/Terminates.antt =====
-- src/failover.rs: the loop ends. The fuel that is enough is twice the number of the accounts, and one.
use codaze.Prelude.{
  ℕ, zero, suc, ◌<◌, String, false, Option, none, some, List, ◌≡◌, refl, arith, inl, inr, ◌⊎◌, In,
  if-both, Option-cases, contains, keep_if, map,
}
use mathlib.Core.Path.{subst, sym, ap}
use codaze.Prelude.Assoc.{lookup, values}
use codaze.Prelude.Members.{In-map, In-keep_if, Entries-values}
use codaze.Prelude.Order.Extremes.{In-sort_by}
use codaze.Prelude.Result.{Result, ok, Result-cases}
use codaze.Prelude.Time.{DateTime, Duration}
use codaze.Config.{RoutingPolicy}
use codaze.Router.{RouteCandidate, by_id, select_candidate}
use codaze.Router.Laws.{select_candidate-In}
use codaze.Accounts.Types.{AccountStore, AccountSelection}
use codaze.Accounts.Refresh.{refresh_expired_blocks}
use codaze.Accounts.Selection.{
  Readings, is_candidate, candidate_of, build_route_candidates, lease_chosen, select_account,
}
use codaze.Accounts.Selection.Laws.{List-cases}
use codaze.Failover.Step.{
  SuccessDisposition, Env, LoopState, Round, continue, return, RoutedExecution, FailoverFailure,
}
use codaze.Failover.Loop.{round, execute_with_failover, await}
use codaze.Failover.Ids.{Within, refresh_expired_blocks-Within, lease_chosen-Within}
use codaze.Failover.Advances.{left, Advances, use_account-Advances, refresh_first-Advances}

module _ (ids : List String) where
  -- A candidate has an id of the store, and is not excluded.
  candidate-Within :
      (s : AccountStore) (excluded : List String) (now : DateTime) (c : RouteCandidate)
      → Within ids s
      → In c (build_route_candidates s excluded now)
      → In c.account_id ids × (contains excluded c.account_id ≡ false)
  unfolding build_route_candidates
  candidate-Within s excluded now c h member =
      let kept = keep_if (is_candidate excluded now) (values s.records) in
      let (r, found, same) =
        In-map candidate_of c kept ((In-sort_by by_id c (map candidate_of kept)).0 member) in
      let (listed, passes) = In-keep_if (is_candidate excluded now) r (values s.records) found in
      let (k, here) = Entries-values (λ _ r. In r.id ids) r s.records h listed in
      let named : c.account_id ≡ r.id = ap (λ (x : RouteCandidate). x.account_id) same in
      (
        subst (λ i. In i ids) (sym named) here,
        subst (λ i. contains excluded i ≡ false) (sym named) (ground arith),
      )

  -- A lease that succeeds is of the account that was chosen.
  lease_chosen-eq-ok :
      (s : AccountStore) (chosen : Option String) (at : Readings) (skew : Duration)
      {selection : AccountSelection}
      → (lease_chosen s chosen at skew).0 ≡ ok selection
      → chosen ≡ some selection.account_id
  unfolding lease_chosen
  lease_chosen-eq-ok s none at skew e = absurd (cc)
  lease_chosen-eq-ok s (some id) at skew e = elim (Option-cases (lookup id s.records)) [
    | inl missing ↦ absurd (ground arith)
    | inr (r, found) ↦ ground arith
  ]

  module _ (s : AccountStore) (policy : RoutingPolicy) (skew : Duration) (excluded : List String)
      (at : Readings) (h : Within ids s) where
    select_account-Within : Within ids (select_account s policy skew excluded at).1
    unfolding select_account
    select_account-Within =
        lease_chosen-Within ids _ _ at skew (refresh_expired_blocks-Within ids s at.refreshed h)

    select_account-new :
        {selection : AccountSelection}
        → (select_account s policy skew excluded at).0 ≡ ok selection
        → In selection.account_id ids × (contains excluded selection.account_id ≡ false)
    unfolding select_account select_candidate
    select_account-new {selection} e =
        let s' = refresh_expired_blocks s at.refreshed in
        let cs = build_route_candidates s' excluded at.tested in
        let chosen =
          lease_chosen-eq-ok
            (record s' {
              round_robin_cursor = (select_candidate policy cs s'.round_robin_cursor).1;
            })
            (select_candidate policy cs s'.round_robin_cursor).0 at skew e in
        elim (List-cases cs) [
          | inl empty ↦
              let nobody = ap (λ xs. (select_candidate policy xs s'.round_robin_cursor).0) empty in
              absurd (cc)
          | inr some_candidate ↦
              let (c, member, picked) =
                select_candidate-In policy cs s'.round_robin_cursor some_candidate in
              let same : selection.account_id ≡ c.account_id = cc in
              subst (λ i. In i ids × (contains excluded i ≡ false)) (sym same)
                (candidate-Within s' excluded at.tested c
                  (refresh_expired_blocks-Within ids s at.refreshed h) member)
        ]

module _ {W T : Type 0} where
  Round-cases :
      (r : Round W T)
      → ((l : LoopState W) × (r ≡ continue l))
        ⊎ ((answer : Result FailoverFailure (RoutedExecution T)) × (l : LoopState W) × (r
              ≡ return answer l))
  Round-cases (continue l) = inl (l, refl)
  Round-cases (return answer l) = inr (answer, l, refl)

module _ {W T : Type 0} (env : Env W T) (ids : List String)
    (others : (w : W) (s : AccountStore) → Within ids s → Within ids (env.others w s))
    (meanwhile : (w : W) (s : AccountStore) → Within ids s → Within ids ((env.disk w).meanwhile s))
    (policy : RoutingPolicy) (skew : Duration) (disposition : SuccessDisposition) where
  -- A round that goes on keeps the store within the ids, and leaves fewer of them untried or not
  -- refreshed by force.
  pub round-Advances :
      (l : LoopState W)
      → Within ids l.store
      → Advances ids (left ids l) (round env policy skew disposition l)
  unfolding round
  round-Advances l h =
      let at = env.readings l.world in
      let answer = select_account l.store policy skew l.tried at in
      elim (Result-cases answer.0) [
        | inr (e, failed) ↦ rw (failed, round) tt
        | inl (selection, chosen) ↦
            let (m, new) = select_account-new ids l.store policy skew l.tried at h chosen in
            let l' = await env (record l { store = answer.1 }) in
            let h' : Within ids l'.store =
              others l.world answer.1
                (select_account-Within ids l.store policy skew l.tried at h) in
            rw (chosen, round)
              (if-both (Advances ids (left ids l)) selection.needs_refresh _ _
                (refresh_first-Advances env ids others meanwhile disposition l' selection h' m new)
                (use_account-Advances env ids others meanwhile disposition l' selection.account_id
                  h' m new))
      ]

  -- If the accounts of the store are among the ids, and the other tasks, also while a file moves, bring
  -- no other account into it, the loop answers within as many rounds as there are ids not tried and ids
  -- not refreshed by force, and one more.
  pub execute_with_failover-terminates :
      (fuel : ℕ) (l : LoopState W)
      → Within ids l.store
      → left ids l < fuel
      → (answer : Result FailoverFailure (RoutedExecution T)) × (l' : LoopState W)
        × (execute_with_failover env policy skew disposition fuel l ≡ some (answer, l'))
  unfolding execute_with_failover
  execute_with_failover-terminates zero l h enough = absurd (ground arith)
  execute_with_failover-terminates (suc fuel) l h enough =
      elim (Round-cases (round env policy skew disposition l)) [
        | inr (answer, l', e) ↦ (answer, l', rw (e, execute_with_failover))
        | inl (l', e) ↦
            let (h', less) = subst (Advances ids (left ids l)) e (round-Advances l h) in
            let (answer, l'', ends) = execute_with_failover-terminates fuel l' h' (omega arith) in
            (answer, l'', rw (e, execute_with_failover) ends)
      ]
