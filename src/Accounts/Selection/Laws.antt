-- ===== src/Accounts/Selection/Laws.antt =====
-- Whom src/accounts/selection.rs selects, and when it finds nobody.
use codaze.Prelude.{
  String, true, Option, none, some, List, [], ◌∷◌, map, ◌≡◌, ◌≢◌, refl, sym, ◌∙◌, arith, inl, inr,
  ◌⊎◌, In, keep_if,
}
use mathlib.Core.Path.{subst, ap}
use codaze.Prelude.Assoc.{lookup, values}
use codaze.Prelude.Members.{In-map, In-map_of, In-keep_if, In-keep_if_of, In-values}
use codaze.Prelude.Order.Extremes.{In-sort_by}
use codaze.Prelude.Result.{ok, err}
use codaze.Prelude.Time.{DateTime, Duration}
use codaze.Config.{RoutingPolicy}
use codaze.Router.{RouteCandidate, by_id, select_candidate}
use codaze.Router.Laws.{select_candidate-In}
use codaze.Accounts.Types.{AccountRecord, AccountStore, AccountSelection, no_eligible_account}
use codaze.Accounts.Refresh.{refresh_expired_blocks}
use codaze.Accounts.Selection.{
  Readings, is_candidate, candidate_of, build_route_candidates, lease, lease_chosen, select_account,
  token_needs_refresh,
}
use codaze.Accounts.Lifecycle.{update}
use codaze.Accounts.Store.{IsGood, IsValid}
use codaze.Accounts.Store.Keeps.{refresh_expired_blocks-IsValid}

-- A candidate is made of a record that passes the test, which its id finds.
candidate_record :
    (s : AccountStore) (excluded : List String) (now : DateTime) (c : RouteCandidate)
    → IsValid s
    → In c (build_route_candidates s excluded now)
    → (r : AccountRecord) × (lookup c.account_id s.records ≡ some r)
      × (is_candidate excluded now r ≡ true)
      × (c.account_id ≡ r.id)
unfolding build_route_candidates
candidate_record s excluded now c v h =
    let kept = keep_if (is_candidate excluded now) (values s.records) in
    let (r, member, same) =
      In-map candidate_of c kept ((In-sort_by by_id c (map candidate_of kept)).0 h) in
    let (listed, passes) = In-keep_if (is_candidate excluded now) r (values s.records) member in
    let (k, good, found) = In-values IsGood r s.records v.distinct v.good listed in
    let named : c.account_id ≡ r.id = ap (λ (x : RouteCandidate). x.account_id) same in
    (r, subst (λ j. lookup j s.records ≡ some r) (sym (named ∙ good.named)) found, passes, named)

record_candidate :
    (s : AccountStore) (excluded : List String) (now : DateTime) (r : AccountRecord)
    → In r (values s.records)
    → is_candidate excluded now r ≡ true
    → build_route_candidates s excluded now ≢ []
unfolding build_route_candidates
record_candidate s excluded now r listed passes e =
    let kept = keep_if (is_candidate excluded now) (values s.records) in
    subst (In (candidate_of r)) e (
      (In-sort_by by_id (candidate_of r) (map candidate_of kept)).1 (
        In-map_of candidate_of r kept
          (In-keep_if_of (is_candidate excluded now) r (values s.records) listed passes)))

pub List-cases {ℓ} : {A : Type ℓ} (xs : List A) → (xs ≡ []) ⊎ (xs ≢ [])
List-cases [] = inl refl
List-cases (x ∷ xs) = inr (λ e. cc)

-- What `lease_chosen` answers of an account that is there, and of none.
lease_chosen_found :
    (s : AccountStore) (chosen : Option String) (at : Readings) (skew : Duration) (id : String)
    (r : AccountRecord)
    → chosen ≡ some id
    → lookup id s.records ≡ some r
    → lease_chosen s chosen at skew ≡ (
      ok (record {
        account_id = id;
        refresh_token = r.refresh_token;
        needs_refresh = token_needs_refresh r skew at.checked;
      }),
      update s id (lease at skew),
    )
unfolding lease_chosen
lease_chosen_found s chosen at skew id r e found = rw e (rw (found, lease_chosen))

lease_chosen-none :
    (s : AccountStore) (chosen : Option String) (at : Readings) (skew : Duration)
    → chosen ≡ none
    → (lease_chosen s chosen at skew).0 ≡ err no_eligible_account
unfolding lease_chosen
lease_chosen-none s chosen at skew e = rw (e, lease_chosen)

module _ (s : AccountStore) (policy : RoutingPolicy) (skew : Duration) (excluded : List String)
    (at : Readings) (v : IsValid s) where
  abbrev unblocked : AccountStore
  unblocked = refresh_expired_blocks s at.refreshed

  -- A selection from a valid store that succeeds answers with an account of the store that is eligible
  -- and not excluded: attached, not refreshing, not in the state of the refused, without a block that
  -- ends later. The account gets the lease, and the answer says whether its token has to be refreshed
  -- first.
  pub select_account_sound :
      {selection : AccountSelection}
      → (select_account s policy skew excluded at).0 ≡ ok selection
      → (r : AccountRecord) × (lookup selection.account_id
            (refresh_expired_blocks s at.refreshed).records
          ≡ some r)
        × (is_candidate excluded at.tested r ≡ true)
        × (selection.account_id ≡ r.id)
        × ((select_account s policy skew excluded at).1.records
            ≡ (update
                (refresh_expired_blocks s at.refreshed)
                selection.account_id
                (lease at skew)).records)
        × (selection.needs_refresh ≡ token_needs_refresh r skew at.checked)
  unfolding select_account select_candidate
  select_account_sound {selection} e =
      let cs = build_route_candidates unblocked excluded at.tested in
      elim (List-cases cs) [
        | inl empty ↦
            let nobody =
              lease_chosen-none
                (record unblocked {
                  round_robin_cursor = (select_candidate policy cs unblocked.round_robin_cursor).1;
                })
                (select_candidate policy cs unblocked.round_robin_cursor).0 at skew
                (ap (λ xs. (select_candidate policy xs unblocked.round_robin_cursor).0) empty) in
            absurd (cc)
        | inr some_candidate ↦
            let (c, member, chosen) =
              select_candidate-In policy cs unblocked.round_robin_cursor some_candidate in
            let (r, found, passes, named) =
              candidate_record unblocked excluded at.tested c
                (refresh_expired_blocks-IsValid s at.refreshed v) member in
            let shape =
              lease_chosen_found
                (record unblocked {
                  round_robin_cursor = (select_candidate policy cs unblocked.round_robin_cursor).1;
                })
                (select_candidate policy cs unblocked.round_robin_cursor).0 at skew c.account_id r
                chosen found in
            let answer = ap (λ x. x.0) shape in
            let store = ap (λ x. x.1.records) shape in
            let same : selection.account_id ≡ c.account_id = ground (arith, answer) in
            (
              r,
              subst (λ id. lookup id unblocked.records ≡ some r) (sym same) found,
              passes,
              same ∙ named,
              subst
                  (λ id.
                    (select_account s policy skew excluded at).1.records
                    ≡ (update unblocked id (lease at skew)).records)
                  (sym same) store,
              ground (arith, answer),
            )
      ]

  -- If some account of a valid store is eligible and not excluded, a selection succeeds.
  pub select_account_complete :
      (r : AccountRecord)
      → In r (values (refresh_expired_blocks s at.refreshed).records)
      → is_candidate excluded at.tested r ≡ true
      → (selection : AccountSelection) × ((select_account s policy skew excluded at).0
          ≡ ok selection)
  unfolding select_account
  select_account_complete r listed passes =
      let cs = build_route_candidates unblocked excluded at.tested in
      let (c, member, chosen) =
        select_candidate-In policy cs unblocked.round_robin_cursor
          (record_candidate unblocked excluded at.tested r listed passes) in
      let (r', found, _, _) =
        candidate_record unblocked excluded at.tested c
          (refresh_expired_blocks-IsValid s at.refreshed v) member in
      (
        _,
        ap (λ x. x.0)
            (lease_chosen_found
              (record unblocked {
                round_robin_cursor = (select_candidate policy cs unblocked.round_robin_cursor).1;
              })
              (select_candidate policy cs unblocked.round_robin_cursor).0 at skew c.account_id r'
              chosen found),
      )
