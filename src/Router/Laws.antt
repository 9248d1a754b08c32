-- ===== src/Router/Laws.antt =====
-- What each routing policy of src/router.rs promises.
use Prim.Native.Nat.{compare as compare_nat}
use Prim.Native.Nat.Ordering.{lt, eq, gt}
use Prim.Native.String.{compare}
use codaze.Prelude.Order.{IsOrder, Ordering-cases, compare_option, min_from}
use codaze.Prelude.Order.Extremes.{min_by-In, min_by-least}
use codaze.Prelude.Order.Instances.{
  compare_nat-IsOrder, compare-IsOrder, compare_option-IsOrder, on-IsOrder, then_with-IsOrder,
}
use codaze.Prelude.{
  ℕ, zero, suc, inl, inr, ◌%◌, ◌<◌, ◌≡◌, refl, ◌≢◌, ◌⊎◌, ap, String, Option, none, some, List, [],
  ◌∷◌, arith, length, All, All-imp, In, get_elem?,
}
use codaze.Config.{RoutingPolicy, round_robin, least_in_flight, fill_first}
use codaze.Router.{RouteCandidate, by_load, by_id, select_candidate}

pub by_id-IsOrder : IsOrder by_id
by_id-IsOrder = on-IsOrder (λ (r : RouteCandidate). r.account_id) compare-IsOrder

pub by_load-IsOrder : IsOrder by_load
by_load-IsOrder =
    then_with-IsOrder
      (on-IsOrder (λ (r : RouteCandidate). r.in_flight_requests) compare_nat-IsOrder)
      (then_with-IsOrder
        (on-IsOrder (λ (r : RouteCandidate). r.last_selected_at)
          (compare_option-IsOrder compare_nat-IsOrder))
        by_id-IsOrder)

-- An index below the length is the index of an element.
get_elem?-In :
    {A : Type 0} (xs : List A) (i : ℕ)
    → i < length xs
    → (a : A) × (get_elem? xs i ≡ some a) × In a xs
get_elem?-In [] i h = elim h [ ]
get_elem?-In (x ∷ xs) zero h = (x, refl, inl refl)
get_elem?-In (x ∷ xs) (suc i) h =
    let (a, found, member) = get_elem?-In xs i (omega arith) in (a, found, inr member)

-- From at least one candidate every policy answers, and with the id of one of the candidates.
pub select_candidate-In :
    (policy : RoutingPolicy) (cs : List RouteCandidate) (cursor : ℕ)
    → cs ≢ []
    → (c : RouteCandidate) × In c cs × ((select_candidate policy cs cursor).0 ≡ some c.account_id)
unfolding select_candidate
select_candidate-In policy [] cursor h = absurd (h refl)
select_candidate-In round_robin (c ∷ cs) cursor h =
    let (a, found, member) = get_elem?-In (c ∷ cs) (cursor % length (c ∷ cs)) (omega arith) in
    (a, member, rw found)
select_candidate-In least_in_flight (c ∷ cs) cursor h =
    (min_from by_load c cs, min_by-In by_load (c ∷ cs) refl, refl)
select_candidate-In fill_first (c ∷ cs) cursor h =
    (min_from by_id c cs, min_by-In by_id (c ∷ cs) refl, refl)

-- No time is before every time.
abbrev pub Earlier : Option ℕ → Option ℕ → Type 0
Earlier none (some b) = Unit
Earlier (some a) (some b) = a < b
Earlier _ _ = ⊥

-- Fewer requests in flight, or as many and an earlier last selection, or the same and an id that is
-- not after the other's.
abbrev pub GoesFirst : RouteCandidate → RouteCandidate → Type 0
GoesFirst c x =
    (c.in_flight_requests < x.in_flight_requests)
    ⊎ ((c.in_flight_requests ≡ x.in_flight_requests)
        × (Earlier c.last_selected_at x.last_selected_at
            ⊎ ((c.last_selected_at ≡ x.last_selected_at)
                × (compare c.account_id x.account_id ≢ gt))))

compare_option-Earlier : (a b : Option ℕ) → compare_option compare_nat a b ≡ lt → Earlier a b
compare_option-Earlier none none h = absurd (cc)
compare_option-Earlier none (some b) h = tt
compare_option-Earlier (some a) none h = absurd (cc)
compare_option-Earlier (some a) (some b) h = ground arith

path_of_compare_option : (a b : Option ℕ) → compare_option compare_nat a b ≡ eq → a ≡ b
path_of_compare_option none none h = refl
path_of_compare_option none (some b) h = absurd (cc)
path_of_compare_option (some a) none h = absurd (cc)
path_of_compare_option (some a) (some b) h = ap some (ground arith)

by_load-GoesFirst : (c x : RouteCandidate) → by_load c x ≢ gt → GoesFirst c x
by_load-GoesFirst c x h =
    elim (Ordering-cases (compare_nat c.in_flight_requests x.in_flight_requests)) [
      | inl e ↦ inl (ground arith)
      | inr (inl e) ↦
          let k = rw e at h in
          inr (
            ground arith,
            elim (Ordering-cases
                (compare_option compare_nat c.last_selected_at x.last_selected_at)) [
                  | inl f ↦ inl (compare_option-Earlier c.last_selected_at x.last_selected_at f)
                  | inr (inl f) ↦
                      inr (
                        path_of_compare_option c.last_selected_at x.last_selected_at f,
                        (rw f at k),
                      )
                  | inr (inr f) ↦ absurd ((rw f at k) refl)
                ],
          )
      | inr (inr e) ↦ absurd ((rw e at h) refl)
    ]

-- The policy of the least load: the account chosen belongs to a candidate that goes first before
-- every candidate, by requests in flight, then by the time of its last selection, then by id.
pub least_in_flight-least :
    (cs : List RouteCandidate) (cursor : ℕ) {id : String}
    → (select_candidate least_in_flight cs cursor).0 ≡ some id
    → (c : RouteCandidate) × (c.account_id ≡ id) × In c cs × All (GoesFirst c) cs
unfolding select_candidate
least_in_flight-least [] cursor h = cc
least_in_flight-least (c ∷ cs) cursor h =
    let least = min_from by_load c cs in
    (
      least,
      ground arith,
      min_by-In by_load (c ∷ cs) refl,
      All-imp (by_load-GoesFirst least) (c ∷ cs) (min_by-least by_load-IsOrder (c ∷ cs) refl),
    )
