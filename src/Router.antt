-- ===== src/Router.antt =====
-- src/router.rs: the choice of an account among the candidates.
pub mod Laws
pub mod RoundRobin
use codaze.Config.{RoutingPolicy, round_robin, least_in_flight, fill_first}
use codaze.Prelude.{
  ℕ, ◌+◌, ◌%◌, String, Option, none, some, List, [], ◌∷◌, Ordering, length, get_elem?, min,
}
use codaze.Prelude.Time.{DateTime}
use codaze.Prelude.Order.{then_with, compare_option, min_by}
use Prim.Native.Nat.{compare as compare_nat, ◌-◌, ◌^◌}
use Prim.Native.String.{compare}
use mathlib.Core.Option

pub record RouteCandidate : Type 0 where
  pub account_id : String
  pub in_flight_requests : ℕ
  pub last_selected_at : Option DateTime

-- `usize::MAX` on a 64-bit machine.
abbrev pub usize_max : ℕ
usize_max = 2 ^ 64 - 1

abbrev pub by_load : RouteCandidate → RouteCandidate → Ordering
by_load left right = then_with (compare_nat left.in_flight_requests right.in_flight_requests) (
    then_with (compare_option compare_nat left.last_selected_at right.last_selected_at)
      (compare left.account_id right.account_id))

abbrev pub by_id : RouteCandidate → RouteCandidate → Ordering
by_id left right = compare left.account_id right.account_id

abbrev pub pick : RoutingPolicy → List RouteCandidate → ℕ → Option RouteCandidate × ℕ
pick round_robin candidates cursor =
    (get_elem? candidates (cursor % length candidates), min usize_max (cursor + 1))
pick least_in_flight candidates cursor = (min_by by_load candidates, cursor)
pick fill_first candidates cursor = (min_by by_id candidates, cursor)

-- The answer, and the cursor afterwards.
unfoldable pub select_candidate : RoutingPolicy → List RouteCandidate → ℕ → Option String × ℕ
select_candidate policy [] cursor = (none, cursor)
select_candidate policy (c ∷ cs) cursor =
    let (chosen, cursor') = pick policy (c ∷ cs) cursor in
    (Option.map (λ r. r.account_id) chosen, cursor')
