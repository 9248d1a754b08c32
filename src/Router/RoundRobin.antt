-- ===== src/Router/RoundRobin.antt =====
-- The turns of the round robin of src/router.rs over a list of candidates that stays the same.
use mathlib.Core.Option
use codaze.Prelude.{
  ℕ, zero, suc, ◌+◌, ◌%◌, ◌≤◌, min, String, Option, List, ◌∷◌, ◌≡◌, refl, arith, length, get_elem?,
}
use mathlib.Core.Path.{sym}
use codaze.Config.{round_robin}
use codaze.Router.{RouteCandidate, usize_max, select_candidate}

-- The choice that follows `n` others.
unfoldable pub choice_after : ℕ → List RouteCandidate → ℕ → Option String
choice_after zero cs cursor = (select_candidate round_robin cs cursor).0
choice_after (suc n) cs cursor = choice_after n cs (select_candidate round_robin cs cursor).1

-- Below the largest cursor, the choice that follows `n` others is the candidate `n` places after the
-- one under the cursor, round the list: the candidates take turns.
pub choice_after-eq :
    (n : ℕ) (c : RouteCandidate) (cs : List RouteCandidate) (cursor : ℕ)
    → cursor + n ≤ usize_max
    → choice_after n (c ∷ cs) cursor
      ≡ Option.map (λ r. r.account_id) (get_elem? (c ∷ cs) ((cursor + n) % length (c ∷ cs)))
unfolding choice_after select_candidate
choice_after-eq zero c cs cursor h = let same : cursor + 0 ≡ cursor = omega arith in rw same refl
choice_after-eq (suc n) c cs cursor h =
    let next : min usize_max (cursor + 1) ≡ cursor + 1 = omega arith in
    let sum : cursor + 1 + n ≡ cursor + suc n = omega arith in
    let rest = choice_after-eq n c cs (cursor + 1) (omega arith) in rw (next, sym sum) rest
