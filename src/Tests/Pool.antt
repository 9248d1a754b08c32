-- ===== src/Tests/Pool.antt =====
-- The pool of accounts: the theorems on blocks, on the choice of an account and on the store, applied.
use Prim.Native.Nat.{max}
use mathlib.Core.Option
use codaze.Prelude.{
  ◌+◌, ◌%◌, length, get_elem?, true, false, none, some, List, [], ◌∷◌, ◌≡◌, refl, arith, inl, All,
  In,
}
use codaze.Prelude.Assoc.{lookup}
use codaze.Prelude.Result.{ok}
use codaze.Prelude.Time.{seconds}
use codaze.Config.{round_robin, least_in_flight, fill_first}
use codaze.Classifier.{FailureClass}
use codaze.Router.{RouteCandidate, select_candidate}
use codaze.Router.Laws.{GoesFirst, select_candidate-In, least_in_flight-least}
use codaze.Router.RoundRobin.{choice_after, choice_after-eq}
use codaze.Accounts.Types.{
  BlockedReason, BlockedSource, AccountRecord, AccountStore, AccountSelection, new_store,
}
use codaze.Accounts.Block.{
  next_local_backoff, RetryableBlock, timed, has_active_block_at, apply_block_transition,
}
use codaze.Accounts.Block.Precedence.{
  next_local_backoff-eq, backoff_by_level, timed-later, timed-active,
}
use codaze.Accounts.Lifecycle.{update, request_failure, release_selection}
use codaze.Accounts.Refresh.{refresh_expired_blocks}
use codaze.Accounts.Selection.{
  lease, is_candidate, is_eligible, token_needs_refresh, select_account,
}
use codaze.Accounts.Selection.Laws.{select_account_sound, select_account_complete}
use codaze.Accounts.Selection.Revived.{rate_limited-eligible}
use codaze.Accounts.Sync.{DiskSyncPlan, startup, apply_disk_sync_plan}
use codaze.Accounts.Store.{IsValid, start, next, select, release, sync}
use codaze.Accounts.Store.Leaks.{NoLeak}
use codaze.Accounts.Store.Reachable.{Reach-IsValid}
use codaze.Accounts.Store.Drained.{Step-NoLeak}
use codaze.Tests.Data.{clock, noon, at_noon, alice, bob, carol, pool, pool-IsValid}

abbrev limit : RetryableBlock
limit = record {
  reason = BlockedReason.rate_limited;
  source = BlockedSource.upstream_retry_after;
  until = seconds 43_230;
}

-- bob stays blocked until a minute past noon, whatever ends half a minute before.
timed-later_example :
    (apply_block_transition bob noon (timed limit)).blocked_until
    ≡ some (max (seconds 43_260) (seconds 43_230))
timed-later_example = timed-later bob noon (seconds 43_260) limit refl (omega arith)

timed-active_example :
    has_active_block_at (apply_block_transition alice noon (timed limit)) noon ≡ true
timed-active_example = timed-active alice noon limit (omega arith)

next_local_backoff-eq_example : next_local_backoff 5 ≡ backoff_by_level 5
next_local_backoff-eq_example = next_local_backoff-eq 5

abbrev first_candidate : RouteCandidate
first_candidate = record { account_id = "bob"; in_flight_requests = 2; last_selected_at = none }

abbrev second_candidate : RouteCandidate
second_candidate = record {
  account_id = "alice";
  in_flight_requests = 1;
  last_selected_at = some noon;
}

abbrev candidates : List RouteCandidate
candidates = first_candidate ∷ second_candidate ∷ []

-- The fifth choice from the start is the first account's turn again.
choice_after-eq_example :
    choice_after 4 candidates 0
    ≡ Option.map (λ r. r.account_id) (get_elem? candidates ((0 + 4) % length candidates))
choice_after-eq_example = choice_after-eq 4 first_candidate (second_candidate ∷ []) 0 (omega arith)

select_candidate-In_example :
    (c : RouteCandidate) × In c candidates
    × ((select_candidate round_robin candidates 3).0 ≡ some c.account_id)
select_candidate-In_example = select_candidate-In round_robin candidates 3 (λ e. cc)

least_in_flight-least_example :
    (c : RouteCandidate) × (c.account_id ≡ "alice") × In c candidates × All (GoesFirst c) candidates
unfolding select_candidate
least_in_flight-least_example = least_in_flight-least candidates 0 {id = "alice"} refl

-- With a skew of a minute alice's token need not be refreshed, with one of two hours it does.
choice :
    (select_account pool least_in_flight (seconds 60) [] at_noon).0
    ≡ ok (record { account_id = "alice"; refresh_token = "refresh-alice"; needs_refresh = false })
unfolding select_account select_candidate is_eligible lookup
choice = refl

select_account_sound_example :
    (r : AccountRecord) × (lookup "alice" (refresh_expired_blocks pool noon).records ≡ some r)
    × (is_candidate [] noon r ≡ true)
    × ("alice" ≡ r.id)
    × ((select_account pool least_in_flight (seconds 60) [] at_noon).1.records
        ≡ (update (refresh_expired_blocks pool noon) "alice" (lease at_noon (seconds 60))).records)
    × (false ≡ token_needs_refresh r (seconds 60) noon)
select_account_sound_example =
    select_account_sound pool least_in_flight (seconds 60) [] at_noon pool-IsValid choice

select_account_complete_example :
    (selection : AccountSelection) × ((select_account pool fill_first (seconds 60) [] at_noon).0
      ≡ ok selection)
unfolding refresh_expired_blocks is_eligible
select_account_complete_example =
    select_account_complete pool fill_first (seconds 60) [] at_noon pool-IsValid alice (inl refl)
      refl

rate_limited-eligible_example :
    let r = request_failure clock FailureClass.rate_limited (some (seconds 30)) "429" noon carol in
    (has_active_block_at r noon ≡ true)
    × (r.blocked_reason ≡ some BlockedReason.auth_invalid)
    × (is_eligible noon r ≡ true)
rate_limited-eligible_example =
    rate_limited-eligible clock carol (some (seconds 30)) "429" noon noon BlockedReason.auth_invalid
      refl refl refl

abbrev startup_plan : DiskSyncPlan
startup_plan = record {
  mode = startup;
  writes = [];
  removals = [];
  upserts =
      record {
        id = "alice";
        path = "accounts" ∷ "alice.json" ∷ [];
        disk = record { refresh_token = "refresh-alice"; label = none; email = none };
      }
      ∷ [];
  seen_ids = "alice" ∷ [];
  failed_file_ids = [];
}

-- The start of the program, and its first request.
abbrev started : AccountStore
started = apply_disk_sync_plan (new_store ("accounts" ∷ [])) startup_plan

Reach-IsValid_example : IsValid (select_account started round_robin (seconds 60) [] at_noon).1
Reach-IsValid_example =
    Reach-IsValid clock ("accounts" ∷ [])
      (next (next (start refl) (sync startup_plan)) (select round_robin (seconds 60) [] at_noon))

Step-NoLeak_example : NoLeak (release_selection pool "alice" noon)
Step-NoLeak_example =
    Step-NoLeak clock pool (release_selection pool "alice" noon) (release "alice" noon) tt
      (refl, (refl, tt))
