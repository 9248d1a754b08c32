-- ===== src/Tests/Upstream.antt =====
-- The answers of the upstream and the loop over the accounts: the theorems, applied.
use codaze.Prelude.{
  ℕ, ◌+◌, String, true, Option, none, some, [], ◌∷◌, ◌≡◌, ◌≢◌, ◌↔◌, ◌⊎◌, refl, arith, inl, inr,
}
use codaze.Prelude.Result.{Result, err}
use codaze.Prelude.Time.{seconds}
use codaze.Config.{least_in_flight}
use codaze.Classifier.{FailureClass}
use codaze.Semantics.Analysis.{
  http, analyze_request_http, analyze_refresh_http, classify_request_error, indicates_invalid_token,
  unauthorized,
}
use codaze.Semantics.Analysis.Classes.{
  is_token_class, analyze_request_http-token, analyze_refresh_http-condemns,
  classify_request_error-eq,
}
use codaze.Semantics.Payload.{HeaderMap}
use codaze.Failover.Step.{
  release_immediately, Env, LoopState, RoutedExecution, FailoverFailure, extract_retry_after,
}
use codaze.Failover.Loop.{execute_with_failover}
use codaze.Failover.Measure.{missing}
use codaze.Failover.Terminates.{execute_with_failover-terminates}
use codaze.Tests.Data.{clock, noon, at_noon, pool, no_parsers}

analyze_request_http-token_example :
    let f = (analyze_request_http no_parsers 429 none (some "slow down") noon).failure in
    ((is_token_class f ≡ true) ↔ (429 ≡ unauthorized)) × (f ≢ FailureClass.auth_invalid)
analyze_request_http-token_example =
    analyze_request_http-token no_parsers none (some "slow down") noon 429

abbrev refused : Option String
refused = some "{\"error\": \"invalid_grant\"}"

abbrev wait : Option HeaderMap
wait = some (("retry-after", some "30") ∷ [])

analyze_refresh_http-condemns_example :
    let body = refused in
    let f = (analyze_refresh_http no_parsers 400 none body noon).failure in
    ((f ≡ FailureClass.auth_invalid) ↔ (
      (400 ≡ unauthorized)
      ⊎ (((analyze_request_http no_parsers 400 none body noon).failure
            ≡ FailureClass.request_rejected)
          × (indicates_invalid_token body ≡ true))))
    × (f ≢ FailureClass.access_token_rejected)
analyze_refresh_http-condemns_example =
    analyze_refresh_http-condemns no_parsers none refused noon 400

classify_request_error-eq_example :
    let headers = wait in
    (classify_request_error no_parsers (http 429 headers none) noon
      ≡ (analyze_request_http no_parsers 429 headers none noon).failure)
    × (extract_retry_after no_parsers (http 429 headers none) noon
        ≡ (analyze_request_http no_parsers 429 headers none noon).retry_after)
classify_request_error-eq_example = classify_request_error-eq no_parsers wait none noon 429

-- An upstream that rejects every token, at every hour noon.
abbrev unlucky : Env ℕ String
unlucky = record {
  chrono = clock;
  parsers = no_parsers;
  readings = λ w. at_noon;
  now = λ w. noon;
  others = λ w s. s;
  disk = λ w. record { run = λ op. none; meanwhile = λ s. s };
  refresh = λ w token. err (record {
    status = 503;
    body = "";
    class = FailureClass.temporary_failure;
    retry_after = none;
  });
  execute = λ w account. err (http 401 none none);
  details = λ e f. "failed";
  refresh_details = λ e. "failed";
  next = λ w. w + 1;
}

abbrev beginning : LoopState ℕ
beginning = record { world = 0; store = pool; tried = []; forced = []; summary = none }

execute_with_failover-terminates_example :
    (answer : Result FailoverFailure (RoutedExecution String)) × (l : LoopState ℕ)
    × (execute_with_failover unlucky least_in_flight (seconds 60) release_immediately 5 beginning
        ≡ some (answer, l))
unfolding missing
execute_with_failover-terminates_example =
    execute_with_failover-terminates unlucky ("alice" ∷ "bob" ∷ []) (λ w s h. h) (λ w s h. h)
      least_in_flight (seconds 60) release_immediately 5 beginning (inl refl, (inr (inl refl), tt))
      (omega arith)
