-- ===== src/Semantics/Analysis/Classes.antt =====
-- Which classes src/error_semantics.rs gives to the responses to requests and to refreshes.
use codaze.Prelude.{
  ℕ, String, Bool, true, false, ◌&&◌, ◌||◌, Option, none, some, if◌then◌else◌, or_else, unwrap_or,
  if-both, nat_eq, ◌≡◌, ◌≢◌, ◌↔◌, refl, ap, arith, inl, inr, Bool-cases, ◌⊎◌,
}
use codaze.Prelude.Time.{DateTime}
use codaze.Classifier.{FailureClass}
use codaze.Failover.Step.{extract_retry_after}
use codaze.Semantics.Payload.{HeaderMap, Parsers, parse_structured_error_body}
use codaze.Semantics.Analysis.{
  UpstreamErrorSemantics, http, unauthorized, is_text, classify_structured_error,
  classify_http_from_status_and_text, classify_error, analyze_error, analyze_request_http,
  analyze_refresh_http, classify_request_http, classify_request_error, is_request_rejected,
  indicates_invalid_token, response_context,
}

-- The classes that concern the token of an account.
abbrev pub is_token_class : FailureClass → Bool
is_token_class FailureClass.access_token_rejected = true
is_token_class FailureClass.auth_invalid = true
is_token_class _ = false

-- The classes that do not, which an error gets from its payload or its text.
data IsPlain : FailureClass → Type 0 where
  rate_limited : IsPlain FailureClass.rate_limited
  quota_exhausted : IsPlain FailureClass.quota_exhausted
  risk_controlled : IsPlain FailureClass.risk_controlled
  temporary_failure : IsPlain FailureClass.temporary_failure
  request_rejected : IsPlain FailureClass.request_rejected

data IsPlainIfAny : Option FailureClass → Type 0 where
  absent : IsPlainIfAny none
  present : {f : FailureClass} → IsPlain f → IsPlainIfAny (some f)

IsPlain-token : {f : FailureClass} → IsPlain f → is_token_class f ≡ false
IsPlain-token rate_limited = refl
IsPlain-token quota_exhausted = refl
IsPlain-token risk_controlled = refl
IsPlain-token temporary_failure = refl
IsPlain-token request_rejected = refl

unwrap_or-IsPlain :
    {o : Option FailureClass} {f : FailureClass}
    → IsPlainIfAny o
    → IsPlain f
    → IsPlain (unwrap_or o f)
unwrap_or-IsPlain absent h = h
unwrap_or-IsPlain (present k) h = k

classify_structured_error-IsPlain :
    (code error_type : Option String) → IsPlainIfAny (classify_structured_error code error_type)
unfolding classify_structured_error
classify_structured_error-IsPlain code error_type =
    let branch = if-both IsPlainIfAny in
    branch (is_text error_type "usage_limit_reached") _ _ (present quota_exhausted) (
      branch (is_text error_type "usage_not_included") _ _ (present request_rejected) (
        branch (is_text code "rate_limit_exceeded") _ _ (present rate_limited) (
          branch (is_text code "insufficient_quota") _ _ (present quota_exhausted) (
            branch (is_text code "websocket_connection_limit_reached") _ _
              (present temporary_failure)
              (branch (is_text code "server_is_overloaded" || is_text code "slow_down") _ _
                (present temporary_failure)
                (branch (is_text code "invalid_prompt" || is_text code "context_length_exceeded") _
                  _ (present request_rejected) absent))))))

classify_http_from_status_and_text-IsPlain :
    (status : ℕ) (text : Option String) → IsPlain (classify_http_from_status_and_text status text)
unfolding classify_http_from_status_and_text
classify_http_from_status_and_text-IsPlain status text =
    let branch = if-both IsPlain in
    branch _ _ _ risk_controlled (
      branch _ _ _ rate_limited (
        branch _ _ _ quota_exhausted
          (branch _ _ _ temporary_failure (branch _ _ _ temporary_failure request_rejected))))

-- An error of status 401 has the class of the context; any other has a class that is not of the token,
-- whatever the context says.
classify_error-cases :
    (status : ℕ) (code error_type text : Option String)
    → ((status ≡ unauthorized)
        × ((f : FailureClass) → classify_error status code error_type text f ≡ f))
      ⊎ ((status ≢ unauthorized)
          × ((o : FailureClass) × (is_token_class o ≡ false)
              × ((f : FailureClass) → classify_error status code error_type text f ≡ o)))
unfolding classify_error
classify_error-cases status code error_type text =
    let other =
      unwrap_or (classify_structured_error code error_type)
        (classify_http_from_status_and_text status text) in
    elim (Bool-cases (nat_eq status unauthorized)) [
      | inl e ↦ inl (ground arith, λ f. rw (e, classify_error))
      | inr e ↦
          let plain =
            unwrap_or-IsPlain (classify_structured_error-IsPlain code error_type)
              (classify_http_from_status_and_text-IsPlain status text) in
          inr
            (λ h. absurd (ground arith), (other, IsPlain-token plain, λ f. rw (e, classify_error)))
    ]

-- What the class of an error says in the two contexts.
request_class :
    (status : ℕ) (code error_type text : Option String)
    → let f = classify_error status code error_type text FailureClass.access_token_rejected in
      ((is_token_class f ≡ true) ↔ (status ≡ unauthorized)) × (f ≢ FailureClass.auth_invalid)
request_class status code error_type text =
    elim (classify_error-cases status code error_type text) [
      | inl (same, eq) ↦
          let e = eq FailureClass.access_token_rejected in
          ((λ _. same, λ _. ap is_token_class e), λ h. absurd (cc))
      | inr (differs, (o, plain, eq)) ↦
          let e = eq FailureClass.access_token_rejected in
          ((λ h. absurd (cc), λ h. absurd (differs h)), λ h. absurd (cc))
    ]

failure_if :
    (b : Bool) (s : UpstreamErrorSemantics) (f : FailureClass)
    → (if b then record s { failure = f } else s).failure ≡ (if b then f else s.failure)
failure_if true s f = refl
failure_if false s f = refl

plain_answer :
    (o : FailureClass) (b : Bool)
    → is_token_class o ≡ false
    → let answer = if is_request_rejected o && b then FailureClass.auth_invalid else o in
      ((answer ≡ FailureClass.auth_invalid) ↔ ((o ≡ FailureClass.request_rejected) × (b ≡ true)))
      × (answer ≢ FailureClass.access_token_rejected)
plain_answer FailureClass.request_rejected true plain =
    ((λ _. (refl, refl), λ _. refl), λ h. absurd (cc))
plain_answer FailureClass.request_rejected false plain =
    ((λ h. absurd (cc), λ h. absurd (cc)), λ h. absurd (cc))
plain_answer FailureClass.access_token_rejected b plain = absurd (cc)
plain_answer FailureClass.auth_invalid b plain = absurd (cc)
plain_answer FailureClass.rate_limited b plain =
    ((λ h. absurd (cc), λ h. absurd (cc)), λ h. absurd (cc))
plain_answer FailureClass.quota_exhausted b plain =
    ((λ h. absurd (cc), λ h. absurd (cc)), λ h. absurd (cc))
plain_answer FailureClass.risk_controlled b plain =
    ((λ h. absurd (cc), λ h. absurd (cc)), λ h. absurd (cc))
plain_answer FailureClass.temporary_failure b plain =
    ((λ h. absurd (cc), λ h. absurd (cc)), λ h. absurd (cc))
plain_answer FailureClass.internal_failure b plain =
    ((λ h. absurd (cc), λ h. absurd (cc)), λ h. absurd (cc))

refresh_class :
    (status : ℕ) (code error_type text : Option String) (b : Bool)
    → let f = classify_error status code error_type text FailureClass.auth_invalid in
      let g = classify_error status code error_type text FailureClass.access_token_rejected in
      let answer = if is_request_rejected f && b then FailureClass.auth_invalid else f in
      ((answer ≡ FailureClass.auth_invalid)
        ↔ ((status ≡ unauthorized) ⊎ ((g ≡ FailureClass.request_rejected) × (b ≡ true))))
      × (answer ≢ FailureClass.access_token_rejected)
refresh_class status code error_type text b =
    elim (classify_error-cases status code error_type text) [
      | inl (same, eq) ↦
          rw (eq FailureClass.auth_invalid) ((λ _. inl same, λ _. refl), λ h. absurd (cc))
      | inr (differs, (o, plain, eq)) ↦
          let ((there, back), never) = plain_answer o b plain in
          rw (eq FailureClass.auth_invalid, eq FailureClass.access_token_rejected)
            (
              (λ h. inr (there h), λ h. elim h [ inl e ↦ absurd (differs e) | inr t ↦ back t ]),
              never,
            )
    ]

module _ (p : Parsers) (headers : Option HeaderMap) (body : Option String) (now : DateTime) where
  -- The response to a request is of a class that concerns the token exactly if its status is 401, and
  -- then the token has been rejected: a response to a request never condemns its account.
  pub analyze_request_http-token :
      (status : ℕ)
      → ((is_token_class (analyze_request_http p status headers body now).failure ≡ true)
          ↔ (status ≡ unauthorized))
        × ((analyze_request_http p status headers body now).failure ≢ FailureClass.auth_invalid)
  unfolding analyze_request_http analyze_error
  analyze_request_http-token status =
      let payload = parse_structured_error_body p body in
      request_class status payload.code payload.error_type (or_else body payload.message)

  analyze_refresh_http-failure :
      (status : ℕ)
      → let semantics =
          analyze_error p (response_context status headers body FailureClass.auth_invalid) now in
        (analyze_refresh_http p status headers body now).failure ≡ (
          if is_request_rejected semantics.failure && indicates_invalid_token body
          then FailureClass.auth_invalid
          else semantics.failure)
  unfolding analyze_refresh_http
  analyze_refresh_http-failure status =
      let semantics =
        analyze_error p (response_context status headers body FailureClass.auth_invalid) now in
      failure_if (is_request_rejected semantics.failure && indicates_invalid_token body) semantics
        FailureClass.auth_invalid

  -- The response to a refresh condemns the account exactly if its status is 401, or if it is rejected
  -- as a response to a request would be and its body says that the refresh token is not valid; and it
  -- never counts as a rejected access token.
  pub analyze_refresh_http-condemns :
      (status : ℕ)
      → (((analyze_refresh_http p status headers body now).failure ≡ FailureClass.auth_invalid) ↔ (
          (status ≡ unauthorized)
          ⊎ (((analyze_request_http p status headers body now).failure
                ≡ FailureClass.request_rejected)
              × (indicates_invalid_token body ≡ true))))
        × ((analyze_refresh_http p status headers body now).failure
            ≢ FailureClass.access_token_rejected)
  unfolding analyze_request_http analyze_error
  analyze_refresh_http-condemns status =
      let payload = parse_structured_error_body p body in
      rw (analyze_refresh_http-failure status) (
        refresh_class status payload.code payload.error_type (or_else body payload.message)
          (indicates_invalid_token body))

  -- The loop reads a failed response twice: its class without the headers, and the time to wait as if
  -- the status were 502. Both are those of the one analysis of the response itself.
  pub classify_request_error-eq :
      (status : ℕ)
      → (classify_request_error p (http status headers body) now
          ≡ (analyze_request_http p status headers body now).failure)
        × (extract_retry_after p (http status headers body) now
            ≡ (analyze_request_http p status headers body now).retry_after)
  unfolding classify_request_error classify_request_http extract_retry_after analyze_request_http
      analyze_error
  classify_request_error-eq status = (refl, refl)
