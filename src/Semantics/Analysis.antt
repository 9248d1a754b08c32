-- ===== src/Semantics/Analysis.antt =====
-- src/error_semantics.rs and src/classifier.rs: the class of an error, and the time to wait.
pub mod Classes
use codaze.Prelude.{
  ℕ, String, Bool, true, false, ◌&&◌, ◌||◌, Option, none, some, if◌then◌else◌, or_else, unwrap_or,
  and_then, nat_eq, leb, ltb, ◌==◌,
}
use codaze.Prelude.Text.{to_ascii_lowercase, contains_text}
use codaze.Prelude.Time.{DateTime, Duration}
use codaze.Classifier.{FailureClass}
use codaze.Json.{ℤ}
use codaze.Semantics.Payload.{
  StructuredErrorPayload, HeaderMap, Parsers, parse_retry_after_header,
  parse_resets_retry_after_payload, parse_retry_after_message, parse_structured_error_body,
}

pub record UpstreamErrorSemantics : Type 0 where
  pub failure : FailureClass
  pub retry_after : Option Duration
  pub payload : StructuredErrorPayload

pub record AnalyzeErrorContext : Type 0 where
  pub status : ℕ
  pub headers : Option HeaderMap
  pub body : Option String
  pub explicit_code : Option String
  pub explicit_message : Option String
  pub explicit_error_type : Option String
  pub explicit_plan_type : Option String
  pub explicit_resets_at : Option ℤ
  pub explicit_resets_in_seconds : Option ℤ
  pub explicit_retry_after : Option Duration
  pub unauthorized_failure : FailureClass
  pub allow_message_retry_after : Bool

-- `StatusCode::UNAUTHORIZED`, `FORBIDDEN`, `TOO_MANY_REQUESTS`
abbrev pub unauthorized : ℕ
unauthorized = 401

abbrev pub forbidden : ℕ
forbidden = 403

abbrev pub too_many_requests : ℕ
too_many_requests = 429

-- The pattern `Some("text")`.
abbrev pub is_text : Option String → String → Bool
is_text none t = false
is_text (some s) t = s == t

unfoldable pub classify_structured_error : Option String → Option String → Option FailureClass
classify_structured_error code error_type =
    if is_text error_type "usage_limit_reached"
    then some FailureClass.quota_exhausted
    else if is_text error_type "usage_not_included"
    then some FailureClass.request_rejected
    else if is_text code "rate_limit_exceeded"
    then some FailureClass.rate_limited
    else if is_text code "insufficient_quota"
    then some FailureClass.quota_exhausted
    else if is_text code "websocket_connection_limit_reached"
    then some FailureClass.temporary_failure
    else if is_text code "server_is_overloaded" || is_text code "slow_down"
    then some FailureClass.temporary_failure
    else if is_text code "invalid_prompt" || is_text code "context_length_exceeded"
    then some FailureClass.request_rejected
    else none

unfoldable pub classify_http_from_status_and_text : ℕ → Option String → FailureClass
classify_http_from_status_and_text status text =
    let body = to_ascii_lowercase (unwrap_or text "") in
    if nat_eq status forbidden
      && (contains_text body "unusual activity"
          || contains_text body "arkose"
          || contains_text body "turnstile")
    then FailureClass.risk_controlled
    else if nat_eq status too_many_requests || contains_text body "rate limit"
    then FailureClass.rate_limited
    else if contains_text body "quota"
        || contains_text body "credits"
        || contains_text body "usage cap"
        || contains_text body "limit reached"
    then FailureClass.quota_exhausted
    else if nat_eq status forbidden
    then FailureClass.temporary_failure
    else if leb 500 status && ltb status 600
    then FailureClass.temporary_failure
    else FailureClass.request_rejected

unfoldable pub classify_error :
    ℕ → Option String → Option String → Option String → FailureClass → FailureClass
classify_error status code error_type fallback_text unauthorized_failure =
    if nat_eq status unauthorized
    then unauthorized_failure
    else unwrap_or (classify_structured_error code error_type)
        (classify_http_from_status_and_text status fallback_text)

unfoldable pub refresh_body_indicates_invalid_token : String → Bool
refresh_body_indicates_invalid_token body =
    let lowered = to_ascii_lowercase body in
    contains_text lowered "refresh_token_expired"
    || contains_text lowered "invalid refresh token"
    || contains_text lowered "could not validate your refresh token"
    || contains_text lowered "\"invalid_grant\""

-- The context of a plain response.
abbrev pub response_context :
    ℕ → Option HeaderMap → Option String → FailureClass → AnalyzeErrorContext
response_context status headers body unauthorized_failure = record {
  status = status;
  headers = headers;
  body = body;
  explicit_code = none;
  explicit_message = none;
  explicit_error_type = none;
  explicit_plan_type = none;
  explicit_resets_at = none;
  explicit_resets_in_seconds = none;
  explicit_retry_after = none;
  unauthorized_failure = unauthorized_failure;
  allow_message_retry_after = true;
}

-- The explicit parts of a context take the place of those of its body.
abbrev pub override : AnalyzeErrorContext → StructuredErrorPayload → StructuredErrorPayload
override c p = record {
  code = or_else c.explicit_code p.code;
  message = or_else c.explicit_message p.message;
  error_type = or_else c.explicit_error_type p.error_type;
  plan_type = or_else c.explicit_plan_type p.plan_type;
  resets_at = or_else c.explicit_resets_at p.resets_at;
  resets_in_seconds = or_else c.explicit_resets_in_seconds p.resets_in_seconds;
}

abbrev pub is_request_rejected : FailureClass → Bool
is_request_rejected FailureClass.request_rejected = true
is_request_rejected _ = false

abbrev pub indicates_invalid_token : Option String → Bool
indicates_invalid_token none = false
indicates_invalid_token (some body) = refresh_body_indicates_invalid_token body

module _ (p : Parsers) where
  unfoldable pub analyze_error : AnalyzeErrorContext → DateTime → UpstreamErrorSemantics
  analyze_error c now =
      let payload = override c (parse_structured_error_body p c.body) in
      record {
        failure =
            classify_error c.status payload.code payload.error_type (or_else c.body payload.message)
              c.unauthorized_failure;
        retry_after = or_else c.explicit_retry_after (
            or_else (parse_retry_after_header p c.headers now) (
              or_else (parse_resets_retry_after_payload p payload now) (
                if c.allow_message_retry_after
                then and_then (or_else payload.message c.body) (parse_retry_after_message p)
                else none)));
        payload = payload;
      }

  unfoldable pub analyze_request_http :
      ℕ → Option HeaderMap → Option String → DateTime → UpstreamErrorSemantics
  analyze_request_http status headers body now =
      analyze_error (response_context status headers body FailureClass.access_token_rejected) now

  unfoldable pub analyze_refresh_http :
      ℕ → Option HeaderMap → Option String → DateTime → UpstreamErrorSemantics
  analyze_refresh_http status headers body now =
      let semantics =
        analyze_error (response_context status headers body FailureClass.auth_invalid) now in
      if is_request_rejected semantics.failure && indicates_invalid_token body
      then record semantics { failure = FailureClass.auth_invalid }
      else semantics

-- The errors of the crate codex_client, as the matches of the program tell them apart. The text of an
-- error that is no response is its `Display`.
pub data TransportError : Type 0 where
  timeout retry_limit : TransportError
  network build : String → TransportError
  http : ℕ → Option HeaderMap → Option String → TransportError

module _ (p : Parsers) where
  unfoldable pub classify_request_http : ℕ → Option String → DateTime → FailureClass
  classify_request_http status body now = (analyze_request_http p status none body now).failure

  unfoldable pub classify_request_error : TransportError → DateTime → FailureClass
  classify_request_error timeout now = FailureClass.temporary_failure
  classify_request_error (network e) now = FailureClass.temporary_failure
  classify_request_error retry_limit now = FailureClass.temporary_failure
  classify_request_error (build e) now = FailureClass.internal_failure
  classify_request_error (http status headers body) now = classify_request_http status body now
