-- ===== src/GatewayErrors/Laws.antt =====
-- What an answer to a failed request tells the client, and what not.
use codaze.Prelude.{
  ℕ, String, Bool, true, false, ◌&&◌, not, Option, none, some, [], ◌≡◌, refl, arith, contains,
  if-both, nat_eq, Bool-cases, Option-cases, inl, inr, and_then, unwrap_or,
}
use codaze.Prelude.Time.{DateTime}
use codaze.Classifier.{FailureClass}
use codaze.Json.{Value, as_object, as_str, get, get_field}
use codaze.Semantics.Payload.{Parsers, HeaderMap}
use codaze.Semantics.Analysis.{
  TransportError, timeout, retry_limit, network, build, http, classify_request_http,
  classify_request_error,
}
use codaze.Semantics.Analysis.{is_request_rejected}
use codaze.Failover.Step.{FailoverFailure, refresh, transport, pool_blocked, caller_json, internal}
use codaze.Http.{HttpCrate, shape_openai_http_headers}
use codaze.Models.{ResponseShape, codex, open_ai}
use codaze.Failure.{
  is_unavailable, SyntheticResponseFailedPayload, Texts, downstream_failure_kind,
  downstream_failure_kind_from_status, downstream_failure_kind_for_http, payload_of,
  gateway_unavailable_payload, fallback_error_code_for_http,
}
use codaze.GatewayErrors.{
  FailureRenderMode, unary_json, responses_pre_stream, Response, json_body, openai_error_types,
  default_openai_error_type, normalize_openai_error_type, openai_error, openai_error_body,
  openai_error_response, openai_json_error_with_headers, openai_json_error, failover_failure_kind,
  sanitize_passthrough_openai_error_body, openai_error_response_from_json, text_or_reason,
  openai_error_response_from_upstream_body, openai_transport_error_response_ref, set_content_type,
  openai_pool_blocked_response, render_gateway_unavailable_response, render_caller_failure,
  render_unary_failover_failure, render_codex_pre_stream_failure, render_failover_failure,
  is_passthrough_openai_error_body, openai_error_payload_from_upstream_json,
  public_internal_error_message, forwarded, service_unavailable,
}

-- One of the five types of the public API.
data IsErrorType : String → Type 0 where
  authentication : IsErrorType "authentication_error"
  permission : IsErrorType "permission_error"
  rate_limit : IsErrorType "rate_limit_error"
  server : IsErrorType "server_error"
  invalid_request : IsErrorType "invalid_request_error"

IsErrorType-In : (t : String) → IsErrorType t → contains openai_error_types t ≡ true
IsErrorType-In _ authentication = refl
IsErrorType-In _ permission = refl
IsErrorType-In _ rate_limit = refl
IsErrorType-In _ server = refl
IsErrorType-In _ invalid_request = refl

default_openai_error_type-In :
    (status : ℕ) (code : String)
    → contains openai_error_types (default_openai_error_type status code) ≡ true
unfolding default_openai_error_type
default_openai_error_type-In status code =
    let either = if-both IsErrorType in
    IsErrorType-In (default_openai_error_type status code) (
      either _ _ _ authentication
        (either _ _ _ permission (either _ _ _ rate_limit (either _ _ _ server invalid_request))))

normalize_openai_error_type-In :
    (error_type : Option String) (status : ℕ) (code : String)
    → contains openai_error_types (normalize_openai_error_type error_type status code) ≡ true
unfolding normalize_openai_error_type
normalize_openai_error_type-In none status code = default_openai_error_type-In status code
normalize_openai_error_type-In (some error_type) status code =
    let default = default_openai_error_type-In status code in
    elim (Bool-cases (contains openai_error_types error_type)) [
      | inl e ↦ rw e e
      | inr e ↦ rw e default
    ]

-- An error of the public API: texts for the message and the code, and one of the five types.
abbrev pub IsOpenAiError : Value → Type 0
IsOpenAiError v =
    (message : String) × (error_type : String) × (param : Value) × (code : String) × (v
      ≡ openai_error message error_type param code)
    × (contains openai_error_types error_type ≡ true)

abbrev pub AnswersOpenAiError : Response → Type 0
AnswersOpenAiError r = (v : Value) × (r.body ≡ json_body v) × IsOpenAiError v

module _ (http_crate : HttpCrate) (p : Parsers) (texts : Texts) (now : DateTime) where
  openai_error_response-AnswersOpenAiError :
      (status : ℕ) (headers : HeaderMap) (payload : SyntheticResponseFailedPayload)
      → AnswersOpenAiError (openai_error_response http_crate p texts now status headers payload)
  unfolding openai_error_response openai_error_body
  openai_error_response-AnswersOpenAiError status headers payload =
      (_, refl, (_, _, _, _, refl, normalize_openai_error_type-In payload.error_type status _))

  passthrough-IsOpenAiError :
      (status : ℕ) (json : Value) (body : Option String)
      → IsOpenAiError
          (sanitize_passthrough_openai_error_body http_crate p texts now status json body)
  unfolding sanitize_passthrough_openai_error_body openai_error_body
  passthrough-IsOpenAiError status json body =
      elim (Option-cases (and_then (get json "error") as_object)) [
        | inl e ↦
            let payload =
              openai_error_payload_from_upstream_json http_crate p texts now status body json in
            let code =
              unwrap_or payload.code (fallback_error_code_for_http p texts status none now) in
            rw (e, sanitize_passthrough_openai_error_body, openai_error_body)
              (_, _, _, _, refl, normalize_openai_error_type-In payload.error_type status code)
        | inr (error, e) ↦
            let code =
              unwrap_or (and_then (get_field "code" error) as_str)
                (fallback_error_code_for_http p texts status body now) in
            let error_type = and_then (get_field "type" error) as_str in
            rw (e, sanitize_passthrough_openai_error_body)
              (_, _, _, _, refl, normalize_openai_error_type-In error_type status code)
      ]

  openai_error_response_from_json-AnswersOpenAiError :
      (status : ℕ) (headers : HeaderMap) (body : Option String) (json : Value)
      → AnswersOpenAiError
          (openai_error_response_from_json http_crate p texts now status headers body json)
  unfolding openai_error_response_from_json sanitize_passthrough_openai_error_body openai_error_body
  openai_error_response_from_json-AnswersOpenAiError status headers body json =
      let typed = set_content_type http_crate p texts now "application/json" headers in
      if-both AnswersOpenAiError (is_passthrough_openai_error_body json) _ _
        (_, refl, passthrough-IsOpenAiError status json body)
        (openai_error_response-AnswersOpenAiError status typed
          (openai_error_payload_from_upstream_json http_crate p texts now status body json))

  openai_error_response_from_upstream_body-AnswersOpenAiError :
      (status : ℕ) (headers : HeaderMap) (body : Option String)
      → AnswersOpenAiError
          (openai_error_response_from_upstream_body http_crate p texts now status headers body)
  unfolding openai_error_response_from_upstream_body openai_json_error_with_headers
  openai_error_response_from_upstream_body-AnswersOpenAiError status headers body =
      elim (Option-cases (and_then body p.json)) [
        | inl e ↦
            rw (e, openai_error_response_from_upstream_body, openai_json_error_with_headers)
              (openai_error_response-AnswersOpenAiError status (shape_openai_http_headers headers)
                (payload_of none (some (text_or_reason http_crate p texts now status body))))
        | inr (json, e) ↦
            rw (e, openai_error_response_from_upstream_body)
              (openai_error_response_from_json-AnswersOpenAiError status
                (shape_openai_http_headers headers) body json)
      ]

  openai_json_error-AnswersOpenAiError :
      (status : ℕ) (message : String)
      → AnswersOpenAiError (openai_json_error http_crate p texts now status message)
  unfolding openai_json_error openai_json_error_with_headers
  openai_json_error-AnswersOpenAiError status message =
      openai_error_response-AnswersOpenAiError status [] (payload_of none (some message))

  abbrev reason : String
  reason = public_internal_error_message http_crate p texts now 502

  openai_transport_error_response_ref-AnswersOpenAiError :
      (error : TransportError)
      → AnswersOpenAiError (openai_transport_error_response_ref http_crate p texts now error)
  unfolding openai_transport_error_response_ref openai_json_error openai_json_error_with_headers
  openai_transport_error_response_ref-AnswersOpenAiError (http status headers body) =
      openai_error_response_from_upstream_body-AnswersOpenAiError status
        (forwarded http_crate p texts now headers) body
  openai_transport_error_response_ref-AnswersOpenAiError timeout =
      openai_json_error-AnswersOpenAiError 502 reason
  openai_transport_error_response_ref-AnswersOpenAiError (network e) =
      openai_json_error-AnswersOpenAiError 502 reason
  openai_transport_error_response_ref-AnswersOpenAiError (build e) =
      openai_json_error-AnswersOpenAiError 502 reason
  openai_transport_error_response_ref-AnswersOpenAiError retry_limit =
      openai_json_error-AnswersOpenAiError 502 reason

  unavailable-AnswersOpenAiError : AnswersOpenAiError (
      openai_error_response http_crate p texts now service_unavailable []
        gateway_unavailable_payload)
  unavailable-AnswersOpenAiError =
      openai_error_response-AnswersOpenAiError service_unavailable [] gateway_unavailable_payload

  render_caller_failure-AnswersOpenAiError :
      (error : FailoverFailure)
      → AnswersOpenAiError (render_caller_failure http_crate p texts now error open_ai)
  unfolding render_caller_failure openai_pool_blocked_response openai_json_error
      openai_json_error_with_headers
  render_caller_failure-AnswersOpenAiError (refresh error) =
      openai_error_response_from_upstream_body-AnswersOpenAiError error.status [] (some error.body)
  render_caller_failure-AnswersOpenAiError (transport error) =
      openai_transport_error_response_ref-AnswersOpenAiError error
  render_caller_failure-AnswersOpenAiError (pool_blocked summary) = unavailable-AnswersOpenAiError
  render_caller_failure-AnswersOpenAiError (caller_json status message) =
      openai_json_error-AnswersOpenAiError status message
  render_caller_failure-AnswersOpenAiError (internal status detail) =
      openai_json_error-AnswersOpenAiError status
        (public_internal_error_message http_crate p texts now status)

  -- Whatever fails, before a stream or without one, a client of the public API gets an error of that
  -- API as JSON: texts for the message and the code, and one of the five types.
  pub render_failover_failure-AnswersOpenAiError :
      (error : FailoverFailure) (mode : FailureRenderMode)
      → AnswersOpenAiError (render_failover_failure http_crate p texts now error open_ai mode)
  unfolding render_failover_failure render_unary_failover_failure
      render_gateway_unavailable_response
  render_failover_failure-AnswersOpenAiError error unary_json =
      if-both AnswersOpenAiError _ _ _ unavailable-AnswersOpenAiError
        (render_caller_failure-AnswersOpenAiError error)
  render_failover_failure-AnswersOpenAiError error responses_pre_stream =
      if-both AnswersOpenAiError _ _ _ unavailable-AnswersOpenAiError
        (render_caller_failure-AnswersOpenAiError error)

  -- At one time, any two failures that are the gateway's to answer for give the same answer: nothing
  -- in it tells which account, error or body of the upstream was behind it.
  pub render_failover_failure_hides :
      (error other : FailoverFailure) (shape : ResponseShape) (mode : FailureRenderMode)
      → is_unavailable (failover_failure_kind http_crate p texts now error) ≡ true
      → is_unavailable (failover_failure_kind http_crate p texts now other) ≡ true
      → render_failover_failure http_crate p texts now error shape mode
        ≡ render_failover_failure http_crate p texts now other shape mode
  unfolding render_failover_failure render_unary_failover_failure render_codex_pre_stream_failure
  render_failover_failure_hides error other shape unary_json e f = rw (e, f) refl
  render_failover_failure_hides error other codex responses_pre_stream e f = rw (e, f) refl
  render_failover_failure_hides error other open_ai responses_pre_stream e f = rw (e, f) refl

  -- The failures that are the caller's: its own errors, the errors of the gateway's code, and the
  -- answers of the upstream that reject the request with a status other than 403.
  abbrev pub is_caller_cause : FailoverFailure → Bool
  is_caller_cause (caller_json status message) = true
  is_caller_cause (internal status detail) = true
  is_caller_cause (transport (http status headers body)) =
      not (nat_eq status 403) && is_request_rejected (classify_request_http p status body now)
  is_caller_cause error = false

  kind_cases :
      (class : FailureClass)
      → is_unavailable (downstream_failure_kind class) ≡ not (is_request_rejected class)
  unfolding downstream_failure_kind
  kind_cases class = ground arith

  from_status_cases :
      (status : ℕ) (class : FailureClass)
      → is_unavailable (downstream_failure_kind_from_status status class)
        ≡ not (not (nat_eq status 403) && is_request_rejected class)
  unfolding downstream_failure_kind_from_status downstream_failure_kind
  from_status_cases status class = elim (Bool-cases (nat_eq status 403)) [
    | inl e ↦ rw (e, downstream_failure_kind_from_status) refl
    | inr e ↦ rw (e, downstream_failure_kind_from_status) (kind_cases class)
  ]

  -- Every failure is either the gateway's to answer for, or one of these.
  pub failover_failure_kind_cases :
      (error : FailoverFailure)
      → is_unavailable (failover_failure_kind http_crate p texts now error)
        ≡ not (is_caller_cause error)
  unfolding failover_failure_kind downstream_failure_kind_for_http downstream_failure_kind
      classify_request_error
  failover_failure_kind_cases (refresh error) = refl
  failover_failure_kind_cases (transport (http status headers body)) =
      from_status_cases status (classify_request_http p status body now)
  failover_failure_kind_cases (transport timeout) = refl
  failover_failure_kind_cases (transport (network e)) = refl
  failover_failure_kind_cases (transport (build e)) = refl
  failover_failure_kind_cases (transport retry_limit) = refl
  failover_failure_kind_cases (pool_blocked summary) = refl
  failover_failure_kind_cases (caller_json status message) = refl
  failover_failure_kind_cases (internal status detail) = refl
