-- ===== src/GatewayErrors.antt =====
-- src/gateway_errors.rs: the answer to a client whose request failed. Lines of the log are left out.
pub mod Laws
use Prim.Native.String.{◌++◌ as append}
use codaze.Prelude.{
  ℕ, String, Bool, true, false, ◌&&◌, ◌||◌, Option, none, some, List, [], ◌∷◌, if◌then◌else◌,
  or_else, unwrap_or, and_then, contains, is_some, leb, nat_eq, ◌==◌,
}
use codaze.Prelude.Text.{trim}
use codaze.Prelude.Time.{DateTime}
use codaze.Json.{
  ℤ, Value, Fields, null, float, bool, number, string, array, object, end, field, one_field, get,
  as_str, as_object, get_field,
}
use codaze.Semantics.Payload.{Parsers, HeaderMap, parse_structured_error_value}
use codaze.Semantics.Analysis.{
  TransportError, timeout, retry_limit, network, build, http, classify_request_error,
}
use codaze.Accounts.Types.{PoolBlockSummary}
use codaze.Failover.Step.{
  RefreshFailure, FailoverFailure, refresh, transport, pool_blocked, caller_json, internal,
}
use codaze.Http.{HttpCrate, remove_header, insert_header, shape_openai_http_headers}
use codaze.Models.{ResponseShape, codex, open_ai}
use codaze.Upstream.Sanitize.{sanitize_response_headers}
use codaze.Failure.{
  DownstreamFailureKind, caller_error, gateway_unavailable, is_unavailable,
  SyntheticResponseFailedPayload, Texts, payload_of, gateway_unavailable_payload,
  downstream_failure_kind, downstream_failure_kind_for_http, fallback_error_code_for_http,
  error_object, synthetic_of, synthetic_response_failed_payload_from_http_failure,
  synthetic_response_failed_payload_from_transport, render_synthetic_response_failed_event,
}

pub data FailureRenderMode : Type 0 where
  unary_json responses_pre_stream : FailureRenderMode

-- A body that axum encodes as JSON, or that is sent as it is.
pub data Body : Type 0 where
  json_body : Value → Body
  text_body : String → Body

-- An answer, with the headers that the program gives it.
pub record Response : Type 0 where
  pub status : ℕ
  pub headers : HeaderMap
  pub body : Body

abbrev pub answer : ℕ → HeaderMap → Value → Response
answer status headers v = record { status = status; headers = headers; body = json_body v }

abbrev pub service_unavailable : ℕ
service_unavailable = 503

unfoldable pub json_error : ℕ → String → Response
json_error status message =
    answer status [] (object (one_field "error" (object (one_field "message" (string message)))))

abbrev pub openai_error_types : List String
openai_error_types =
    "authentication_error" ∷ "permission_error" ∷ "rate_limit_error" ∷ "server_error"
    ∷ "invalid_request_error" ∷ []

unfoldable pub default_openai_error_type : ℕ → String → String
default_openai_error_type status code =
    if nat_eq status 401 || code == "invalid_api_key"
    then "authentication_error"
    else if nat_eq status 403 || code == "insufficient_quota" || code == "forbidden"
    then "permission_error"
    else if nat_eq status 429
    then "rate_limit_error"
    else if leb 500 status && leb status 599
    then "server_error"
    else "invalid_request_error"

unfoldable pub normalize_openai_error_type : Option String → ℕ → String → String
unfolding default_openai_error_type
normalize_openai_error_type none status code = default_openai_error_type status code
normalize_openai_error_type (some error_type) status code =
    if contains openai_error_types error_type
    then error_type
    else default_openai_error_type status code

-- The error of the public API.
abbrev pub openai_error : String → String → Value → String → Value
openai_error message error_type param code = object (
    one_field "error" (
      object (
        field "message" (string message) (
          field "type" (string error_type)
            (field "param" param (field "code" (string code) end))))))

unfoldable pub is_passthrough_openai_error_body : Value → Bool
is_passthrough_openai_error_body body = elim (and_then (get body "error") as_object) [
  | none ↦ false
  | some error ↦ elim (and_then (get_field "message" error) as_str) [
    | none ↦ false
    | some message ↦ elim (and_then (get_field "type" error) as_str) [
      | none ↦ false
      | some error_type ↦ contains openai_error_types error_type
    ]
  ]
]

unfoldable pub structured_error_response : ℕ → SyntheticResponseFailedPayload → Response
unfolding error_object
structured_error_response status payload =
    answer status [] (object (one_field "error" (error_object payload)))

module _ (http_crate : HttpCrate) (p : Parsers) (texts : Texts) (now : DateTime) where
  unfoldable pub set_content_type : String → HeaderMap → HeaderMap
  unfolding remove_header insert_header
  set_content_type value headers =
      insert_header http_crate "content-type" value (remove_header "content-type" headers)

  unfoldable pub public_internal_error_message : ℕ → String
  public_internal_error_message status =
      unwrap_or (texts.canonical_reason status) "Internal Server Error"

  unfoldable pub openai_error_body : ℕ → SyntheticResponseFailedPayload → Value
  unfolding fallback_error_code_for_http normalize_openai_error_type
  openai_error_body status payload =
      let message =
        unwrap_or payload.message
          (unwrap_or (texts.canonical_reason status) "gateway request failed") in
      let code = unwrap_or payload.code (fallback_error_code_for_http p texts status none now) in
      openai_error message (normalize_openai_error_type payload.error_type status code) null code

  unfoldable pub openai_error_response : ℕ → HeaderMap → SyntheticResponseFailedPayload → Response
  unfolding shape_openai_http_headers set_content_type openai_error_body
  openai_error_response status headers payload =
      answer status (set_content_type "application/json" (shape_openai_http_headers headers))
        (openai_error_body status payload)

  unfoldable pub openai_json_error_with_headers : ℕ → HeaderMap → String → Option String → Response
  unfolding openai_error_response
  openai_json_error_with_headers status headers message code =
      openai_error_response status headers (payload_of code (some message))

  unfoldable pub openai_json_error : ℕ → String → Response
  unfolding openai_json_error_with_headers
  openai_json_error status message = openai_json_error_with_headers status [] message none

  -- The message of an error that has none of its own.
  unfoldable pub message_of_json : Value → Option String
  message_of_json (string value) = some value
  message_of_json (object fields) = and_then (get_field "detail" fields) as_str
  message_of_json other = some (texts.encode other)

  unfoldable pub openai_error_payload_from_upstream_json :
      ℕ → Option String → Value → SyntheticResponseFailedPayload
  unfolding synthetic_of parse_structured_error_value message_of_json fallback_error_code_for_http
  openai_error_payload_from_upstream_json status body json =
      let payload =
        synthetic_of (parse_structured_error_value (unwrap_or (get json "error") json)) in
      record payload {
        code = or_else payload.code (some (fallback_error_code_for_http p texts status body now));
        message = or_else payload.message (message_of_json json);
      }

  unfoldable pub sanitize_passthrough_openai_error_body : ℕ → Value → Option String → Value
  unfolding openai_error_body openai_error_payload_from_upstream_json fallback_error_code_for_http
      normalize_openai_error_type
  sanitize_passthrough_openai_error_body status json body =
      elim (and_then (get json "error") as_object) [
        | none ↦ openai_error_body status (openai_error_payload_from_upstream_json status body json)
        | some error ↦
            let message =
              unwrap_or (and_then (get_field "message" error) as_str)
                (unwrap_or (texts.canonical_reason status) "Upstream request failed") in
            let code =
              unwrap_or (and_then (get_field "code" error) as_str)
                (fallback_error_code_for_http p texts status body now) in
            let error_type =
              normalize_openai_error_type (and_then (get_field "type" error) as_str) status code in
            openai_error message error_type (unwrap_or (get_field "param" error) null) code
      ]

  -- The answer for a body that is JSON.
  unfoldable pub openai_error_response_from_json : ℕ → HeaderMap → Option String → Value → Response
  unfolding is_passthrough_openai_error_body set_content_type sanitize_passthrough_openai_error_body
      openai_error_response openai_error_payload_from_upstream_json
  openai_error_response_from_json status headers body json =
      let typed = set_content_type "application/json" headers in
      if is_passthrough_openai_error_body json
      then answer status typed (sanitize_passthrough_openai_error_body status json body)
      else openai_error_response status typed
          (openai_error_payload_from_upstream_json status body json)

  unfoldable pub text_or_reason : ℕ → Option String → String
  unfolding trim
  text_or_reason status body =
      let reason = unwrap_or (texts.canonical_reason status) "Upstream request failed" in
      elim body [
        | none ↦ reason
        | some text ↦ let message = trim text in if message == "" then reason else message
      ]

  unfoldable pub openai_error_response_from_upstream_body : ℕ → HeaderMap → Option String → Response
  unfolding shape_openai_http_headers openai_error_response_from_json openai_json_error_with_headers
      text_or_reason
  openai_error_response_from_upstream_body status headers body =
      let shaped = shape_openai_http_headers headers in
      elim (and_then body p.json) [
        | some json ↦ openai_error_response_from_json status shaped body json
        | none ↦ openai_json_error_with_headers status shaped (text_or_reason status body) none
      ]

  unfoldable pub refresh_failure_response : RefreshFailure → Response
  unfolding json_error
  refresh_failure_response error = elim (p.json error.body) [
    | some json ↦ answer error.status [] json
    | none ↦ json_error error.status error.body
  ]

  abbrev pub forwarded : Option HeaderMap → HeaderMap
  forwarded none = []
  forwarded (some headers) = sanitize_response_headers http_crate headers

  unfoldable pub transport_error_response_ref : TransportError → Response
  unfolding json_error sanitize_response_headers
  transport_error_response_ref (http status headers body) = record {
    status = status;
    headers = forwarded headers;
    body = text_body (unwrap_or body "");
  }
  transport_error_response_ref timeout = json_error 502 (texts.display timeout)
  transport_error_response_ref (network e) = json_error 502 (texts.display (network e))
  transport_error_response_ref (build e) = json_error 502 (texts.display (build e))
  transport_error_response_ref retry_limit = json_error 502 (texts.display retry_limit)

  unfoldable pub openai_transport_error_response_ref : TransportError → Response
  unfolding sanitize_response_headers openai_error_response_from_upstream_body openai_json_error
      public_internal_error_message
  openai_transport_error_response_ref (http status headers body) =
      openai_error_response_from_upstream_body status (forwarded headers) body
  openai_transport_error_response_ref _ = openai_json_error 502 (public_internal_error_message 502)

  -- The payload and the status of a blocked pool do not depend on why it is blocked.
  unfoldable pub pool_blocked_response : PoolBlockSummary → Response
  unfolding structured_error_response
  pool_blocked_response summary =
      structured_error_response service_unavailable gateway_unavailable_payload

  unfoldable pub openai_pool_blocked_response : PoolBlockSummary → Response
  unfolding openai_error_response
  openai_pool_blocked_response summary =
      openai_error_response service_unavailable [] gateway_unavailable_payload

  unfoldable pub failover_failure_kind : FailoverFailure → DownstreamFailureKind
  unfolding downstream_failure_kind_for_http downstream_failure_kind classify_request_error
  failover_failure_kind (refresh error) = gateway_unavailable
  failover_failure_kind (transport (http status headers body)) =
      downstream_failure_kind_for_http p texts status body now
  failover_failure_kind (transport timeout) =
      downstream_failure_kind (classify_request_error p timeout now)
  failover_failure_kind (transport (network e)) =
      downstream_failure_kind (classify_request_error p (network e) now)
  failover_failure_kind (transport (build e)) =
      downstream_failure_kind (classify_request_error p (build e) now)
  failover_failure_kind (transport retry_limit) =
      downstream_failure_kind (classify_request_error p retry_limit now)
  failover_failure_kind (pool_blocked summary) = gateway_unavailable
  failover_failure_kind (caller_json status message) = caller_error
  failover_failure_kind (internal status detail) = caller_error

  unfoldable pub render_gateway_unavailable_response : ResponseShape → Response
  unfolding structured_error_response openai_error_response
  render_gateway_unavailable_response codex =
      structured_error_response service_unavailable gateway_unavailable_payload
  render_gateway_unavailable_response open_ai =
      openai_error_response service_unavailable [] gateway_unavailable_payload

  -- `render_unary_failover_failure`, for an error of the caller.
  unfoldable pub render_caller_failure : FailoverFailure → ResponseShape → Response
  unfolding refresh_failure_response transport_error_response_ref pool_blocked_response json_error
      public_internal_error_message openai_error_response_from_upstream_body
      openai_transport_error_response_ref openai_pool_blocked_response openai_json_error
  render_caller_failure (refresh error) codex = refresh_failure_response error
  render_caller_failure (transport error) codex = transport_error_response_ref error
  render_caller_failure (pool_blocked summary) codex = pool_blocked_response summary
  render_caller_failure (caller_json status message) codex = json_error status message
  render_caller_failure (internal status detail) codex =
      json_error status (public_internal_error_message status)
  render_caller_failure (refresh error) open_ai =
      openai_error_response_from_upstream_body error.status [] (some error.body)
  render_caller_failure (transport error) open_ai = openai_transport_error_response_ref error
  render_caller_failure (pool_blocked summary) open_ai = openai_pool_blocked_response summary
  render_caller_failure (caller_json status message) open_ai = openai_json_error status message
  render_caller_failure (internal status detail) open_ai =
      openai_json_error status (public_internal_error_message status)

  unfoldable pub render_unary_failover_failure : FailoverFailure → ResponseShape → Response
  unfolding failover_failure_kind render_gateway_unavailable_response render_caller_failure
  render_unary_failover_failure error shape =
      if is_unavailable (failover_failure_kind error)
      then render_gateway_unavailable_response shape
      else render_caller_failure error shape

  -- The payload of `render_codex_pre_stream_failure`, for an error of the caller.
  unfoldable pub caller_payload : FailoverFailure → SyntheticResponseFailedPayload
  unfolding synthetic_response_failed_payload_from_http_failure
      synthetic_response_failed_payload_from_transport fallback_error_code_for_http
      public_internal_error_message
  caller_payload (refresh error) =
      synthetic_response_failed_payload_from_http_failure p texts error.status (some error.body)
        error.retry_after now
  caller_payload (transport error) =
      synthetic_response_failed_payload_from_transport p texts error now
  caller_payload (pool_blocked summary) = gateway_unavailable_payload
  caller_payload (caller_json status message) =
      payload_of (some (fallback_error_code_for_http p texts status none now)) (some message)
  caller_payload (internal status detail) =
      payload_of (some (fallback_error_code_for_http p texts status none now))
        (some (public_internal_error_message status))

  unfoldable pub render_codex_pre_stream_failure : FailoverFailure → Response
  unfolding failover_failure_kind caller_payload render_synthetic_response_failed_event
      insert_header
  render_codex_pre_stream_failure error =
      let payload =
        if is_unavailable (failover_failure_kind error)
        then gateway_unavailable_payload
        else caller_payload error in
      let body =
        unwrap_or (render_synthetic_response_failed_event texts none none payload now)
          "event: response.failed\ndata: {\"type\":\"response.failed\"}\n\n" in
      record {
        status = 200;
        headers =
            insert_header http_crate "cache-control" "no-cache"
              (insert_header http_crate "content-type" "text/event-stream" []);
        body = text_body body;
      }

  unfoldable pub render_failover_failure :
      FailoverFailure → ResponseShape → FailureRenderMode → Response
  unfolding render_unary_failover_failure render_codex_pre_stream_failure
  render_failover_failure error shape unary_json = render_unary_failover_failure error shape
  render_failover_failure error codex responses_pre_stream = render_codex_pre_stream_failure error
  render_failover_failure error open_ai responses_pre_stream =
      render_unary_failover_failure error open_ai

  unfoldable pub render_status_message_error :
      ResponseShape → FailureRenderMode → ℕ → String → Response
  unfolding render_failover_failure
  render_status_message_error shape mode status message =
      render_failover_failure (caller_json status message) shape mode
