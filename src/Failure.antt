-- ===== src/Failure.antt =====
-- src/responses/failure.rs: whom a failure concerns, and the payloads that tell the client of it.
use Prim.Native.String.{◌++◌ as append}
use codaze.Prelude.{
  ℕ, zero, suc, ◌+◌, ◌/◌, String, Bool, true, false, ◌&&◌, Option, none, some, if◌then◌else◌,
  or_else, unwrap_or, leb, nat_eq,
}
use codaze.Prelude.Decimal.{show}
use codaze.Prelude.Time.{DateTime, Duration, seconds}
use codaze.Classifier.{FailureClass}
use codaze.Json.{ℤ, Value, Fields, null, bool, number, string, object, end, field, set_field}
use codaze.Semantics.Payload.{
  Parsers, HeaderMap, StructuredErrorPayload, parse_structured_error_body,
}
use codaze.Semantics.Analysis.{
  TransportError, timeout, retry_limit, network, build, http, analyze_request_http,
  classify_request_http,
}
use codaze.Failover.Step.{extract_retry_after}

pub data DownstreamFailureKind : Type 0 where
  caller_error gateway_unavailable : DownstreamFailureKind

pub record SyntheticResponseFailedPayload : Type 0 where
  pub code : Option String
  pub message : Option String
  pub error_type : Option String
  pub plan_type : Option String
  pub resets_at : Option ℤ
  pub resets_in_seconds : Option ℤ

-- The texts that other crates make: of a status, of an error of codex_client, of a time as `f64`
-- seconds, of a JSON value.
pub record Texts : Type 0 where
  pub canonical_reason : ℕ → Option String
  pub display : TransportError → String
  pub seconds_text : Duration → String
  pub encode : Value → String

-- A payload of which only the code and the message are set.
abbrev pub payload_of : Option String → Option String → SyntheticResponseFailedPayload
payload_of code message = record {
  code = code;
  message = message;
  error_type = none;
  plan_type = none;
  resets_at = none;
  resets_in_seconds = none;
}

abbrev pub gateway_unavailable_payload : SyntheticResponseFailedPayload
gateway_unavailable_payload =
    payload_of (some "server_is_overloaded")
      (some "No account available right now. Try again later.")

unfoldable pub downstream_failure_kind : FailureClass → DownstreamFailureKind
downstream_failure_kind FailureClass.request_rejected = caller_error
downstream_failure_kind _ = gateway_unavailable

unfoldable pub downstream_failure_kind_from_status : ℕ → FailureClass → DownstreamFailureKind
unfolding downstream_failure_kind
downstream_failure_kind_from_status status failure =
    if nat_eq status 403 then gateway_unavailable else downstream_failure_kind failure

abbrev pub is_unavailable : DownstreamFailureKind → Bool
is_unavailable caller_error = false
is_unavailable gateway_unavailable = true

unfoldable pub is_gateway_unavailable_status_failure : ℕ → FailureClass → Bool
unfolding downstream_failure_kind_from_status
is_gateway_unavailable_status_failure status failure =
    is_unavailable (downstream_failure_kind_from_status status failure)

-- `i64`: the sum wraps, and `saturating_add` stays at the greatest.
abbrev pub i64_max : ℕ
i64_max = 9223372036854775807

unfoldable pub wrapping_next : ℤ → ℤ
wrapping_next (ℤ.pos n) = if nat_eq n i64_max then ℤ.negsuc i64_max else ℤ.pos (n + 1)
wrapping_next (ℤ.negsuc zero) = ℤ.pos 0
wrapping_next (ℤ.negsuc (suc n)) = ℤ.negsuc n

unfoldable pub next_from_zero : ℤ → ℤ
next_from_zero (ℤ.pos n) = if nat_eq n i64_max then ℤ.pos n else ℤ.pos (n + 1)
next_from_zero (ℤ.negsuc n) = ℤ.pos 0

abbrev pub minus_one : ℤ
minus_one = ℤ.negsuc 0

abbrev add_text : String → Option String → Fields → Fields
add_text name none fields = fields
add_text name (some text) fields = set_field name (string text) fields

abbrev add_number : String → Option ℤ → Fields → Fields
add_number name none fields = fields
add_number name (some n) fields = set_field name (number n) fields

-- The object that both shapes of an error of Codex hold.
unfoldable pub error_object : SyntheticResponseFailedPayload → Value
unfolding set_field
error_object payload =
    let code = string (unwrap_or payload.code "internal_server_error") in
    let message = string (unwrap_or payload.message "Upstream request failed.") in
    object (
      add_number "resets_in_seconds" payload.resets_in_seconds (
        add_number "resets_at" payload.resets_at (
          add_text "plan_type" payload.plan_type (
            add_text "type" payload.error_type (field "code" code (field "message" message end))))))

unfoldable pub synthetic_response_failed_json :
    Option String → ℤ → SyntheticResponseFailedPayload → DateTime → Value
unfolding error_object show
synthetic_response_failed_json id sequence_number payload now =
    let response_id = unwrap_or id (append "resp_gateway_" (show (now / 1000))) in
    let response = field "id" (string response_id) (
      field "object" (string "response") (
        field "created_at" (number (ℤ.pos (now / seconds 1))) (
          field "status" (string "failed") (
            field "background" (bool false)
              (field "error" (error_object payload) (field "incomplete_details" null end)))))) in
    object (
      field "type" (string "response.failed")
        (field "sequence_number" (number sequence_number) (field "response" (object response) end)))

module _ (texts : Texts) where
  unfoldable pub render_synthetic_response_failed_event_with_metadata :
      Option String → ℤ → SyntheticResponseFailedPayload → DateTime → Option String
  unfolding synthetic_response_failed_json
  render_synthetic_response_failed_event_with_metadata id sequence_number payload now =
      let encoded = texts.encode (synthetic_response_failed_json id sequence_number payload now) in
      some (append "event: response.failed\ndata: " (append encoded "\n\n"))

  unfoldable pub render_synthetic_response_failed_event :
      Option String → Option ℤ → SyntheticResponseFailedPayload → DateTime → Option String
  unfolding render_synthetic_response_failed_event_with_metadata wrapping_next
  render_synthetic_response_failed_event id last payload now =
      render_synthetic_response_failed_event_with_metadata id
        (wrapping_next (unwrap_or last minus_one)) payload now

  unfoldable pub render_openai_stream_error_event_with_sequence :
      ℤ → SyntheticResponseFailedPayload → Option String
  render_openai_stream_error_event_with_sequence sequence_number payload =
      let code = string (unwrap_or payload.code "internal_server_error") in
      let message = string (unwrap_or payload.message "Upstream request failed.") in
      let encoded = texts.encode (
        object (
          field "type" (string "error") (
            field "code" code
              (field "message" message (field "sequence_number" (number sequence_number) end))))) in
      some (append "event: error\ndata: " (append encoded "\n\n"))

  unfoldable pub render_openai_stream_error_event :
      Option ℤ → SyntheticResponseFailedPayload → Option String
  unfolding render_openai_stream_error_event_with_sequence next_from_zero
  render_openai_stream_error_event last payload =
      render_openai_stream_error_event_with_sequence (next_from_zero (unwrap_or last minus_one))
        payload

-- The code that stands for a class, where the upstream names none.
abbrev by_status : ℕ → String
by_status status =
    if nat_eq status 408
    then "request_timeout"
    else if leb 500 status && leb status 599
    then "internal_server_error"
    else "http_error"

abbrev rejected_code : ℕ → String
rejected_code status =
    if nat_eq status 400
    then "invalid_request_error"
    else if nat_eq status 403
    then "forbidden"
    else if nat_eq status 404
    then "not_found"
    else if nat_eq status 409
    then "conflict"
    else by_status status

unfoldable pub fallback_error_code_for_class : FailureClass → ℕ → String
fallback_error_code_for_class FailureClass.access_token_rejected status = "invalid_api_key"
fallback_error_code_for_class FailureClass.auth_invalid status = "invalid_api_key"
fallback_error_code_for_class FailureClass.rate_limited status = "rate_limit_exceeded"
fallback_error_code_for_class FailureClass.quota_exhausted status = "insufficient_quota"
fallback_error_code_for_class FailureClass.risk_controlled status = "forbidden"
fallback_error_code_for_class FailureClass.request_rejected status = rejected_code status
fallback_error_code_for_class _ status = by_status status

unfoldable pub synthetic_of : StructuredErrorPayload → SyntheticResponseFailedPayload
synthetic_of extracted = record {
  code = extracted.code;
  message = extracted.message;
  error_type = extracted.error_type;
  plan_type = extracted.plan_type;
  resets_at = extracted.resets_at;
  resets_in_seconds = extracted.resets_in_seconds;
}

module _ (p : Parsers) (texts : Texts) where
  unfoldable pub extract_http_retry_after :
      Option HeaderMap → Option String → DateTime → Option Duration
  unfolding analyze_request_http
  extract_http_retry_after headers body now =
      (analyze_request_http p 502 headers body now).retry_after

  unfoldable pub downstream_failure_kind_for_http :
      ℕ → Option String → DateTime → DownstreamFailureKind
  unfolding downstream_failure_kind_from_status classify_request_http
  downstream_failure_kind_for_http status body now =
      downstream_failure_kind_from_status status (classify_request_http p status body now)

  unfoldable pub fallback_error_code_for_http : ℕ → Option String → DateTime → String
  unfolding fallback_error_code_for_class classify_request_http
  fallback_error_code_for_http status body now =
      fallback_error_code_for_class (classify_request_http p status body now) status

  unfoldable pub extract_synthetic_response_failed_payload_from_body :
      Option String → SyntheticResponseFailedPayload
  unfolding synthetic_of parse_structured_error_body
  extract_synthetic_response_failed_payload_from_body body =
      synthetic_of (parse_structured_error_body p body)

  abbrev status_message : ℕ → String
  status_message status = append "Upstream request failed with status " (append (show status) ".")

  unfoldable pub fallback_error_message_for_http : ℕ → Option Duration → String
  unfolding show
  fallback_error_message_for_http status none = status_message status
  fallback_error_message_for_http status (some delay) =
      if nat_eq status 429
      then append "Rate limit reached. Please try again in "
          (append (texts.seconds_text delay) "s.")
      else status_message status

  unfoldable pub synthetic_response_failed_payload_from_http_failure :
      ℕ → Option String → Option Duration → DateTime → SyntheticResponseFailedPayload
  unfolding extract_synthetic_response_failed_payload_from_body fallback_error_code_for_http
      fallback_error_message_for_http
  synthetic_response_failed_payload_from_http_failure status body retry_after now =
      let extracted = extract_synthetic_response_failed_payload_from_body body in
      record extracted {
        code = or_else extracted.code (some (fallback_error_code_for_http status body now));
        message =
            or_else extracted.message (some (fallback_error_message_for_http status retry_after));
      }

  unfoldable pub synthetic_response_failed_payload_from_transport :
      TransportError → DateTime → SyntheticResponseFailedPayload
  unfolding synthetic_response_failed_payload_from_http_failure extract_retry_after
  synthetic_response_failed_payload_from_transport (http status headers body) now =
      synthetic_response_failed_payload_from_http_failure status body
        (extract_retry_after p (http status headers body) now) now
  synthetic_response_failed_payload_from_transport timeout now =
      payload_of (some "request_timeout") (some (texts.display timeout))
  synthetic_response_failed_payload_from_transport (network e) now =
      payload_of (some "network_error") (some (texts.display (network e)))
  synthetic_response_failed_payload_from_transport (build e) now =
      payload_of (some "internal_server_error") (some (texts.display (build e)))
  synthetic_response_failed_payload_from_transport retry_limit now =
      payload_of (some "retry_limit_reached") (some (texts.display retry_limit))
