-- ===== src/Responses/Events.antt =====
-- src/responses/websocket/errors.rs: what an event of an answer says of the failure behind it.
use Prim.Native.String.{◌++◌ as append}
use codaze.Prelude.{
  ℕ, ◌+◌, String, true, false, ◌&&◌, ◌||◌, Option, none, some, List, [], ◌∷◌, ◌++◌, if◌then◌else◌,
  or_else, unwrap_or, and_then, leb,
}
use codaze.Prelude.Text.{to_ascii_lowercase, contains_text, trim}
use codaze.Prelude.Decimal.{show}
use codaze.Prelude.Time.{DateTime, Duration}
use codaze.Classifier.{FailureClass}
use codaze.Json.{
  ℤ, Value, null, float, bool, number, string, get, as_str, as_i64, as_object, get_field,
}
use codaze.Semantics.Payload.{Parsers, parse_retry_after_str, parse_structured_error_value}
use codaze.Semantics.Analysis.{is_text, analyze_error}
use codaze.Http.{HttpCrate}

pub record ClassifiedEventFailure : Type 0 where
  pub status : ℕ
  pub failure : FailureClass
  pub retry_after : Option Duration
  pub details : String

unfoldable pub infer_response_error_status : Option String → Option String → String → ℕ
unfolding to_ascii_lowercase
infer_response_error_status code error_type details =
    let lowered = to_ascii_lowercase details in
    if is_text code "invalid_api_key" || is_text error_type "authentication_error"
    then 401
    else if is_text code "forbidden" || is_text error_type "permission_error"
    then 403
    else if is_text error_type "usage_limit_reached"
        || is_text error_type "rate_limit_error"
        || is_text code "rate_limit_exceeded"
    then 429
    else if is_text code "insufficient_quota"
    then 403
    else if is_text code "server_is_overloaded"
        || is_text code "slow_down"
        || is_text code "internal_server_error"
        || is_text error_type "server_error"
    then 503
    else if is_text code "invalid_prompt" || is_text code "context_length_exceeded"
    then 400
    else if contains_text lowered "unauthorized"
    then 401
    else if contains_text lowered "unusual activity"
        || contains_text lowered "arkose"
        || contains_text lowered "turnstile"
    then 403
    else 400

-- `StatusCode::from_u16`, of a number that `as_u64` and `u16::try_from` read.
abbrev pub status_code : Value → Option ℕ
status_code (number (ℤ.pos n)) = if leb 100 n && leb n 999 then some n else none
status_code value = none

unfoldable pub wrapped_error_status : Value → Option ℕ
wrapped_error_status payload =
    or_else (and_then (get payload "status") status_code)
      (and_then (get payload "status_code") status_code)

unfoldable pub show_integer : ℤ → String
unfolding show
show_integer (ℤ.pos n) = show n
show_integer (ℤ.negsuc n) = append "-" (show (n + 1))

-- The text of a value that has one.
unfoldable pub rendered : Value → Option String
unfolding show_integer
rendered (string value) = some value
rendered (number value) = some (show_integer value)
rendered (float text) = some text
rendered (bool true) = some "true"
rendered (bool false) = some "false"
rendered value = none

abbrev segment : String → Option String → List String
segment name none = []
segment name (some value) = append name (append "=" value) ∷ []

abbrev string_segment : Value → String → List String
string_segment error name = segment (append "error." name) (and_then (get error name) as_str)

abbrev integer_of : Value → Option String
integer_of (number value) = some (show_integer value)
integer_of value = none

abbrev integer_segment : Value → String → List String
integer_segment error name = segment (append "error." name) (and_then (get error name) integer_of)

abbrev retry_after_value : Value → Option Value
retry_after_value payload =
    and_then (and_then (get payload "headers") as_object) (get_field "retry-after")

abbrev status_text : ℕ → Option String
status_text status = some (show status)

unfoldable pub join : String → List String → String
join separator [] = ""
join separator (part ∷ []) = part
join separator (part ∷ next ∷ parts) =
    append part (append separator (join separator (next ∷ parts)))

abbrev error_segments : Option Value → List String
error_segments none = []
error_segments (some error) =
    string_segment error "type"
    ++ (string_segment error "code"
        ++ (string_segment error "message"
            ++ (integer_segment error "resets_at" ++ integer_segment error "resets_in_seconds")))

unfoldable pub describe_wrapped_websocket_error_event : Value → String
unfolding wrapped_error_status rendered show_integer show join
describe_wrapped_websocket_error_event payload =
    let segments =
      segment "status" (and_then (wrapped_error_status payload) status_text)
      ++ (error_segments (get payload "error")
          ++ segment "headers.retry-after" (and_then (retry_after_value payload) rendered)) in
    elim segments [
      | [] ↦ "responses websocket upstream returned error event"
      | part ∷ parts ↦
          append "responses websocket upstream returned error event: " (join " " (part ∷ parts))
    ]

module _ (http : HttpCrate) (p : Parsers) (now : DateTime) where
  -- `json_header_value_from_json`, and the time that it asks to wait.
  unfoldable pub retry_after_of : Value → Option Duration
  unfolding rendered trim parse_retry_after_str
  retry_after_of payload = and_then (and_then (retry_after_value payload) rendered) (λ text.
      and_then (http.header_value text)
        (λ value. and_then value (λ raw. parse_retry_after_str p (trim raw) now)))

  unfoldable pub classify_wrapped_error_event : Value → String → ClassifiedEventFailure
  unfolding wrapped_error_status infer_response_error_status retry_after_of
  classify_wrapped_error_event payload details =
      let error = unwrap_or (get payload "error") null in
      let error_type = and_then (get error "type") as_str in
      let code = and_then (get error "code") as_str in
      let message = and_then (get error "message") as_str in
      let status =
        unwrap_or (wrapped_error_status payload)
          (infer_response_error_status code error_type (unwrap_or message details)) in
      let semantics =
        analyze_error p
          record {
            status = status;
            headers = none;
            body = none;
            explicit_code = code;
            explicit_message = message;
            explicit_error_type = error_type;
            explicit_plan_type = and_then (get error "plan_type") as_str;
            explicit_resets_at = and_then (get error "resets_at") as_i64;
            explicit_resets_in_seconds = and_then (get error "resets_in_seconds") as_i64;
            explicit_retry_after = retry_after_of payload;
            unauthorized_failure = FailureClass.access_token_rejected;
            allow_message_retry_after = true;
          }
          now in
      record {
        status = status;
        failure = semantics.failure;
        retry_after = semantics.retry_after;
        details = details;
      }

  -- An event whose error stands in it, without a status.
  unfoldable pub classify_plain_event : Value → String → ClassifiedEventFailure
  unfolding infer_response_error_status parse_structured_error_value
  classify_plain_event error default_details =
      let details = unwrap_or (and_then (get error "message") as_str) default_details in
      let code = and_then (get error "code") as_str in
      let error_type = and_then (get error "type") as_str in
      let status = infer_response_error_status code error_type details in
      let payload = parse_structured_error_value error in
      let semantics =
        analyze_error p
          record {
            status = status;
            headers = none;
            body = none;
            explicit_code = code;
            explicit_message = or_else payload.message (some details);
            explicit_error_type = error_type;
            explicit_plan_type = payload.plan_type;
            explicit_resets_at = payload.resets_at;
            explicit_resets_in_seconds = payload.resets_in_seconds;
            explicit_retry_after = none;
            unauthorized_failure = FailureClass.access_token_rejected;
            allow_message_retry_after = true;
          }
          now in
      record {
        status = status;
        failure = semantics.failure;
        retry_after = semantics.retry_after;
        details = details;
      }

  unfoldable pub classify_response_failed_event : Value → ClassifiedEventFailure
  unfolding classify_plain_event
  classify_response_failed_event error = classify_plain_event error "response.failed event received"

  unfoldable pub classify_openai_error_event : Value → ClassifiedEventFailure
  unfolding classify_plain_event classify_wrapped_error_event
  classify_openai_error_event error = elim (get error "error") [
    | none ↦ classify_plain_event error "error event received"
    | some inner ↦
        classify_wrapped_error_event error
          (unwrap_or (and_then (get inner "message") as_str) "error event received")
  ]
