-- ===== src/Responses/Websocket/Errors.antt =====
-- src/responses/websocket/errors.rs: what the upstream's messages end a request with, and the messages
-- that tell the client of a failure.
use Prim.Native.String.{◌++◌ as append}
use codaze.Prelude.{
  ℕ, String, Bool, true, false, ◌||◌, Option, none, some, if◌then◌else◌, unwrap_or, and_then, ◌==◌,
}
use codaze.Prelude.Text.{to_ascii_lowercase, contains_text}
use codaze.Prelude.Time.{DateTime, Duration}
use codaze.Classifier.{FailureClass}
use codaze.Json.{ℤ, Value, null, number, string, object, Fields, end, field, get, as_str, set_field}
use codaze.Semantics.Payload.{Parsers}
use codaze.Semantics.Analysis.{
  TransportError, timeout, retry_limit, network, build, http, classify_request_error,
}
use codaze.Accounts.Types.{PoolBlockSummary}
use codaze.Failover.Step.{FailoverFailure, refresh, transport, pool_blocked, caller_json, internal}
use codaze.Http.{HttpCrate}
use codaze.Failure.{
  DownstreamFailureKind, caller_error, gateway_unavailable, is_unavailable,
  SyntheticResponseFailedPayload, Texts, payload_of, gateway_unavailable_payload,
  downstream_failure_kind, downstream_failure_kind_for_http, fallback_error_code_for_http,
  synthetic_response_failed_payload_from_http_failure,
  synthetic_response_failed_payload_from_transport,
}
use codaze.Responses.Events.{
  ClassifiedEventFailure, classify_wrapped_error_event, describe_wrapped_websocket_error_event,
  classify_response_failed_event,
}
use codaze.Responses.Websocket.Protocol.{
  CloseCode, normal_close, away, CloseFrame, text, close, Upstream, type_of,
}

pub data WebsocketProxyOutcome : Type 0 where
  success released : WebsocketProxyOutcome
  failed : FailureClass → Option Duration → String → WebsocketProxyOutcome

pub data WebsocketTerminal : Type 0 where
  completed : WebsocketTerminal
  terminal_failure : ClassifiedEventFailure → WebsocketTerminal

unfoldable pub is_normal_websocket_close_code : CloseCode → Bool
is_normal_websocket_close_code normal_close = true
is_normal_websocket_close_code away = true
is_normal_websocket_close_code _ = false

abbrev reason_class : String → Option FailureClass
reason_class lowered =
    if contains_text lowered "unusual activity"
      || contains_text lowered "arkose"
      || contains_text lowered "turnstile"
    then some FailureClass.risk_controlled
    else if contains_text lowered "rate limit"
    then some FailureClass.rate_limited
    else if contains_text lowered "quota" || contains_text lowered "usage cap"
    then some FailureClass.quota_exhausted
    else none

unfoldable pub classify_websocket_close_reason : String → Option WebsocketProxyOutcome
unfolding to_ascii_lowercase
classify_websocket_close_reason reason = elim (reason_class (to_ascii_lowercase reason)) [
  | none ↦ none
  | some failure ↦ some (
      failed failure none (append "responses websocket upstream closed with error: reason=" reason))
]

-- `close_details` is the text of a code and a reason.
unfoldable pub classify_websocket_close_frame :
    (CloseFrame CloseCode → String) → CloseFrame CloseCode → WebsocketProxyOutcome
unfolding classify_websocket_close_reason is_normal_websocket_close_code
classify_websocket_close_frame close_details frame =
    elim (classify_websocket_close_reason frame.reason) [
      | some outcome ↦ outcome
      | none ↦
          if is_normal_websocket_close_code frame.code
          then released
          else failed FailureClass.temporary_failure none (close_details frame)
    ]

module _ (http_crate : HttpCrate) (p : Parsers) (now : DateTime) where
  unfoldable pub classify_wrapped_websocket_error_event : Value → ClassifiedEventFailure
  unfolding classify_wrapped_error_event describe_wrapped_websocket_error_event
  classify_wrapped_websocket_error_event payload =
      classify_wrapped_error_event http_crate p now payload
        (describe_wrapped_websocket_error_event payload)

  abbrev failed_terminal : ClassifiedEventFailure → WebsocketTerminal
  failed_terminal classified = terminal_failure record classified {
    details = append "responses websocket upstream returned response.failed: " classified.details;
  }

  abbrev incomplete_reason : Value → String
  incomplete_reason response =
      unwrap_or
        (and_then (and_then (get response "incomplete_details") (λ details. get details "reason"))
          as_str)
        "unknown"

  abbrev incomplete_terminal : Value → WebsocketTerminal
  incomplete_terminal response = terminal_failure record {
    status = 400;
    failure = FailureClass.request_rejected;
    retry_after = none;
    details =
        append "responses websocket upstream returned response.incomplete: reason="
          (incomplete_reason response);
  }

  unfoldable pub terminal_of_event : String → Value → Option WebsocketTerminal
  unfolding classify_wrapped_websocket_error_event classify_response_failed_event
  terminal_of_event event json =
      if event == "error"
      then some (terminal_failure (classify_wrapped_websocket_error_event json))
      else if event == "response.completed"
      then some completed
      else if event == "response.failed"
      then and_then (get json "response") (λ response. some (
          failed_terminal (
            classify_response_failed_event http_crate p now
              (unwrap_or (get response "error") null))))
      else if event == "response.incomplete"
      then and_then (get json "response") (λ response. some (incomplete_terminal response))
      else none

  unfoldable pub analyze_websocket_terminal_text : String → Option WebsocketTerminal
  unfolding terminal_of_event
  analyze_websocket_terminal_text t =
      and_then (p.json t) (λ json. and_then (type_of json) (λ event. terminal_of_event event json))

  abbrev outcome_of : WebsocketTerminal → WebsocketProxyOutcome
  outcome_of completed = success
  outcome_of (terminal_failure classified) =
      failed classified.failure classified.retry_after classified.details

  unfoldable pub classify_websocket_control_text : String → Option WebsocketProxyOutcome
  unfolding analyze_websocket_terminal_text
  classify_websocket_control_text t =
      and_then (analyze_websocket_terminal_text t) (λ terminal. some (outcome_of terminal))

  unfoldable pub classify_websocket_upstream_control_message :
      (CloseFrame CloseCode → String) → Upstream → Option WebsocketProxyOutcome
  unfolding classify_websocket_control_text classify_websocket_close_frame
  classify_websocket_upstream_control_message close_details (text t) =
      classify_websocket_control_text t
  classify_websocket_upstream_control_message close_details (close (some frame)) =
      some (classify_websocket_close_frame close_details frame)
  classify_websocket_upstream_control_message close_details (close none) = some released
  classify_websocket_upstream_control_message close_details _ = none

  abbrev pub failure_of : WebsocketTerminal → Option ClassifiedEventFailure
  failure_of completed = none
  failure_of (terminal_failure classified) = some classified

  unfoldable pub classify_websocket_upstream_terminal_failure :
      Upstream → Option ClassifiedEventFailure
  unfolding analyze_websocket_terminal_text
  classify_websocket_upstream_terminal_failure (text t) =
      and_then (analyze_websocket_terminal_text t) failure_of
  classify_websocket_upstream_terminal_failure _ = none

module _ (p : Parsers) (texts : Texts) (now : DateTime) where
  abbrev add_text : String → Option String → Fields → Fields
  add_text name none fields = fields
  add_text name (some value) fields = set_field name (string value) fields

  abbrev add_number : String → Option ℤ → Fields → Fields
  add_number name none fields = fields
  add_number name (some n) fields = set_field name (number n) fields

  abbrev error_message : ℕ → Fields → Value
  error_message status error = object (
      field "type" (string "error")
        (field "status" (number (ℤ.pos status)) (field "error" (object error) end)))

  -- `status_text` is the `Display` of a status.
  unfoldable pub websocket_error_json : (ℕ → String) → ℕ → SyntheticResponseFailedPayload → Value
  unfolding fallback_error_code_for_http set_field
  websocket_error_json status_text status payload =
      let code = unwrap_or payload.code (fallback_error_code_for_http p texts status none now) in
      let message =
        unwrap_or payload.message
          (append "Upstream request failed with status " (append (status_text status) ".")) in
      error_message status (
        add_number "resets_in_seconds" payload.resets_in_seconds (
          add_number "resets_at" payload.resets_at (
            add_text "plan_type" payload.plan_type (
              add_text "type" payload.error_type
                (field "code" (string code) (field "message" (string message) end))))))

  unfoldable pub websocket_error_message_from_payload :
      (ℕ → String) → ℕ → SyntheticResponseFailedPayload → Option Upstream
  unfolding websocket_error_json
  websocket_error_message_from_payload status_text status payload =
      some (text (texts.encode (websocket_error_json status_text status payload)))

  unfoldable pub websocket_gateway_unavailable_message : (ℕ → String) → Option Upstream
  unfolding websocket_error_message_from_payload
  websocket_gateway_unavailable_message status_text =
      websocket_error_message_from_payload status_text 503 gateway_unavailable_payload

  unfoldable pub websocket_error_message_for_pool_block : PoolBlockSummary → Option Upstream
  websocket_error_message_for_pool_block summary = some (
      text (
        texts.encode (
          error_message 503 (
            field "code" (string "server_is_overloaded")
              (field "message" (string "No account available right now. Try again later.") end)))))

  abbrev transport_status : TransportError → ℕ
  transport_status (http status headers body) = status
  transport_status timeout = 408
  transport_status error = 502

  unfoldable pub websocket_error_message_from_transport_error :
      (ℕ → String) → TransportError → Option Upstream
  unfolding websocket_error_message_from_payload synthetic_response_failed_payload_from_transport
  websocket_error_message_from_transport_error status_text error =
      websocket_error_message_from_payload status_text (transport_status error)
        (synthetic_response_failed_payload_from_transport p texts error now)

  unfoldable pub websocket_failure_kind : FailoverFailure → DownstreamFailureKind
  unfolding downstream_failure_kind_for_http downstream_failure_kind classify_request_error
  websocket_failure_kind (refresh error) = gateway_unavailable
  websocket_failure_kind (pool_blocked summary) = gateway_unavailable
  websocket_failure_kind (transport (http status headers body)) =
      downstream_failure_kind_for_http p texts status body now
  websocket_failure_kind (transport timeout) =
      downstream_failure_kind (classify_request_error p timeout now)
  websocket_failure_kind (transport (network e)) =
      downstream_failure_kind (classify_request_error p (network e) now)
  websocket_failure_kind (transport (build e)) =
      downstream_failure_kind (classify_request_error p (build e) now)
  websocket_failure_kind (transport retry_limit) =
      downstream_failure_kind (classify_request_error p retry_limit now)
  websocket_failure_kind (caller_json status message) = caller_error
  websocket_failure_kind (internal status detail) = caller_error

  -- The message for an error of the caller.
  unfoldable pub websocket_caller_message : (ℕ → String) → FailoverFailure → Option Upstream
  unfolding websocket_error_message_for_pool_block websocket_error_message_from_payload
      websocket_error_message_from_transport_error fallback_error_code_for_http
      synthetic_response_failed_payload_from_http_failure
  websocket_caller_message status_text (pool_blocked summary) =
      websocket_error_message_for_pool_block summary
  websocket_caller_message status_text (refresh error) =
      websocket_error_message_from_payload status_text error.status (
        synthetic_response_failed_payload_from_http_failure p texts error.status (some error.body)
          error.retry_after now)
  websocket_caller_message status_text (transport error) =
      websocket_error_message_from_transport_error status_text error
  websocket_caller_message status_text (caller_json status message) =
      websocket_error_message_from_payload status_text status
        (payload_of (some (fallback_error_code_for_http p texts status none now)) (some message))
  websocket_caller_message status_text (internal status detail) =
      websocket_error_message_from_payload status_text status (
        payload_of (some (fallback_error_code_for_http p texts status none now))
          (some (unwrap_or (texts.canonical_reason status) "Internal Server Error")))

  unfoldable pub websocket_error_message_for_failover_failure :
      (ℕ → String) → FailoverFailure → Option Upstream
  unfolding websocket_failure_kind websocket_gateway_unavailable_message websocket_caller_message
  websocket_error_message_for_failover_failure status_text failure =
      if is_unavailable (websocket_failure_kind failure)
      then websocket_gateway_unavailable_message status_text
      else websocket_caller_message status_text failure
