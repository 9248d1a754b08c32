-- ===== src/Tests/Answers.antt =====
-- Failures, messages of the websocket and streamed answers: the theorems, applied.
use codaze.Prelude.{
  ℕ, String, true, false, not, none, some, List, [], ◌∷◌, ◌++◌, ◌≡◌, refl, arith, and_then, length,
}
use codaze.Prelude.Utf8.{as_bytes}
use codaze.Classifier.{FailureClass}
use codaze.Prelude.Text.{split}
use codaze.Semantics.Analysis.{
  timeout, analyze_error, classify_error, classify_structured_error,
  classify_http_from_status_and_text,
}
use codaze.Semantics.Payload.{
  parse_retry_after_header, parse_resets_retry_after_payload, parse_structured_error_body,
}
use codaze.Failover.Step.{FailoverFailure, transport, pool_blocked, caller_json, default_summary}
use codaze.Models.{codex, open_ai}
use codaze.Failure.{is_unavailable, gateway_unavailable_payload}
use codaze.GatewayErrors.{
  unary_json, responses_pre_stream, failover_failure_kind, render_failover_failure,
}
use codaze.GatewayErrors.Laws.{
  AnswersOpenAiError, render_failover_failure-AnswersOpenAiError, render_failover_failure_hides,
  is_caller_cause, failover_failure_kind_cases,
}
use codaze.Responses.Events.{ClassifiedEventFailure, wrapped_error_status}
use codaze.Responses.Websocket.Protocol.{
  Message, text, close, upstream_message_commits_request, upstream_message_is_terminal,
  map_client_message_to_upstream, map_upstream_message_to_client, is_wire_legal_close_code,
}
use codaze.Responses.Websocket.Errors.{
  websocket_failure_kind, websocket_error_json, classify_websocket_upstream_terminal_failure,
}
use codaze.Responses.Websocket.Replay.{
  websocket_failure_kind-failover_failure_kind, wrapped_error_status-websocket_error_json,
  classify_websocket_upstream_terminal_failure_uncommitted,
  map_upstream_message_to_client-map_client_message_to_upstream,
}
use codaze.Responses.Lines.{Bytes, find_sse_event_end}
use codaze.Responses.Sse.{ResponsesSseState, default_state, observe_bytes, consume_buffered_events}
use codaze.Responses.Sse.Laws.{concat}
use codaze.Responses.Sse.Observe.{observe_bytes-Conserves}
use codaze.Responses.Sse.Drains.{find_sse_event_end-consume_buffered_events}
use codaze.Responses.Stream.{PollInput, bytes_ready, error_ready, end_ready, new, drop}
use codaze.Responses.Stream.Settles.{poll_all, drop-poll_all}
use codaze.Tests.Data.{noon}
use codaze.Tests.Stubs.{
  plain_http, plain_codec, plain_texts, plain_details, plain_codes, two_parsers, failed_text,
}

abbrev timed_out : FailoverFailure
timed_out = transport timeout

abbrev blocked : FailoverFailure
blocked = pool_blocked default_summary

render_failover_failure-AnswersOpenAiError_example : AnswersOpenAiError (
    render_failover_failure plain_http two_parsers plain_texts noon
      (caller_json 404 "no such path")
      open_ai
      unary_json)
render_failover_failure-AnswersOpenAiError_example =
    render_failover_failure-AnswersOpenAiError plain_http two_parsers plain_texts noon
      (caller_json 404 "no such path") unary_json

render_failover_failure_hides_example :
    render_failover_failure plain_http two_parsers plain_texts noon timed_out codex
      responses_pre_stream
    ≡ render_failover_failure plain_http two_parsers plain_texts noon blocked codex
        responses_pre_stream
unfolding failover_failure_kind
render_failover_failure_hides_example =
    render_failover_failure_hides plain_http two_parsers plain_texts noon timed_out blocked codex
      responses_pre_stream refl refl

failover_failure_kind_cases_example :
    is_unavailable (failover_failure_kind plain_http two_parsers plain_texts noon timed_out)
    ≡ not (is_caller_cause plain_http two_parsers plain_texts noon timed_out)
failover_failure_kind_cases_example =
    failover_failure_kind_cases plain_http two_parsers plain_texts noon timed_out

websocket_failure_kind-failover_failure_kind_example :
    websocket_failure_kind two_parsers plain_texts noon timed_out
    ≡ failover_failure_kind plain_http two_parsers plain_texts noon timed_out
websocket_failure_kind-failover_failure_kind_example =
    websocket_failure_kind-failover_failure_kind plain_http two_parsers plain_texts noon timed_out

abbrev status_text : ℕ → String
status_text status = "503 Service Unavailable"

wrapped_error_status-websocket_error_json_example :
    wrapped_error_status (
      websocket_error_json two_parsers plain_texts noon status_text 503 gateway_unavailable_payload)
    ≡ some 503
wrapped_error_status-websocket_error_json_example =
    wrapped_error_status-websocket_error_json plain_http two_parsers plain_texts noon status_text
      503 gateway_unavailable_payload (omega arith) (omega arith)

abbrev bare_error : ClassifiedEventFailure
bare_error = record {
  status = 400;
  failure = FailureClass.request_rejected;
  retry_after = none;
  details = "responses websocket upstream returned error event";
}

classify_websocket_upstream_terminal_failure_uncommitted_example :
    (upstream_message_commits_request plain_codec (text failed_text) ≡ false)
    × (upstream_message_is_terminal plain_codec (text failed_text) ≡ true)
unfolding classify_websocket_upstream_terminal_failure analyze_error classify_error
    parse_retry_after_header classify_structured_error parse_resets_retry_after_payload
    parse_structured_error_body classify_http_from_status_and_text
classify_websocket_upstream_terminal_failure_uncommitted_example =
    classify_websocket_upstream_terminal_failure_uncommitted plain_http two_parsers plain_texts noon
      plain_codec (text failed_text) bare_error (λ t. refl) refl

map_upstream_message_to_client-map_client_message_to_upstream_example :
    let message : Message ℕ = close (some record { code = 1000; reason = "done" }) in
    and_then
      (map_client_message_to_upstream plain_codes message)
      (map_upstream_message_to_client plain_codes)
    ≡ some message
unfolding is_wire_legal_close_code
map_upstream_message_to_client-map_client_message_to_upstream_example =
    map_upstream_message_to_client-map_client_message_to_upstream plain_codes
      (close (some record { code = 1000; reason = "done" })) (λ n legal. refl) refl

abbrev comment : Bytes
comment = as_bytes ": wait\n\nda"

observe_bytes-Conserves_example :
    let r = observe_bytes plain_http two_parsers plain_texts noon default_state comment codex [] in
    concat r.1 ++ r.0.buffer ≡ comment
unfolding observe_bytes split
observe_bytes-Conserves_example =
    observe_bytes-Conserves plain_http two_parsers plain_texts noon default_state comment codex []
      refl

abbrev two_events : ResponsesSseState
two_events = record default_state { buffer = as_bytes ": a\n\n: b\n\nda"; sse_mode = true }

find_sse_event_end-consume_buffered_events_example :
    find_sse_event_end
      (consume_buffered_events plain_http two_parsers plain_texts noon two_events codex []).0.buffer
    ≡ none
find_sse_event_end-consume_buffered_events_example =
    find_sse_event_end-consume_buffered_events plain_http two_parsers plain_texts noon two_events
      codex []

-- Some bytes, an error of the upstream, and a poll after it.
abbrev polls : List PollInput
polls =
    record { now = noon; shutdown = false; ready = bytes_ready comment ∷ [] }
    ∷ record { now = noon; shutdown = false; ready = error_ready timeout ∷ [] }
    ∷ record { now = noon; shutdown = true; ready = end_ready ∷ [] }
    ∷ []

drop-poll_all_example :
    length
      (drop
        (poll_all plain_http two_parsers plain_texts plain_details (new codex) polls)).settlements
    ≡ 1
drop-poll_all_example = drop-poll_all plain_http two_parsers plain_texts plain_details codex polls
