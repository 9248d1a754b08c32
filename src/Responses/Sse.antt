-- ===== src/Responses/Sse.antt =====
-- src/responses/stream.rs: `ResponsesSseState`, which follows the events of a streamed answer.
pub mod Laws
pub mod Observe
pub mod Drains
use Prim.Native.Char.{Char, code}
use Prim.Native.String.{◌++◌ as append, slice, len}
use codaze.Prelude.{
  ℕ, zero, suc, ◌+◌, String, Bool, true, false, not, ◌&&◌, ◌||◌, Option, none, some, List, [], ◌∷◌,
  ◌++◌, if◌then◌else◌, or_else, unwrap_or, and_then, is_some, any, length, nat_eq, ◌==◌,
}
use codaze.Prelude.Text.{trim_start, split}
use codaze.Prelude.Utf8.{as_bytes, from_utf8_lossy}
use codaze.Prelude.Time.{DateTime, Duration}
use text.Mathlib.Text.{starts_with}
use codaze.Classifier.{FailureClass}
use codaze.Json.{
  ℤ, Value, null, string, object, Fields, end, field, get, as_str, as_i64, get_field, change_field,
}
use codaze.Semantics.Payload.{Parsers}
use codaze.Semantics.Analysis.{TransportError, http}
use codaze.Http.{HttpCrate}
use codaze.Models.{ResponseShape, codex, open_ai}
use codaze.Failure.{
  Texts, is_unavailable, downstream_failure_kind, gateway_unavailable_payload,
  SyntheticResponseFailedPayload, is_gateway_unavailable_status_failure, next_from_zero, minus_one,
  render_synthetic_response_failed_event, render_synthetic_response_failed_event_with_metadata,
  render_openai_stream_error_event, render_openai_stream_error_event_with_sequence,
  synthetic_response_failed_payload_from_transport,
}
use codaze.Responses.Lines.{
  Bytes, SseLineStartMatch, full, partial, no_match, newline, carriage_return, begins,
  sse_line_prefixes, classify_sse_line_start, line_start_after_bytes, blank_line, blank_line_crlf,
  add_to, find_sse_event_end, split_at, lines_of, trim_end_returns, strip_prefix, parse_event_lines,
}
use codaze.Responses.Events.{
  ClassifiedEventFailure, classify_response_failed_event, classify_openai_error_event, join,
}

pub data ResponsesTerminalState : Type 0 where
  completed : ResponsesTerminalState
  failed : FailureClass → Option Duration → String → ResponsesTerminalState

pub record ResponsesSseState : Type 0 where
  pub buffer : Bytes
  pub line_start : Bool
  pub sse_mode : Bool
  pub last_sequence_number : Option ℤ
  pub last_response_id : Option String
  pub terminal_state : Option ResponsesTerminalState

abbrev pub default_state : ResponsesSseState
default_state = record {
  buffer = [];
  line_start = true;
  sse_mode = false;
  last_sequence_number = none;
  last_response_id = none;
  terminal_state = none;
}

abbrev pub gateway_unavailable_payload_to_json : Value
gateway_unavailable_payload_to_json = object (
    field "code" (string "server_is_overloaded")
      (field "message" (string "No account available right now. Try again later.") end))

-- `pointer_mut("/response/error")` in an object, set to the payload.
abbrev set_error : Value → Value
set_error (object response) =
    object (change_field "error" (λ v. gateway_unavailable_payload_to_json) response)
set_error response = response

unfoldable pub hide_error : Value → Value
unfolding change_field
hide_error (object json) = object (change_field "response" set_error json)
hide_error json = json

abbrev text_at : Value → String → String → Option Value
text_at json a b = and_then (get json a) (λ v. get v b)

module _ (http_crate : HttpCrate) (p : Parsers) (texts : Texts) (now : DateTime) where
  abbrev render_sse_event_bytes : String → Value → Bytes
  render_sse_event_bytes name json =
      as_bytes
        (append "event: " (append name (append "\ndata: " (append (texts.encode json) "\n\n"))))

  unfoldable pub rewrite_gateway_unavailable_event :
      ResponsesSseState → ResponseShape → String → Value → Bytes
  unfolding as_bytes hide_error next_from_zero render_openai_stream_error_event_with_sequence
      render_synthetic_response_failed_event_with_metadata
  rewrite_gateway_unavailable_event s open_ai kind json =
      let sequence_number =
        unwrap_or (and_then (get json "sequence_number") as_i64)
          (next_from_zero (unwrap_or s.last_sequence_number minus_one)) in
      as_bytes (
        unwrap_or
          (render_openai_stream_error_event_with_sequence texts sequence_number
            gateway_unavailable_payload)
          "event: error\ndata: {\"type\":\"error\"}\n\n")
  rewrite_gateway_unavailable_event s codex kind json =
      let sequence_number =
        unwrap_or (and_then (get json "sequence_number") as_i64)
          (next_from_zero (unwrap_or s.last_sequence_number minus_one)) in
      if kind == "response.failed"
      then render_sse_event_bytes kind (hide_error json)
      else as_bytes (
          unwrap_or
            (render_synthetic_response_failed_event_with_metadata texts s.last_response_id
              sequence_number gateway_unavailable_payload now)
            "event: response.failed\ndata: {\"type\":\"response.failed\"}\n\n")

  -- What the event of a failure does, by what it says of it.
  unfoldable pub fail_event :
      ResponsesSseState
      → ResponseShape
      → String
      → Value
      → Bytes
      → ClassifiedEventFailure
      → ResponsesSseState × Bytes
  unfolding rewrite_gateway_unavailable_event is_gateway_unavailable_status_failure
  fail_event s shape kind json bytes c =
      let s' = record s { terminal_state = some (failed c.failure c.retry_after c.details) } in
      (
        s',
        if is_gateway_unavailable_status_failure c.status c.failure
            then rewrite_gateway_unavailable_event s' shape kind json
            else bytes,
      )

  abbrev incomplete_reason : Value → String
  incomplete_reason json =
      unwrap_or
        (and_then (and_then (text_at json "response" "incomplete_details") (λ d. get d "reason"))
          as_str)
        "unknown"

  unfoldable pub apply_event :
      ResponsesSseState → ResponseShape → String → Value → Bytes → ResponsesSseState × Bytes
  unfolding fail_event classify_response_failed_event classify_openai_error_event
  apply_event s shape kind json bytes =
      if kind == "response.completed"
      then (record s { terminal_state = some completed }, bytes)
      else if kind == "response.failed"
      then fail_event s shape kind json bytes (
          classify_response_failed_event http_crate p now
            (unwrap_or (text_at json "response" "error") null))
      else if kind == "error"
      then fail_event s shape kind json bytes (classify_openai_error_event http_crate p now json)
      else if kind == "response.incomplete"
      then (
        record s {
          terminal_state = some (
              failed FailureClass.request_rejected none
                (append "Incomplete response returned, reason: " (incomplete_reason json)));
        },
        bytes,
      )
      else (s, bytes)

  -- The number and the identifier that later events are made with.
  unfoldable pub note_event : ResponsesSseState → Value → ResponsesSseState
  note_event s json = record s {
    last_sequence_number =
        or_else (and_then (get json "sequence_number") as_i64) s.last_sequence_number;
    last_response_id = or_else (and_then (text_at json "response" "id") as_str) s.last_response_id;
  }

  abbrev pub json_of_event : List String → Option Value
  json_of_event [] = none
  json_of_event (line ∷ lines) = p.json (join "\n" (line ∷ lines))

  unfoldable pub consume_event :
      ResponsesSseState → ResponseShape → Bytes → ResponsesSseState × Bytes
  unfolding from_utf8_lossy parse_event_lines join note_event apply_event
  consume_event s shape bytes =
      let (name, payload) =
        parse_event_lines (lines_of (split newline (from_utf8_lossy bytes))) none in
      elim (json_of_event payload) [
        | none ↦ (s, bytes)
        | some json ↦
            let kind = unwrap_or (or_else name (and_then (get json "type") as_str)) "" in
            apply_event (note_event s json) shape kind json bytes
      ]

  -- The state and the output, which grows at its end. Each event takes two bytes or more off the
  -- buffer, so that fuel for its length is enough.
  unfoldable pub consume_events :
      ℕ → ResponsesSseState → ResponseShape → List Bytes → ResponsesSseState × List Bytes
  unfolding find_sse_event_end consume_event
  consume_events zero s shape output = (s, output)
  consume_events (suc fuel) s shape output = elim (find_sse_event_end s.buffer) [
    | none ↦ (s, output)
    | some event_end ↦
        let (event, rest) = split_at event_end s.buffer in
        let (s', bytes) = consume_event (record s { buffer = rest }) shape event in
        let output' = output ++ (bytes ∷ []) in
        elim s'.terminal_state [
          | none ↦ consume_events fuel s' shape output'
          | some terminal ↦ (record s' { buffer = [] }, output')
        ]
  ]

  unfoldable pub consume_buffered_events :
      ResponsesSseState → ResponseShape → List Bytes → ResponsesSseState × List Bytes
  unfolding consume_events
  consume_buffered_events s shape output = consume_events (length s.buffer) s shape output

  -- The state, the output and the bytes that are left.
  unfoldable pub resolve_pending_line_start :
      ResponsesSseState → Bytes → List Bytes → ResponsesSseState × List Bytes × Bytes
  unfolding classify_sse_line_start line_start_after_bytes
  resolve_pending_line_start s [] output = (s, output, [])
  resolve_pending_line_start s (b ∷ bytes) output =
      let buffer = s.buffer ++ (b ∷ []) in
      elim (classify_sse_line_start buffer) [
        | full ↦ (record s { buffer = buffer; sse_mode = true }, output, bytes)
        | partial ↦ resolve_pending_line_start (record s { buffer = buffer }) bytes output
        | no_match ↦ (
          record s { buffer = []; line_start = line_start_after_bytes s.line_start buffer },
          output ++ (buffer ∷ []),
          bytes,
        )
      ]

  abbrev pub push_bytes : Bytes → List Bytes → List Bytes
  push_bytes [] output = output
  push_bytes (b ∷ bytes) output = output ++ ((b ∷ bytes) ∷ [])

  -- The end of the plain bytes `passed`, with what stands behind them.
  abbrev pub hold : ResponsesSseState → Bytes → Bytes → ResponsesSseState
  hold s passed bytes = record s {
    buffer = s.buffer ++ bytes;
    line_start = line_start_after_bytes s.line_start passed;
  }

  -- `passed` are the bytes from `passthrough_start` to the cursor. At the start of a line, the bytes
  -- from there on may begin an event.
  unfoldable pub scan_plain :
      ResponsesSseState
      → Bytes
      → Bytes
      → ResponseShape
      → List Bytes
      → ResponsesSseState × List Bytes
  unfolding classify_sse_line_start line_start_after_bytes consume_buffered_events
  scan_plain s passed [] shape output = (hold s passed [], push_bytes passed output)
  scan_plain s passed (b ∷ bytes) shape output =
      let next =
        scan_plain (record s { line_start = nat_eq b newline }) (passed ++ (b ∷ [])) bytes shape
          output in
      if s.line_start
      then elim (classify_sse_line_start (b ∷ bytes)) [
        | full ↦
            consume_buffered_events (record (hold s passed (b ∷ bytes)) { sse_mode = true }) shape
              (push_bytes passed output)
        | partial ↦ (hold s passed (b ∷ bytes), push_bytes passed output)
        | no_match ↦ next
      ]
      else next

  abbrev pub append_buffer : ResponsesSseState → Bytes → ResponsesSseState
  append_buffer s bytes = record s { buffer = s.buffer ++ bytes }

  abbrev pub observe_plain :
      ResponsesSseState → Bytes → ResponseShape → List Bytes → ResponsesSseState × List Bytes
  observe_plain s bytes shape output =
      if s.sse_mode
      then consume_buffered_events (append_buffer s bytes) shape output
      else scan_plain s [] bytes shape output

  -- `observe_bytes`, before the end of the answer.
  abbrev pub observe_open :
      ResponsesSseState → Bytes → ResponseShape → List Bytes → ResponsesSseState × List Bytes
  observe_open s bytes shape output =
      if s.sse_mode then observe_plain s bytes shape output else elim s.buffer [
        | [] ↦ observe_plain s bytes shape output
        | b ∷ buffer ↦
            let (s', output', rest) = resolve_pending_line_start s bytes output in
            observe_plain s' rest shape output'
      ]

  unfoldable pub observe_bytes :
      ResponsesSseState → Bytes → ResponseShape → List Bytes → ResponsesSseState × List Bytes
  unfolding resolve_pending_line_start consume_buffered_events scan_plain
  observe_bytes s bytes shape output = elim s.terminal_state [
    | some terminal ↦ (s, output)
    | none ↦ observe_open s bytes shape output
  ]

  abbrev ends_line : Bytes → Bool
  ends_line [] = false
  ends_line (b ∷ []) = nat_eq b newline
  ends_line (b ∷ c ∷ bytes) = ends_line (c ∷ bytes)

  unfoldable pub observe_eof :
      ResponsesSseState → ResponseShape → List Bytes → ResponsesSseState × List Bytes
  unfolding consume_event
  observe_eof s shape output =
      if is_some s.terminal_state || not s.sse_mode || not (ends_line s.buffer)
      then (s, output)
      else let (s', bytes) = consume_event (record s { buffer = [] }) shape s.buffer in
        (s', output ++ (bytes ∷ []))

  unfoldable pub take_terminal_passthrough_bytes :
      ResponsesSseState → ResponsesSseState × Option Bytes
  unfolding classify_sse_line_start
  take_terminal_passthrough_bytes s = elim s.buffer [
    | [] ↦ (s, none)
    | b ∷ bytes ↦
        let emptied = record s { buffer = [] } in
        if s.sse_mode then (emptied, none) else elim (classify_sse_line_start (b ∷ bytes)) [
          | partial ↦ (emptied, none)
          | _ ↦ (emptied, some (b ∷ bytes))
        ]
  ]

  unfoldable pub synthetic_error_event_with_payload :
      ResponsesSseState → ResponseShape → SyntheticResponseFailedPayload → Option String
  unfolding render_synthetic_response_failed_event render_openai_stream_error_event
  synthetic_error_event_with_payload s codex payload =
      render_synthetic_response_failed_event texts s.last_response_id s.last_sequence_number payload
        now
  synthetic_error_event_with_payload s open_ai payload =
      render_openai_stream_error_event texts s.last_sequence_number payload

  abbrev transport_payload : TransportError → FailureClass → SyntheticResponseFailedPayload
  transport_payload (http status headers body) failure =
      if is_unavailable (downstream_failure_kind failure)
      then gateway_unavailable_payload
      else synthetic_response_failed_payload_from_transport p texts (http status headers body) now
  transport_payload error failure =
      synthetic_response_failed_payload_from_transport p texts error now

  unfoldable pub synthetic_transport_error_event :
      ResponsesSseState → ResponseShape → TransportError → FailureClass → Option String
  unfolding synthetic_error_event_with_payload downstream_failure_kind
      synthetic_response_failed_payload_from_transport
  synthetic_transport_error_event s shape error failure =
      synthetic_error_event_with_payload s shape (transport_payload error failure)
