-- ===== src/Responses/Stream.antt =====
-- src/responses/stream.rs: `ManagedResponseStream`, the answer that goes to the client. A poll is given
-- the time, whether the shutdown is asked for, and what the upstream's stream answers meanwhile.
pub mod Settles
use codaze.Prelude.{
  ℕ, String, Bool, true, false, not, ◌&&◌, Option, none, some, List, [], ◌∷◌, ◌++◌, if◌then◌else◌,
  is_some,
}
use codaze.Prelude.Utf8.{as_bytes}
use codaze.Prelude.Time.{DateTime, Duration}
use codaze.Classifier.{FailureClass}
use codaze.Semantics.Payload.{Parsers}
use codaze.Semantics.Analysis.{TransportError, classify_request_error}
use codaze.Failover.Step.{extract_retry_after}
use codaze.Failover.Settlement.{AccountSettlement, success, release, failure}
use codaze.Http.{HttpCrate}
use codaze.Models.{ResponseShape}
use codaze.Failure.{Texts, payload_of}
use codaze.Responses.Lines.{Bytes}
use codaze.Responses.Sse.{
  ResponsesSseState, ResponsesTerminalState, completed, failed, default_state, observe_bytes,
  observe_eof, take_terminal_passthrough_bytes, synthetic_error_event_with_payload,
  synthetic_transport_error_event,
}

-- `settlements` are those that `spawn_account_settlement` was called with.
pub record ManagedResponseStream : Type 0 where
  pub settled : Bool
  pub settlements : List AccountSettlement
  pub response_shape : ResponseShape
  pub sse_state : ResponsesSseState
  pub pending_output : List Bytes
  pub close_after_pending_output : Bool

-- What the upstream's stream has ready: bytes, an error, or its end.
pub data Ready : Type 0 where
  bytes_ready : Bytes → Ready
  error_ready : TransportError → Ready
  end_ready : Ready

pub data Poll : Type 0 where
  pending finished : Poll
  chunk : Bytes → Poll
  io_error : String → Poll

pub record PollInput : Type 0 where
  pub now : DateTime
  pub shutdown : Bool
  pub ready : List Ready

abbrev pub new : ResponseShape → ManagedResponseStream
new shape = record {
  settled = false;
  settlements = [];
  response_shape = shape;
  sse_state = default_state;
  pending_output = [];
  close_after_pending_output = false;
}

unfoldable pub settle : ManagedResponseStream → AccountSettlement → ManagedResponseStream
settle s settlement =
    if s.settled
    then s
    else record s { settled = true; settlements = s.settlements ++ (settlement ∷ []) }

abbrev pub action_of : ResponsesTerminalState → AccountSettlement
action_of completed = success
action_of (failed class retry_after details) = failure class retry_after details

abbrev pub terminal_action : ResponsesSseState → Option AccountSettlement
terminal_action s = elim s.terminal_state [
  | none ↦ none
  | some terminal ↦ some (action_of terminal)
]

abbrev pub saw_terminal_failure_event : ResponsesSseState → Bool
saw_terminal_failure_event s = elim s.terminal_state [
  | none ↦ false
  | some terminal ↦ elim terminal [ completed ↦ false | failed class retry_after details ↦ true ]
]

-- `pop_front`, and what is polled if there is nothing.
abbrev pub pop_or : ManagedResponseStream → Poll → Poll × ManagedResponseStream
pop_or s otherwise = elim s.pending_output [
  | [] ↦ (otherwise, s)
  | first ∷ rest ↦ (chunk first, record s { pending_output = rest })
]

abbrev pub push_chunk : ManagedResponseStream → Option Bytes → ManagedResponseStream
push_chunk s none = s
push_chunk s (some bytes) = record s { pending_output = s.pending_output ++ (bytes ∷ []) }

abbrev bytes_of : Option String → Option Bytes
bytes_of none = none
bytes_of (some text) = some (as_bytes text)

-- `details` is the text of an error and its class.
module _ (http_crate : HttpCrate) (p : Parsers) (texts : Texts)
    (details : TransportError → FailureClass → String) where
  abbrev pub take_passthrough : ManagedResponseStream → DateTime → ManagedResponseStream
  take_passthrough s now =
      let (sse, buffered) = take_terminal_passthrough_bytes http_crate p texts now s.sse_state in
      push_chunk (record s { sse_state = sse }) buffered

  unfoldable pub on_error :
      ManagedResponseStream → TransportError → DateTime → Poll × ManagedResponseStream
  unfolding as_bytes settle take_terminal_passthrough_bytes synthetic_transport_error_event
      extract_retry_after classify_request_error
  on_error s error now =
      if is_some s.sse_state.terminal_state
      then (finished, s)
      else let s' = take_passthrough s now in
        let class = classify_request_error p error now in
        let event =
          synthetic_transport_error_event http_crate p texts now s'.sse_state s'.response_shape
            error class in
        let settlement = failure class (extract_retry_after p error now) (details error class) in
        let over = settle s' settlement in
        elim event [
          | none ↦ (io_error (texts.display error), over)
          | some text ↦
              let full = push_chunk over (some (as_bytes text)) in
              pop_or (record full { close_after_pending_output = true }) pending
        ]

  abbrev pub early_end : String
  early_end = "stream closed before response.completed"

  abbrev pub early_event : ManagedResponseStream → DateTime → Option Bytes
  early_event s now =
      if saw_terminal_failure_event s.sse_state
      then none
      else bytes_of (
          synthetic_error_event_with_payload http_crate p texts now s.sse_state s.response_shape
            (payload_of (some "internal_server_error") (some early_end)))

  unfoldable pub on_end : ManagedResponseStream → DateTime → Poll × ManagedResponseStream
  unfolding as_bytes settle observe_eof take_terminal_passthrough_bytes
      synthetic_error_event_with_payload
  on_end s now =
      let (sse, output) =
        observe_eof http_crate p texts now s.sse_state s.response_shape s.pending_output in
      let seen = record s { sse_state = sse; pending_output = output } in
      let over : ManagedResponseStream = elim (terminal_action sse) [
        | some action ↦ settle seen action
        | none ↦
            let settled = settle seen (failure FailureClass.temporary_failure none early_end) in
            let taken = take_passthrough settled now in push_chunk taken (early_event taken now)
      ] in
      pop_or (record over { close_after_pending_output = true }) finished

  -- The stream after bytes of the upstream, and whether they ended the answer.
  unfoldable pub on_bytes : ManagedResponseStream → Bytes → DateTime → ManagedResponseStream × Bool
  unfolding settle observe_bytes
  on_bytes s bytes now =
      let (sse, output) =
        observe_bytes http_crate p texts now s.sse_state bytes s.response_shape s.pending_output in
      let seen = record s { sse_state = sse; pending_output = output } in
      elim (terminal_action sse) [
        | none ↦ (seen, false)
        | some action ↦ (record (settle seen action) { close_after_pending_output = true }, true)
      ]

  -- The loop of `poll_next`: it ends with the first output, or when the upstream has nothing ready.
  unfoldable pub poll_ready :
      ManagedResponseStream → List Ready → DateTime → Poll × ManagedResponseStream
  unfolding on_bytes on_error on_end
  poll_ready s [] now = (pending, s)
  poll_ready s (error_ready error ∷ ready) now = on_error s error now
  poll_ready s (end_ready ∷ ready) now = on_end s now
  poll_ready s (bytes_ready bytes ∷ ready) now =
      let (s', saw_terminal) = on_bytes s bytes now in
      let rest = poll_ready s' ready now in
      elim s'.pending_output [
        | first ∷ others ↦ (chunk first, record s' { pending_output = others })
        | [] ↦ if saw_terminal then (finished, s') else rest
      ]

  unfoldable pub poll_next : ManagedResponseStream → PollInput → Poll × ManagedResponseStream
  unfolding settle poll_ready
  poll_next s input = elim s.pending_output [
    | first ∷ others ↦ (chunk first, record s { pending_output = others })
    | [] ↦
        if s.close_after_pending_output
        then (finished, s)
        else if input.shutdown
        then (finished, settle s release)
        else poll_ready s input.ready input.now
  ]

-- `Drop`
unfoldable pub drop : ManagedResponseStream → ManagedResponseStream
unfolding settle
drop s = if s.settled then s else elim (terminal_action s.sse_state) [
  | some action ↦ settle s action
  | none ↦ settle s release
]
