-- ===== src/Responses/Stream/Settles.antt =====
-- A streamed answer settles with the pool exactly once.
use codaze.Prelude.{
  String, Bool, true, false, Option, none, some, List, [], ◌∷◌, ◌++◌, ◌+◌, ◌≡◌, ◌∙◌, ap, sym, refl,
  arith, if◌then◌else◌, if-case, list-case, option-case, length, is_some,
}
use codaze.Prelude.Time.{DateTime}
use codaze.Classifier.{FailureClass}
use codaze.Semantics.Payload.{Parsers}
use codaze.Semantics.Analysis.{TransportError, classify_request_error}
use codaze.Failover.Step.{extract_retry_after}
use codaze.Failover.Settlement.{AccountSettlement, release, failure}
use codaze.Http.{HttpCrate}
use codaze.Models.{ResponseShape}
use codaze.Failure.{Texts}
use codaze.Responses.Lines.{Bytes}
use codaze.Responses.Sse.{
  observe_bytes, observe_eof, synthetic_transport_error_event, take_terminal_passthrough_bytes,
}
use codaze.Responses.Stream.{
  ManagedResponseStream, Ready, bytes_ready, error_ready, end_ready, Poll, pending, finished, chunk,
  io_error, PollInput, new, settle, terminal_action, pop_or, push_chunk, take_passthrough,
  early_event, early_end, on_error, on_end, on_bytes, poll_ready, poll_next, drop,
}

-- As many settlements as the flag says.
abbrev pub Settles : ManagedResponseStream → Type 0
Settles s = length s.settlements ≡ (if s.settled then 1 else 0)

length-append_one :
    (xs : List AccountSettlement) (x : AccountSettlement) → length (xs ++ (x ∷ [])) ≡ length xs + 1
length-append_one [] x = refl
length-append_one (y ∷ xs) x = let rest = length-append_one xs x in omega arith

settle-Settles :
    (s : ManagedResponseStream) (a : AccountSettlement) → Settles s → Settles (settle s a)
unfolding settle
settle-Settles s a h =
    if-case Settles s.settled s
      (record s { settled = true; settlements = s.settlements ++ (a ∷ []) }) (λ e. h)
      (λ e. length-append_one s.settlements a ∙ ap (λ n. n + 1) (rw e at h))

settle_once :
    (s : ManagedResponseStream) (a : AccountSettlement)
    → s.settled ≡ false
    → Settles s
    → length (settle s a).settlements ≡ 1
unfolding settle
settle_once s a unsettled h =
    if-case (λ (r : ManagedResponseStream). length r.settlements ≡ 1) s.settled s
      (record s { settled = true; settlements = s.settlements ++ (a ∷ []) })
      (λ e. let never = sym e ∙ unsettled in absurd (cc))
      (λ e. length-append_one s.settlements a ∙ ap (λ n. n + 1) (rw e at h))

push_chunk-Settles :
    (s : ManagedResponseStream) (bytes : Option Bytes) → Settles s → Settles (push_chunk s bytes)
push_chunk-Settles s none h = h
push_chunk-Settles s (some bytes) h = h

pop_or-Settles :
    (s : ManagedResponseStream) (otherwise : Poll) → Settles s → Settles (pop_or s otherwise).1
pop_or-Settles s otherwise h =
    list-case (λ (r : Poll × ManagedResponseStream). Settles r.1) s.pending_output (otherwise, s)
      (λ first rest. (chunk first, record s { pending_output = rest })) (λ e. h) (λ first rest. h)

module _ (http_crate : HttpCrate) (p : Parsers) (texts : Texts)
    (details : TransportError → FailureClass → String) where
  take_passthrough-Settles :
      (s : ManagedResponseStream) (now : DateTime)
      → Settles s
      → Settles (take_passthrough http_crate p texts details s now)
  take_passthrough-Settles s now h =
      let (sse, buffered) = take_terminal_passthrough_bytes http_crate p texts now s.sse_state in
      push_chunk-Settles (record s { sse_state = sse }) buffered h

  on_bytes-Settles :
      (s : ManagedResponseStream) (bytes : Bytes) (now : DateTime)
      → Settles s
      → Settles (on_bytes http_crate p texts details s bytes now).0
  unfolding on_bytes
  on_bytes-Settles s bytes now h =
      let (sse, output) =
        observe_bytes http_crate p texts now s.sse_state bytes s.response_shape s.pending_output in
      let seen = record s { sse_state = sse; pending_output = output } in
      option-case (λ (r : ManagedResponseStream × Bool). Settles r.0) (terminal_action sse)
        (seen, false)
        (λ action. (record (settle seen action) { close_after_pending_output = true }, true)) h
        (λ action e. settle-Settles seen action h)

  on_end-Settles :
      (s : ManagedResponseStream) (now : DateTime)
      → Settles s
      → Settles (on_end http_crate p texts details s now).1
  unfolding on_end
  on_end-Settles s now h =
      let (sse, output) =
        observe_eof http_crate p texts now s.sse_state s.response_shape s.pending_output in
      let seen = record s { sse_state = sse; pending_output = output } in
      let early =
        settle seen
          (failure FailureClass.temporary_failure none (early_end http_crate p texts details)) in
      let taken = take_passthrough http_crate p texts details early now in
      let cut = push_chunk taken (early_event http_crate p texts details taken now) in
      let over =
        option-case Settles (terminal_action sse) cut (λ action. settle seen action)
          (push_chunk-Settles taken (early_event http_crate p texts details taken now)
            (take_passthrough-Settles early now (settle-Settles seen _ h)))
          (λ action e. settle-Settles seen action h) in
      pop_or-Settles _ finished over

  on_error-Settles :
      (s : ManagedResponseStream) (error : TransportError) (now : DateTime)
      → Settles s
      → Settles (on_error http_crate p texts details s error now).1
  unfolding on_error
  on_error-Settles s error now h =
      let s' = take_passthrough http_crate p texts details s now in
      let class = classify_request_error p error now in
      let over =
        settle s' (failure class (extract_retry_after p error now) (details error class)) in
      let held = settle-Settles s' _ (take_passthrough-Settles s now h) in
      let P = λ (r : Poll × ManagedResponseStream). Settles r.1 in
      if-case P (is_some s.sse_state.terminal_state) (finished, s) _ (λ e. h)
        (λ e.
          option-case P
            (synthetic_transport_error_event http_crate p texts now s'.sse_state s'.response_shape
              error class)
            (io_error (texts.display error), over) _ held (λ text f. pop_or-Settles _ pending held))

  poll_ready-Settles :
      (s : ManagedResponseStream) (ready : List Ready) (now : DateTime)
      → Settles s
      → Settles (poll_ready http_crate p texts details s ready now).1
  unfolding poll_ready
  poll_ready-Settles s [] now h = h
  poll_ready-Settles s (error_ready error ∷ ready) now h = on_error-Settles s error now h
  poll_ready-Settles s (end_ready ∷ ready) now h = on_end-Settles s now h
  poll_ready-Settles s (bytes_ready bytes ∷ ready) now h =
      let (s', saw_terminal) = on_bytes http_crate p texts details s bytes now in
      let held = on_bytes-Settles s bytes now h in
      let rest = poll_ready-Settles s' ready now held in
      let P = λ (r : Poll × ManagedResponseStream). Settles r.1 in
      list-case P s'.pending_output
        (if saw_terminal
          then (finished, s')
          else poll_ready http_crate p texts details s' ready now)
        (λ first others. (chunk first, record s' { pending_output = others }))
        (λ empty.
          if-case P saw_terminal (finished, s') (poll_ready http_crate p texts details s' ready now)
            (λ e. held) (λ e. rest))
        (λ first others. held)

  pub poll_next-Settles :
      (s : ManagedResponseStream) (input : PollInput)
      → Settles s
      → Settles (poll_next http_crate p texts details s input).1
  unfolding poll_next
  poll_next-Settles s input h =
      let P = λ (r : Poll × ManagedResponseStream). Settles r.1 in
      let ready = poll_ready http_crate p texts details s input.ready input.now in
      list-case P s.pending_output
        (if s.close_after_pending_output
          then (finished, s)
          else if input.shutdown
          then (finished, settle s release)
          else ready)
        (λ first others. (chunk first, record s { pending_output = others }))
        (λ empty.
          if-case P s.close_after_pending_output (finished, s)
            (if input.shutdown then (finished, settle s release) else ready) (λ e. h)
            (λ e.
              if-case P input.shutdown (finished, settle s release) ready
                (λ f. settle-Settles s release h)
                (λ f. poll_ready-Settles s input.ready input.now h)))
        (λ first others. h)

  -- The stream after some polls.
  abbrev pub poll_all : ManagedResponseStream → List PollInput → ManagedResponseStream
  poll_all s [] = s
  poll_all s (input ∷ inputs) = poll_all (poll_next http_crate p texts details s input).1 inputs

  poll_all-Settles :
      (s : ManagedResponseStream) (inputs : List PollInput)
      → Settles s
      → Settles (poll_all s inputs)
  poll_all-Settles s [] h = h
  poll_all-Settles s (input ∷ inputs) h =
      poll_all-Settles (poll_next http_crate p texts details s input).1 inputs
        (poll_next-Settles s input h)

  drop-Settles : (s : ManagedResponseStream) → Settles s → length (drop s).settlements ≡ 1
  unfolding drop
  drop-Settles s h =
      let P = λ (r : ManagedResponseStream). length r.settlements ≡ 1 in
      if-case P s.settled s _ (λ e. rw e at h)
        (λ e.
          option-case P (terminal_action s.sse_state) (settle s release) (λ action. settle s action)
            (settle_once s release e h) (λ action f. settle_once s action e h))

  -- However an answer is polled, in whatever bytes, errors, ends and shutdowns come, and whenever it is
  -- dropped, the account that gave it has one settlement afterwards: none is lost, none is doubled.
  pub drop-poll_all :
      (shape : ResponseShape) (inputs : List PollInput)
      → length (drop (poll_all (new shape) inputs)).settlements ≡ 1
  drop-poll_all shape inputs =
      drop-Settles (poll_all (new shape) inputs) (poll_all-Settles (new shape) inputs refl)
