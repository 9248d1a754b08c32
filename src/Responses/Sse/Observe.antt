-- ===== src/Responses/Sse/Observe.antt =====
-- Reading the bytes of a streamed answer: what goes on, what is held, and when the loop ends.
use codaze.Prelude.{
  ℕ, true, none, List, [], ◌∷◌, ◌++◌, ◌≡◌, refl, ap, sym, ◌∙◌, if-case, list-case, option-case,
  Bool-cases, ◌⊎◌, inl, inr, length, nat_eq,
}
use mathlib.Core.Path.{subst}
use codaze.Prelude.Time.{DateTime}
use codaze.Semantics.Payload.{Parsers}
use codaze.Http.{HttpCrate}
use codaze.Models.{ResponseShape}
use codaze.Failure.{Texts}
use codaze.Responses.Lines.{
  Bytes, SseLineStartMatch, full, partial, no_match, classify_sse_line_start, newline,
}
use codaze.Responses.Sse.{
  ResponsesSseState, consume_buffered_events, resolve_pending_line_start, scan_plain, hold,
  append_buffer, observe_plain, observe_open, observe_bytes, push_bytes,
}
use codaze.Responses.Sse.Laws.{
  append_assoc, append_nil, concat, concat-append, Conserves, consume_events-Conserves,
}

SseLineStartMatch-cases : (m : SseLineStartMatch) → (m ≡ full) ⊎ (m ≡ partial) ⊎ (m ≡ no_match)
SseLineStartMatch-cases full = inl refl
SseLineStartMatch-cases partial = inr (inl refl)
SseLineStartMatch-cases no_match = inr (inr refl)

concat-push_bytes :
    (http_crate : HttpCrate) (p : Parsers) (texts : Texts) (now : DateTime) (passed : Bytes)
    (output : List Bytes)
    → concat (push_bytes http_crate p texts now passed output) ≡ concat output ++ passed
concat-push_bytes http_crate p texts now [] output = sym (append_nil (concat output))
concat-push_bytes http_crate p texts now (b ∷ passed) output = concat-append output (b ∷ passed)

module _ (http_crate : HttpCrate) (p : Parsers) (texts : Texts) (now : DateTime) where
  consume_buffered_events-Conserves :
      (s : ResponsesSseState) (shape : ResponseShape) (output : List Bytes)
      → Conserves
          (consume_buffered_events http_crate p texts now s shape output)
          (concat output ++ s.buffer)
  unfolding consume_buffered_events
  consume_buffered_events-Conserves s shape output =
      consume_events-Conserves http_crate p texts now (length s.buffer) s shape output

  -- The plain bytes so far, and those that are held.
  hold-bytes :
      (s : ResponsesSseState) (passed bytes : Bytes) (output : List Bytes)
      → s.buffer ≡ []
      → concat (push_bytes http_crate p texts now passed output) ++ (s.buffer ++ bytes)
        ≡ concat output ++ (passed ++ bytes)
  hold-bytes s passed bytes output empty =
      ap (λ k. concat (push_bytes http_crate p texts now passed output) ++ (k ++ bytes)) empty
      ∙ ap (λ k. k ++ bytes) (concat-push_bytes http_crate p texts now passed output)
      ∙ append_assoc (concat output) passed bytes

  -- What `scan_plain` answers at a byte: the rest of the scan, or an event that begins.
  abbrev scan_rest :
      ResponsesSseState
      → Bytes
      → ℕ
      → Bytes
      → ResponseShape
      → List Bytes
      → ResponsesSseState × List Bytes
  scan_rest s passed b bytes shape output =
      scan_plain http_crate p texts now (record s { line_start = nat_eq b newline })
        (passed ++ (b ∷ [])) bytes shape output

  abbrev scan_event :
      ResponsesSseState
      → Bytes
      → Bytes
      → ResponseShape
      → List Bytes
      → ResponsesSseState × List Bytes
  scan_event s passed bytes shape output =
      consume_buffered_events http_crate p texts now
        (record (hold http_crate p texts now s passed bytes) { sse_mode = true }) shape
        (push_bytes http_crate p texts now passed output)

  scan_plain_cases :
      (P : ResponsesSseState × List Bytes → Type 0) (s : ResponsesSseState) (passed : Bytes) (b : ℕ)
      (bytes : Bytes) (shape : ResponseShape) (output : List Bytes)
      → P (scan_rest s passed b bytes shape output)
      → P (scan_event s passed (b ∷ bytes) shape output)
      → P (
        hold http_crate p texts now s passed (b ∷ bytes),
        push_bytes http_crate p texts now passed output,
      )
      → P (scan_plain http_crate p texts now s passed (b ∷ bytes) shape output)
  unfolding scan_plain
  scan_plain_cases P s passed b bytes shape output rest event held =
      elim (Bool-cases s.line_start) [
        | inr e ↦ rw (e, scan_plain) rest
        | inl e ↦ elim (SseLineStartMatch-cases (classify_sse_line_start (b ∷ bytes))) [
          | inl f ↦ rw (e, f, scan_plain) event
          | inr (inl f) ↦ rw (e, f, scan_plain) held
          | inr (inr f) ↦ rw (e, f, scan_plain) rest
        ]
      ]

  scan_plain-Conserves :
      (s : ResponsesSseState) (passed bytes : Bytes) (shape : ResponseShape) (output : List Bytes)
      → s.buffer ≡ []
      → Conserves
          (scan_plain http_crate p texts now s passed bytes shape output)
          (concat output ++ (passed ++ bytes))
  unfolding scan_plain
  scan_plain-Conserves s passed [] shape output empty =
      λ unended. hold-bytes s passed [] output empty
  scan_plain-Conserves s passed (b ∷ bytes) shape output empty =
      let total = concat output ++ (passed ++ (b ∷ bytes)) in
      let plain = record s { line_start = nat_eq b newline } in
      let rest = scan_plain-Conserves plain (passed ++ (b ∷ [])) bytes shape output empty in
      let held = hold-bytes s passed (b ∷ bytes) output empty in
      let event =
        consume_buffered_events-Conserves
          (record (hold http_crate p texts now s passed (b ∷ bytes)) { sse_mode = true }) shape
          (push_bytes http_crate p texts now passed output) in
      scan_plain_cases (λ r. Conserves r total) s passed b bytes shape output
        (λ unended.
          rest unended ∙ ap (λ k. concat output ++ k) (append_assoc passed (b ∷ []) bytes))
        (λ unended. event unended ∙ held) (λ unended. held)

  -- The bytes of a line that may begin an event: it begins one, all are held, or they go on.
  abbrev Resolved : ResponsesSseState × List Bytes × Bytes → Bytes → Type 0
  Resolved r total =
      (concat r.1 ++ (r.0.buffer ++ r.2) ≡ total)
      × ((r.0.sse_mode ≡ true) ⊎ (r.0.buffer ≡ []) ⊎ (r.2 ≡ []))

  resolve-Resolved :
      (s : ResponsesSseState) (bytes : Bytes) (output : List Bytes)
      → Resolved
          (resolve_pending_line_start http_crate p texts now s bytes output)
          (concat output ++ (s.buffer ++ bytes))
  unfolding resolve_pending_line_start
  resolve-Resolved s [] output = (refl, inr (inr refl))
  resolve-Resolved s (b ∷ bytes) output =
      let buffer = s.buffer ++ (b ∷ []) in
      let total = concat output ++ (s.buffer ++ (b ∷ bytes)) in
      let (later, kind) = resolve-Resolved (record s { buffer = buffer }) bytes output in
      let moved = ap (λ k. concat output ++ k) (append_assoc s.buffer (b ∷ []) bytes) in
      elim (SseLineStartMatch-cases (classify_sse_line_start buffer)) [
        | inl f ↦ rw (f, resolve_pending_line_start) (moved, inl refl)
        | inr (inl f) ↦ rw (f, resolve_pending_line_start) (later ∙ moved, kind)
        | inr (inr f) ↦
            rw (f, resolve_pending_line_start)
              (
                ap (λ k. k ++ bytes) (concat-append output buffer)
                    ∙ append_assoc (concat output) buffer bytes
                    ∙ moved,
                inr (inl refl),
              )
      ]

  scan_none :
      (s : ResponsesSseState) (shape : ResponseShape) (output : List Bytes)
      → Conserves
          (scan_plain http_crate p texts now s [] [] shape output)
          (concat output ++ (s.buffer ++ []))
  unfolding scan_plain
  scan_none s shape output unended = refl

  observe_plain-Conserves :
      (s : ResponsesSseState) (bytes : Bytes) (shape : ResponseShape) (output : List Bytes)
      → (s.sse_mode ≡ true) ⊎ (s.buffer ≡ []) ⊎ (bytes ≡ [])
      → Conserves
          (observe_plain http_crate p texts now s bytes shape output)
          (concat output ++ (s.buffer ++ bytes))
  observe_plain-Conserves s bytes shape output kind =
      let total = concat output ++ (s.buffer ++ bytes) in
      let events =
        consume_buffered_events-Conserves (append_buffer http_crate p texts now s bytes) shape
          output in
      if-case (λ r. Conserves r total) s.sse_mode
        (consume_buffered_events http_crate p texts now
          (append_buffer http_crate p texts now s bytes) shape output)
        (scan_plain http_crate p texts now s [] bytes shape output) (λ sse. events)
        (λ off. elim kind [
          | inl sse ↦ let never = sym off ∙ sse in absurd (cc)
          | inr (inl empty) ↦
              let plain = scan_plain-Conserves s [] bytes shape output empty in
              λ unended. plain unended ∙ ap (λ k. concat output ++ (k ++ bytes)) (sym empty)
          | inr (inr done) ↦
              subst
                (λ k.
                  Conserves (scan_plain http_crate p texts now s [] k shape output)
                    (concat output ++ (s.buffer ++ k)))
                (sym done) (scan_none s shape output)
        ])

  observe_open-Conserves :
      (s : ResponsesSseState) (bytes : Bytes) (shape : ResponseShape) (output : List Bytes)
      → Conserves
          (observe_open http_crate p texts now s bytes shape output)
          (concat output ++ (s.buffer ++ bytes))
  observe_open-Conserves s bytes shape output =
      let total = concat output ++ (s.buffer ++ bytes) in
      let plain = observe_plain http_crate p texts now s bytes shape output in
      let (resolved, output', rest) =
        resolve_pending_line_start http_crate p texts now s bytes output in
      let pending = observe_plain http_crate p texts now resolved rest shape output' in
      if-case (λ r. Conserves r total) s.sse_mode plain _
        (λ sse. observe_plain-Conserves s bytes shape output (inl sse))
        (λ off.
          list-case (λ r. Conserves r total) s.buffer plain (λ b more. pending)
            (λ empty. observe_plain-Conserves s bytes shape output (inr (inl empty)))
            (λ b more.
              let (same, kind) = resolve-Resolved s bytes output in
              let later = observe_plain-Conserves resolved rest shape output' kind in
              λ unended. later unended ∙ same))

  observe-Conserves :
      (s : ResponsesSseState) (bytes : Bytes) (shape : ResponseShape) (output : List Bytes)
      → Conserves
          (observe_bytes http_crate p texts now s bytes shape output)
          (concat output ++ (s.buffer ++ bytes))
  unfolding observe_bytes
  observe-Conserves s bytes shape output =
      let total = concat output ++ (s.buffer ++ bytes) in
      option-case (λ r. Conserves r total) s.terminal_state
        (observe_open http_crate p texts now s bytes shape output) (λ t. (s, output))
        (observe_open-Conserves s bytes shape output)
        (λ t e unended. let never = sym e ∙ unended in absurd (cc))

  -- As long as no event has ended the answer, every byte that came has gone on in its order, or is
  -- held in the buffer: the output so far with the buffer grows by the bytes that were read.
  pub observe_bytes-Conserves :
      (s : ResponsesSseState) (bytes : Bytes) (shape : ResponseShape) (output : List Bytes)
      → (observe_bytes http_crate p texts now s bytes shape output).0.terminal_state ≡ none
      → concat (observe_bytes http_crate p texts now s bytes shape output).1
          ++ (observe_bytes http_crate p texts now s bytes shape output).0.buffer
        ≡ concat output ++ (s.buffer ++ bytes)
  unfolding observe_bytes
  observe_bytes-Conserves s bytes shape output = observe-Conserves s bytes shape output
