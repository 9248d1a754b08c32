-- ===== src/Responses/Sse/Laws.antt =====
-- No byte of a streamed answer is lost, and none is held back that ends an event.
use codaze.Prelude.{
  ℕ, zero, suc, ◌≤◌, String, none, some, List, [], ◌∷◌, ◌++◌, ◌≡◌, refl, ap, sym, ◌∙◌, arith,
  unwrap_or, or_else, and_then, Option-cases, Bool-cases, inl, inr, length, ◌==◌,
}
use mathlib.Core.Path.{subst}
use codaze.Prelude.Text.{split}
use codaze.Prelude.Utf8.{from_utf8_lossy}
use codaze.Prelude.Time.{DateTime}
use codaze.Semantics.Payload.{Parsers}
use codaze.Json.{Value, get, as_str}
use codaze.Http.{HttpCrate}
use codaze.Models.{ResponseShape}
use codaze.Failure.{Texts}
use codaze.Responses.Events.{ClassifiedEventFailure}
use codaze.Responses.Lines.{
  Bytes, find_sse_event_end, split_at, parse_event_lines, lines_of, newline,
}
use codaze.Responses.Sse.{
  ResponsesSseState, ResponsesTerminalState, consume_event, apply_event, fail_event, note_event,
  consume_events, json_of_event,
}

pub append_assoc : (a b c : Bytes) → (a ++ b) ++ c ≡ a ++ (b ++ c)
append_assoc [] b c = refl
append_assoc (x ∷ a) b c = ap (λ k. x ∷ k) (append_assoc a b c)

pub append_nil : (a : Bytes) → a ++ [] ≡ a
append_nil [] = refl
append_nil (x ∷ a) = ap (λ k. x ∷ k) (append_nil a)

abbrev pub concat : List Bytes → Bytes
concat [] = []
concat (chunk ∷ chunks) = chunk ++ concat chunks

pub concat-append :
    (chunks : List Bytes) (chunk : Bytes) → concat (chunks ++ (chunk ∷ [])) ≡ concat chunks ++ chunk
concat-append [] chunk = append_nil chunk
concat-append (first ∷ chunks) chunk =
    ap (λ k. first ++ k) (concat-append chunks chunk)
    ∙ sym (append_assoc first (concat chunks) chunk)

split_at-append : (n : ℕ) (bytes : Bytes) → (split_at n bytes).0 ++ (split_at n bytes).1 ≡ bytes
split_at-append zero bytes = refl
split_at-append (suc n) [] = refl
split_at-append (suc n) (b ∷ bytes) = ap (λ k. b ∷ k) (split_at-append n bytes)

pub length-split_at : (n : ℕ) (bytes : Bytes) → length (split_at n bytes).1 ≤ length bytes
length-split_at zero bytes = omega arith
length-split_at (suc n) [] = omega arith
length-split_at (suc n) (b ∷ bytes) = let rest = length-split_at n bytes in omega arith

-- What is delivered and held, as long as the answer goes on.
abbrev pub Conserves : ResponsesSseState × List Bytes → Bytes → Type 0
Conserves r total = r.0.terminal_state ≡ none → concat r.1 ++ r.0.buffer ≡ total

-- An event leaves the buffer alone, and goes on as it came as long as it ends nothing.
pub data PassesOn (s : ResponsesSseState) (bytes : Bytes) : ResponsesSseState × Bytes → Type 0 where
  passes :
      (r : ResponsesSseState × Bytes)
      → r.0.buffer ≡ s.buffer
      → (r.0.terminal_state ≡ none → r.1 ≡ bytes)
      → PassesOn s bytes r

pub PassesOn-buffer :
    (s : ResponsesSseState) (bytes : Bytes) (r : ResponsesSseState × Bytes)
    → PassesOn s bytes r
    → r.0.buffer ≡ s.buffer
PassesOn-buffer s bytes _ (passes r same delivered) = same

PassesOn-delivered :
    (s : ResponsesSseState) (bytes : Bytes) (r : ResponsesSseState × Bytes)
    → PassesOn s bytes r
    → r.0.terminal_state ≡ none
    → r.1 ≡ bytes
PassesOn-delivered s bytes _ (passes r same delivered) unended = delivered unended

module _ (http_crate : HttpCrate) (p : Parsers) (texts : Texts) (now : DateTime) where
  fail_event-PassesOn :
      (s : ResponsesSseState) (shape : ResponseShape) (kind : String) (json : Value) (bytes : Bytes)
      (c : ClassifiedEventFailure)
      → PassesOn s bytes (fail_event http_crate p texts now s shape kind json bytes c)
  unfolding fail_event
  fail_event-PassesOn s shape kind json bytes c = passes _ refl (λ never. absurd (cc))

  apply_event-PassesOn :
      (s : ResponsesSseState) (shape : ResponseShape) (kind : String) (json : Value) (bytes : Bytes)
      → PassesOn s bytes (apply_event http_crate p texts now s shape kind json bytes)
  unfolding apply_event
  apply_event-PassesOn s shape kind json bytes = elim (Bool-cases (kind == "response.completed")) [
    | inl e ↦ rw (e, apply_event) (passes _ refl (λ unended. refl))
    | inr e ↦ elim (Bool-cases (kind == "response.failed")) [
      | inl f ↦ rw (e, f, apply_event) (fail_event-PassesOn s shape kind json bytes _)
      | inr f ↦ elim (Bool-cases (kind == "error")) [
        | inl g ↦ rw (e, f, g, apply_event) (fail_event-PassesOn s shape kind json bytes _)
        | inr g ↦ elim (Bool-cases (kind == "response.incomplete")) [
          | inl h ↦ rw (e, f, g, h, apply_event) (passes _ refl (λ unended. refl))
          | inr h ↦ rw (e, f, g, h, apply_event) (passes _ refl (λ unended. refl))
        ]
      ]
    ]
  ]

  note_event-PassesOn :
      (s : ResponsesSseState) (json : Value) (bytes : Bytes) (r : ResponsesSseState × Bytes)
      → PassesOn (note_event http_crate p texts now s json) bytes r
      → PassesOn s bytes r
  unfolding note_event
  note_event-PassesOn s json bytes _ (passes r same delivered) = passes r same delivered

  pub consume_event-PassesOn :
      (s : ResponsesSseState) (shape : ResponseShape) (bytes : Bytes)
      → PassesOn s bytes (consume_event http_crate p texts now s shape bytes)
  unfolding consume_event
  consume_event-PassesOn s shape bytes =
      let (name, payload) =
        parse_event_lines (lines_of (split newline (from_utf8_lossy bytes))) none in
      elim (Option-cases (json_of_event http_crate p texts now payload)) [
        | inl e ↦ rw (e, consume_event) (passes _ refl (λ unended. refl))
        | inr (json, e) ↦
            let noted = note_event http_crate p texts now s json in
            rw (e, consume_event)
              (note_event-PassesOn s json bytes _ (
                apply_event-PassesOn noted shape
                  (unwrap_or (or_else name (and_then (get json "type") as_str)) "") json bytes))
      ]

  -- The first event of the buffer, what stands behind it, and what becomes of them.
  abbrev pub first_event : ResponsesSseState → ResponseShape → ℕ → ResponsesSseState × Bytes
  first_event s shape n =
      consume_event http_crate p texts now (record s { buffer = (split_at n s.buffer).1 }) shape
        (split_at n s.buffer).0

  pub consume_events_idle :
      (fuel : ℕ) (s : ResponsesSseState) (shape : ResponseShape) (output : List Bytes)
      → find_sse_event_end s.buffer ≡ none
      → consume_events http_crate p texts now (suc fuel) s shape output ≡ (s, output)
  unfolding consume_events
  consume_events_idle fuel s shape output e = rw (e, consume_events) refl

  pub consume_events_next :
      (fuel : ℕ) (s : ResponsesSseState) (shape : ResponseShape) (output : List Bytes) (n : ℕ)
      → find_sse_event_end s.buffer ≡ some n
      → (first_event s shape n).0.terminal_state ≡ none
      → consume_events http_crate p texts now (suc fuel) s shape output
        ≡ consume_events http_crate p texts now fuel
            (first_event s shape n).0
            shape
            (output ++ ((first_event s shape n).1 ∷ []))
  unfolding consume_events
  consume_events_next fuel s shape output n e f = rw (e, f, consume_events) refl

  pub consume_events_ended :
      (fuel : ℕ) (s : ResponsesSseState) (shape : ResponseShape) (output : List Bytes) (n : ℕ)
      (t : ResponsesTerminalState)
      → find_sse_event_end s.buffer ≡ some n
      → (first_event s shape n).0.terminal_state ≡ some t
      → let r = consume_events http_crate p texts now (suc fuel) s shape output in
        (r.0.terminal_state ≡ some t) × (r.0.buffer ≡ [])
  unfolding consume_events
  consume_events_ended fuel s shape output n t e f =
      (rw (e, f, consume_events) f, rw (e, f, consume_events) refl)

  first_event-bytes :
      (s : ResponsesSseState) (shape : ResponseShape) (output : List Bytes) (n : ℕ)
      → (first_event s shape n).0.terminal_state ≡ none
      → concat (output ++ ((first_event s shape n).1 ∷ [])) ++ (first_event s shape n).0.buffer
        ≡ concat output ++ s.buffer
  first_event-bytes s shape output n unended =
      let (event, rest) = split_at n s.buffer in
      let s' = record s { buffer = rest } in
      let passed = consume_event-PassesOn s' shape event in
      let same = PassesOn-buffer s' event (first_event s shape n) passed in
      let delivered = PassesOn-delivered s' event (first_event s shape n) passed unended in
      ap (λ k. k ++ (first_event s shape n).0.buffer)
        (concat-append output (first_event s shape n).1)
      ∙ ap (λ k. (concat output ++ k) ++ (first_event s shape n).0.buffer) delivered
      ∙ ap (λ k. (concat output ++ event) ++ k) same
      ∙ append_assoc (concat output) event rest
      ∙ ap (λ k. concat output ++ k) (split_at-append n s.buffer)

  consume_events-zero :
      (s : ResponsesSseState) (shape : ResponseShape) (output : List Bytes)
      → Conserves
          (consume_events http_crate p texts now zero s shape output)
          (concat output ++ s.buffer)
  unfolding consume_events
  consume_events-zero s shape output unended = refl

  pub consume_events-Conserves :
      (fuel : ℕ) (s : ResponsesSseState) (shape : ResponseShape) (output : List Bytes)
      → Conserves
          (consume_events http_crate p texts now fuel s shape output)
          (concat output ++ s.buffer)
  consume_events-Conserves zero s shape output = consume_events-zero s shape output
  consume_events-Conserves (suc fuel) s shape output =
      let total = concat output ++ s.buffer in
      elim (Option-cases (find_sse_event_end s.buffer)) [
        | inl e ↦
            subst (λ r. Conserves r total) (sym (consume_events_idle fuel s shape output e))
              (λ unended. refl)
        | inr (n, e) ↦ elim (Option-cases (first_event s shape n).0.terminal_state) [
          | inl f ↦
              let rest =
                consume_events-Conserves fuel (first_event s shape n).0 shape
                  (output ++ ((first_event s shape n).1 ∷ [])) in
              subst (λ r. Conserves r total) (sym (consume_events_next fuel s shape output n e f))
                (λ unended. rest unended ∙ first_event-bytes s shape output n f)
          | inr (t, f) ↦
              let (ended, emptied) = consume_events_ended fuel s shape output n t e f in
              λ unended. let never = sym ended ∙ unended in absurd (cc)
        ]
      ]
