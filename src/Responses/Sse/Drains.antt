-- ===== src/Responses/Sse/Drains.antt =====
-- Fuel for the length of the buffer is enough to take every whole event from it.
use codaze.Prelude.{
  ℕ, zero, suc, ◌+◌, ◌≤◌, Option, none, some, List, [], ◌∷◌, ◌++◌, ◌≡◌, refl, ap, sym, ◌∙◌, arith,
  Option-cases, Bool-cases, inl, inr, length,
}
use mathlib.Core.Path.{subst}
use codaze.Prelude.Time.{DateTime}
use codaze.Semantics.Payload.{Parsers}
use codaze.Http.{HttpCrate}
use codaze.Models.{ResponseShape}
use codaze.Failure.{Texts}
use codaze.Responses.Lines.{
  Bytes, find_sse_event_end, add_to, split_at, begins, blank_line, blank_line_crlf,
}
use codaze.Responses.Sse.{ResponsesSseState, consume_events, consume_buffered_events}
use codaze.Responses.Sse.Laws.{
  length-split_at, first_event, consume_event-PassesOn, PassesOn-buffer, consume_events_idle,
  consume_events_next, consume_events_ended,
}

add_to-suc : (o : Option ℕ) (n : ℕ) → add_to 1 o ≡ some n → (m : ℕ) × (n ≡ suc m)
add_to-suc none n e = absurd (cc)
add_to-suc (some m) n e = (m, ground arith)

-- An event takes a byte or more.
find_sse_event_end-suc :
    (b : ℕ) (bytes : Bytes) (n : ℕ)
    → find_sse_event_end (b ∷ bytes) ≡ some n
    → (m : ℕ) × (n ≡ suc m)
unfolding find_sse_event_end
find_sse_event_end-suc b bytes n e = elim (Bool-cases (begins (b ∷ bytes) blank_line)) [
  | inl two ↦ (1, let f = rw two at e in ground arith)
  | inr other ↦ elim (Bool-cases (begins (b ∷ bytes) blank_line_crlf)) [
    | inl four ↦ (3, let f = rw (other, four) at e in ground arith)
    | inr later ↦ add_to-suc (find_sse_event_end bytes) n (rw (other, later) at e)
  ]
]

split_at-shorter :
    (bytes : Bytes) (n : ℕ)
    → find_sse_event_end bytes ≡ some n
    → length (split_at n bytes).1 + 1 ≤ length bytes
unfolding find_sse_event_end
split_at-shorter [] n e = absurd (cc)
split_at-shorter (b ∷ bytes) n e =
    let (m, is_suc) = find_sse_event_end-suc b bytes n e in
    let rest = length-split_at m bytes in
    subst (λ k. length (split_at k (b ∷ bytes)).1 + 1 ≤ length (b ∷ bytes)) (sym is_suc)
      (omega arith)

List-empty : (bytes : Bytes) → length bytes ≤ 0 → bytes ≡ []
List-empty [] h = refl
List-empty (b ∷ bytes) h = absurd (omega arith)

module _ (http_crate : HttpCrate) (p : Parsers) (texts : Texts) (now : DateTime) where
  abbrev Drained : ResponsesSseState × List Bytes → Type 0
  Drained r = find_sse_event_end r.0.buffer ≡ none

  none_in_nil : find_sse_event_end [] ≡ none
  unfolding find_sse_event_end
  none_in_nil = refl

  consume_events_empty :
      (s : ResponsesSseState) (shape : ResponseShape) (output : List Bytes)
      → s.buffer ≡ []
      → Drained (consume_events http_crate p texts now zero s shape output)
  unfolding consume_events
  consume_events_empty s shape output empty = ap find_sse_event_end empty ∙ none_in_nil

  consume_events-Drained :
      (fuel : ℕ) (s : ResponsesSseState) (shape : ResponseShape) (output : List Bytes)
      → length s.buffer ≤ fuel
      → Drained (consume_events http_crate p texts now fuel s shape output)
  consume_events-Drained zero s shape output enough =
      consume_events_empty s shape output (List-empty s.buffer (omega arith))
  consume_events-Drained (suc fuel) s shape output enough =
      elim (Option-cases (find_sse_event_end s.buffer)) [
        | inl e ↦
            subst Drained (sym (consume_events_idle http_crate p texts now fuel s shape output e)) e
        | inr (n, e) ↦
            let r = first_event http_crate p texts now s shape n in
            let rest = (split_at n s.buffer).1 in
            let same : r.0.buffer ≡ rest =
              PassesOn-buffer (record s { buffer = rest }) (split_at n s.buffer).0 r
                (consume_event-PassesOn http_crate p texts now (record s { buffer = rest }) shape
                  (split_at n s.buffer).0) in
            let shorter = split_at-shorter s.buffer n e in
            let size = ap length same in
            let later =
              consume_events-Drained fuel r.0 shape (output ++ (r.1 ∷ [])) (omega arith) in
            elim (Option-cases r.0.terminal_state) [
              | inl f ↦
                  subst Drained
                    (sym (consume_events_next http_crate p texts now fuel s shape output n e f))
                    later
              | inr (t, f) ↦
                  let (ended, emptied) =
                    consume_events_ended http_crate p texts now fuel s shape output n t e f in
                  ap find_sse_event_end emptied ∙ none_in_nil
            ]
      ]

  -- After the loop, no whole event is left in the buffer, whatever it held: none waits for bytes that
  -- are still to come.
  pub find_sse_event_end-consume_buffered_events :
      (s : ResponsesSseState) (shape : ResponseShape) (output : List Bytes)
      → find_sse_event_end (consume_buffered_events http_crate p texts now s shape output).0.buffer
        ≡ none
  unfolding consume_buffered_events
  find_sse_event_end-consume_buffered_events s shape output =
      consume_events-Drained (length s.buffer) s shape output (omega arith)
