-- ===== src/Responses/Lines.antt =====
-- src/responses/stream.rs: the lines of a stream of events, its bytes and its blank lines.
use Prim.Native.Char.{Char, code}
use Prim.Native.String.{slice, len}
use codaze.Prelude.{
  ℕ, zero, suc, ◌+◌, String, Bool, true, false, ◌&&◌, Option, none, some, List, [], ◌∷◌,
  if◌then◌else◌, any, nat_eq, ◌==◌,
}
use codaze.Prelude.Text.{trim_start}
use codaze.Prelude.Utf8.{as_bytes}
use text.Mathlib.Text.{starts_with}

abbrev pub Bytes : Type 0
Bytes = List ℕ

pub data SseLineStartMatch : Type 0 where
  full partial no_match : SseLineStartMatch

abbrev pub newline : ℕ
newline = 10

abbrev pub carriage_return : ℕ
carriage_return = 13

-- `starts_with` of bytes
abbrev pub begins : Bytes → Bytes → Bool
begins bytes [] = true
begins [] (p ∷ prefix) = false
begins (b ∷ bytes) (p ∷ prefix) = nat_eq b p && begins bytes prefix

abbrev pub sse_line_prefixes : List Bytes
sse_line_prefixes =
    as_bytes "event:" ∷ as_bytes "data:" ∷ as_bytes "id:" ∷ as_bytes "retry:" ∷ as_bytes ":" ∷ []

unfoldable pub classify_sse_line_start : Bytes → SseLineStartMatch
unfolding as_bytes
classify_sse_line_start bytes =
    if any (begins bytes) sse_line_prefixes
    then full
    else if any (λ prefix. begins prefix bytes) sse_line_prefixes
    then partial
    else no_match

unfoldable pub line_start_after_bytes : Bool → Bytes → Bool
line_start_after_bytes line_start [] = line_start
line_start_after_bytes line_start (b ∷ bytes) = line_start_after_bytes (nat_eq b newline) bytes

abbrev pub blank_line : Bytes
blank_line = newline ∷ newline ∷ []

abbrev pub blank_line_crlf : Bytes
blank_line_crlf = carriage_return ∷ newline ∷ carriage_return ∷ newline ∷ []

abbrev pub add_to : ℕ → Option ℕ → Option ℕ
add_to n none = none
add_to n (some m) = some (n + m)

-- The index behind the first blank line.
unfoldable pub find_sse_event_end : Bytes → Option ℕ
find_sse_event_end [] = none
find_sse_event_end (b ∷ bytes) =
    let later = find_sse_event_end bytes in
    if begins (b ∷ bytes) blank_line
    then some 2
    else if begins (b ∷ bytes) blank_line_crlf
    then some 4
    else add_to 1 later

-- The first `n` bytes, and the others.
abbrev pub split_at : ℕ → Bytes → Bytes × Bytes
split_at zero bytes = ([], bytes)
split_at (suc n) [] = ([], [])
split_at (suc n) (b ∷ bytes) = let (front, back) = split_at n bytes in (b ∷ front, back)

-- `str::lines`: a last line that is empty is none. What follows drops the carriage returns that end
-- a line, the one that `lines` drops among them.
abbrev pub lines_of : List String → List String
lines_of [] = []
lines_of (line ∷ []) = if line == "" then [] else line ∷ []
lines_of (line ∷ next ∷ parts) = line ∷ lines_of (next ∷ parts)

-- `trim_end_matches('\r')`
abbrev keep_before : Char → String → String
keep_before c s = if nat_eq (code c) carriage_return && s == "" then "" else String.◌∷◌ c s

unfoldable pub trim_end_returns : String → String
trim_end_returns String.[] = ""
trim_end_returns (String.◌∷◌ c s) = keep_before c (trim_end_returns s)

abbrev pub strip_prefix : String → String → Option String
strip_prefix prefix line =
    if starts_with line prefix then some (slice line (len prefix) (len line)) else none

-- The name of an event, and its lines of data.
unfoldable pub parse_event_lines : List String → Option String → Option String × List String
unfolding trim_end_returns trim_start
parse_event_lines [] name = (name, [])
parse_event_lines (raw ∷ lines) name =
    let line = trim_end_returns raw in
    let name' : Option String = elim (strip_prefix "event:" line) [
      | none ↦ name
      | some found ↦ some (trim_start found)
    ] in
    let (last, payload) = parse_event_lines lines name' in
    elim (strip_prefix "data:" line) [
      | none ↦ (last, payload)
      | some found ↦ (last, trim_start found ∷ payload)
    ]
