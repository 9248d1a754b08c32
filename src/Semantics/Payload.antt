-- ===== src/Semantics/Payload.antt =====
-- src/error_semantics.rs: the payload of an error, and how long it asks to wait.
use Prim.Native.Char.{Char, code}
use Prim.Native.String.{len, slice}
use codaze.Prelude.{
  ℕ, ◌+◌, ◌-◌, ◌*◌, ◌/◌, String, Bool, ◌&&◌, ◌||◌, Option, none, some, List, [], ◌∷◌, if◌then◌else◌,
  or_else, unwrap_or, and_then, leb, ltb, nat_eq, ◌==◌,
}
use text.Mathlib.Text.{find?, starts_with}
use codaze.Prelude.Text.{trim, trim_start, to_ascii_lowercase}
use codaze.Prelude.Time.{DateTime, Duration, seconds, u64_max}
use codaze.Json.{ℤ, Value, get, as_str, as_i64}

pub record StructuredErrorPayload : Type 0 where
  pub code : Option String
  pub message : Option String
  pub error_type : Option String
  pub plan_type : Option String
  pub resets_at : Option ℤ
  pub resets_in_seconds : Option ℤ

abbrev pub default_payload : StructuredErrorPayload
default_payload = record {
  code = none;
  message = none;
  error_type = none;
  plan_type = none;
  resets_at = none;
  resets_in_seconds = none;
}

-- Of the crate http: names in lower case, and for each value what `to_str().ok()` answers.
abbrev pub HeaderMap : Type 0
HeaderMap = List (String × Option String)

-- `HeaderMap::get`: the first value of the name.
abbrev pub get_header : HeaderMap → String → Option (Option String)
get_header [] name = none
get_header ((n, v) ∷ h) name = if n == name then some v else get_header h name

pub data TimeUnit : Type 0 where
  millisecond second minute hour : TimeUnit

-- What the program calls of other crates, and its arithmetic on `f64`: serde_json's parser, chrono's
-- parser of dates, and `Duration::try_from_secs_f64` of a decimal number times a unit's seconds.
pub record Parsers : Type 0 where
  pub json : String → Option Value
  pub rfc2822 : String → Option DateTime
  pub scaled_seconds : String → TimeUnit → Option Duration

unfoldable pub parse_structured_error_value : Value → StructuredErrorPayload
parse_structured_error_value v = record {
  code = and_then (get v "code") as_str;
  message = and_then (get v "message") as_str;
  error_type = and_then (get v "type") as_str;
  plan_type = and_then (get v "plan_type") as_str;
  resets_at = and_then (get v "resets_at") as_i64;
  resets_in_seconds = and_then (get v "resets_in_seconds") as_i64;
}

-- `str::parse::<u64>`: digits, behind a `+` if there is one, and no more than 64 bits.
abbrev is_digit : Char → Bool
is_digit c = leb b'0' (code c) && leb (code c) b'9'

unfoldable pub digits_from : ℕ → String → Option ℕ
digits_from acc String.[] = if leb acc u64_max then some acc else none
digits_from acc (String.◌∷◌ c s) =
    let rest = digits_from (acc * 10 + (code c - b'0')) s in if is_digit c then rest else none

abbrev digits : String → Option ℕ
digits String.[] = none
digits (String.◌∷◌ c s) = digits_from 0 (String.◌∷◌ c s)

unfoldable pub parse_u64 : String → Option ℕ
unfolding digits_from
parse_u64 String.[] = none
parse_u64 (String.◌∷◌ c s) = if nat_eq (code c) b'+' then digits s else digits (String.◌∷◌ c s)

-- The leading digits and dots, and what follows them.
unfoldable pub split_number : String → String × String
split_number String.[] = ("", "")
split_number (String.◌∷◌ c s) =
    let (value, rest) = split_number s in
    if is_digit c || nat_eq (code c) b'.' then (String.◌∷◌ c value, rest) else ("", String.◌∷◌ c s)

unfoldable pub unit_of : String → TimeUnit
unit_of s =
    if starts_with s "millisecond" || starts_with s "msec" || starts_with s "ms"
    then millisecond
    else if starts_with s "m"
    then minute
    else if starts_with s "h"
    then hour
    else second

module _ (p : Parsers) where
  unfoldable pub parse_structured_error_body : Option String → StructuredErrorPayload
  unfolding parse_structured_error_value
  parse_structured_error_body none = default_payload
  parse_structured_error_body (some body) = elim (p.json body) [
    | none ↦ default_payload
    | some json ↦ parse_structured_error_value (unwrap_or (get json "error") json)
  ]

  unfoldable pub parse_retry_after_str : String → DateTime → Option Duration
  unfolding parse_u64
  parse_retry_after_str value now = elim (parse_u64 value) [
    | some n ↦ some (seconds n)
    | none ↦ and_then (p.rfc2822 value) (λ t. if leb now t then some (t - now) else none)
  ]

  unfoldable pub parse_retry_after_header : Option HeaderMap → DateTime → Option Duration
  unfolding parse_retry_after_str trim
  parse_retry_after_header headers now = and_then headers (λ h.
      and_then (get_header h "retry-after")
        (λ v. and_then v (λ s. parse_retry_after_str (trim s) now)))

  -- `now.timestamp()` counts whole seconds.
  abbrev until_reset : ℤ → DateTime → Option Duration
  until_reset (ℤ.pos n) now =
      let current = now / seconds 1 in if ltb current n then some (seconds (n - current)) else none
  until_reset (ℤ.negsuc n) now = none

  abbrev positive_seconds : ℤ → Option Duration
  positive_seconds (ℤ.pos n) = if ltb 0 n then some (seconds n) else none
  positive_seconds (ℤ.negsuc n) = none

  unfoldable pub parse_resets_retry_after_payload :
      StructuredErrorPayload → DateTime → Option Duration
  parse_resets_retry_after_payload payload now =
      or_else (and_then payload.resets_at (λ n. until_reset n now))
        (and_then payload.resets_in_seconds positive_seconds)

  unfoldable pub parse_retry_after_message : String → Option Duration
  unfolding to_ascii_lowercase trim_start split_number unit_of
  parse_retry_after_message message =
      let lowered = to_ascii_lowercase message in
      and_then (find? lowered "try again in") (λ i.
        let (value, rest) =
          split_number (trim_start (slice lowered (i + len "try again in") (len lowered))) in
        if value == "" then none else p.scaled_seconds value (unit_of (trim_start rest)))
