-- ===== src/Tests/Stubs.antt =====
-- Other crates, as simple functions.
use codaze.Prelude.{ℕ, String, Option, none, some, if◌then◌else◌, ◌==◌}
use codaze.Prelude.Decimal.{show}
use codaze.Classifier.{FailureClass}
use codaze.Json.{Value, string, object, one_field}
use codaze.Semantics.Payload.{Parsers}
use codaze.Semantics.Analysis.{TransportError}
use codaze.Http.{HttpCrate}
use codaze.Failure.{Texts}
use codaze.Upstream.Fingerprint.{Codec}
use codaze.Upstream.Headers.{SessionSource}
use codaze.Responses.Websocket.Protocol.{CloseCodes, CloseCode, assigned}

abbrev pub plain_http : HttpCrate
plain_http = record { header_name = λ n. some n; header_value = λ t. some (some t) }

-- Two texts are JSON: an event that fails, and the end of an answer.
abbrev pub failed_text : String
failed_text = "{\"type\":\"error\"}"

abbrev pub completed_text : String
completed_text = "{\"type\":\"response.completed\"}"

abbrev pub decode_two : String → Option Value
decode_two t =
    if t == failed_text
    then some (object (one_field "type" (string "error")))
    else if t == completed_text
    then some (object (one_field "type" (string "response.completed")))
    else none

abbrev pub plain_codec : Codec
plain_codec = record { decode = decode_two; encode = λ v. "{}"; stable_installation_id = λ id. id }

abbrev pub two_parsers : Parsers
two_parsers = record { json = decode_two; rfc2822 = λ t. none; scaled_seconds = λ t u. none }

abbrev pub plain_texts : Texts
plain_texts = record {
  canonical_reason = λ status. none;
  display = λ error. "transport error";
  seconds_text = λ d. show d;
  encode = λ v. "{}";
}

abbrev pub plain_details : TransportError → FailureClass → String
plain_details error class = "failed"

abbrev pub no_source : String → Option SessionSource
no_source t = none

abbrev number_of : CloseCode → ℕ
number_of (assigned n) = n
number_of code = 1000

-- Each number is its own code.
abbrev pub plain_codes : CloseCodes
plain_codes = record { of_number = assigned; to_number = number_of }
