-- ===== src/Normalization.antt =====
-- src/request_normalization.rs: the body of a request before it goes to the upstream.
pub mod Laws
use codaze.Prelude.{
  String, Bool, true, false, Option, none, some, List, [], ◌∷◌, if◌then◌else◌, and_then, ◌==◌, ◌||◌,
}
use codaze.Prelude.Result.{Result, ok, err}
use Prim.Native.String.{◌++◌ as append}
use codaze.Config.{FingerprintMode, normalize, passthrough}
use codaze.Models.{ModelsSnapshot, default_parallel_tool_calls}
use codaze.Semantics.Payload.{HeaderMap}
use codaze.Http.{HttpCrate, remove_header, insert_header}
use codaze.Json.{
  Value, null, float, bool, number, string, array, object, Items, nil, cons, Fields, end, field,
  get_field, as_str, one_field, one_item, set_field, or_insert, change_field, remove_field,
}

unfoldable pub normalize_builtin_tool_type : String → Option String
normalize_builtin_tool_type tool_type =
    if tool_type == "web_search_preview" || tool_type == "web_search_preview_2025_03_11"
    then some "web_search"
    else none

unfoldable pub normalize_builtin_tool_alias_type : Value → Value
unfolding normalize_builtin_tool_type
normalize_builtin_tool_alias_type value =
    elim (and_then (as_str value) normalize_builtin_tool_type) [
      | none ↦ value
      | some normalized ↦ string normalized
    ]

unfoldable pub normalize_builtin_tool_alias : Value → Value
unfolding normalize_builtin_tool_alias_type change_field
normalize_builtin_tool_alias (object tool) =
    object (change_field "type" normalize_builtin_tool_alias_type tool)
normalize_builtin_tool_alias value = value

unfoldable pub map_items : (Value → Value) → Items → Items
map_items f nil = nil
map_items f (cons v rest) = cons (f v) (map_items f rest)

-- `normalize_builtin_tool_aliases_at_path`, at a value that is there
unfoldable pub normalize_builtin_tool_aliases : Value → Value
unfolding normalize_builtin_tool_alias map_items
normalize_builtin_tool_aliases (array tools) = array (map_items normalize_builtin_tool_alias tools)
normalize_builtin_tool_aliases value = value

unfoldable pub normalize_builtin_tool_choice_string : String → Value
unfolding normalize_builtin_tool_type
normalize_builtin_tool_choice_string tool_type =
    elim (if tool_type == "web_search"
      then some "web_search"
      else normalize_builtin_tool_type tool_type) [
        | none ↦ string tool_type
        | some normalized ↦ object (one_field "type" (string normalized))
      ]

unfoldable pub normalize_tool_choice_aliases : Value → Value
unfolding normalize_builtin_tool_choice_string normalize_builtin_tool_aliases change_field
normalize_tool_choice_aliases (string tool_type) = normalize_builtin_tool_choice_string tool_type
normalize_tool_choice_aliases (object tool_choice) = object (
    change_field "tools" normalize_builtin_tool_aliases
      (change_field "type" normalize_builtin_tool_alias_type tool_choice))
normalize_tool_choice_aliases value = value

-- The parameters that the upstream does not take.
abbrev pub unsupported : List String
unsupported =
    "max_output_tokens" ∷ "max_completion_tokens" ∷ "temperature" ∷ "top_p" ∷ "truncation" ∷ "user"
    ∷ []

unfoldable pub remove_all : List String → Fields → Fields
remove_all [] fs = fs
remove_all (name ∷ names) fs = remove_all names (remove_field name fs)

abbrev pub is_priority : Option Value → Bool
is_priority (some (string tier)) = tier == "priority"
is_priority _ = false

abbrev pub keep_priority : Fields → Fields
keep_priority fs =
    if is_priority (get_field "service_tier" fs) then fs else remove_field "service_tier" fs

unfoldable pub normalize_non_codex_responses_compatibility : Fields → Fields
unfolding remove_all normalize_builtin_tool_aliases normalize_tool_choice_aliases
normalize_non_codex_responses_compatibility fs =
    change_field "tool_choice" normalize_tool_choice_aliases (
      change_field "tools" normalize_builtin_tool_aliases
        (keep_priority (remove_all unsupported fs)))

abbrev pub message_of : String → Value
message_of text = one_item (
    object (
      field "type" (string "message") (
        field "role" (string "user") (
          field "content"
            (one_item
              (object (field "type" (string "input_text") (one_field "text" (string text)))))
            end))))

unfoldable pub normalize_string_input_to_message : Fields → Fields
normalize_string_input_to_message fs = elim (and_then (get_field "input" fs) as_str) [
  | none ↦ fs
  | some text ↦ set_field "input" (message_of text) fs
]

unfoldable pub normalize_instructions_field : Fields → Fields
normalize_instructions_field fs = elim (get_field "instructions" fs) [
  | none ↦ set_field "instructions" (string "") fs
  | some value ↦ elim value [ null ↦ change_field "instructions" (λ v. string "") fs | _ ↦ fs ]
]

abbrev pub default_tool_calls : Option ModelsSnapshot → Fields → Value
default_tool_calls snapshot fs = bool (default_parallel_tool_calls (get_field "model" fs) snapshot)

-- The body after the changes for clients that are not Codex.
unfoldable pub compatible : Bool → Fields → Fields
compatible true fs = fs
compatible false fs =
    normalize_string_input_to_message (normalize_non_codex_responses_compatibility fs)

-- What the mode `normalize` adds to a body with instructions.
unfoldable pub with_defaults : Option ModelsSnapshot → Fields → Fields
with_defaults snapshot fs =
    or_insert "parallel_tool_calls" (default_tool_calls snapshot fs)
      (or_insert "store" (bool false) fs)

unfoldable pub normalize_responses_fields :
    FingerprintMode → Bool → Option ModelsSnapshot → Fields → Fields
unfolding compatible with_defaults
normalize_responses_fields passthrough codex_originator snapshot fs = compatible codex_originator fs
normalize_responses_fields normalize codex_originator snapshot fs =
    with_defaults snapshot (normalize_instructions_field (compatible codex_originator fs))

unfoldable pub normalize_responses_request_body :
    FingerprintMode → Bool → Option ModelsSnapshot → Value → Value
unfolding normalize_responses_fields
normalize_responses_request_body mode codex_originator snapshot (object fs) =
    object (normalize_responses_fields mode codex_originator snapshot fs)
normalize_responses_request_body mode codex_originator snapshot body = body

abbrev pub normalize_compact_fields :
    FingerprintMode → Bool → Option ModelsSnapshot → Fields → Fields
normalize_compact_fields mode codex_originator snapshot fs =
    let input = if codex_originator then fs else normalize_string_input_to_message fs in
    elim mode [
      | passthrough ↦ input
      | normalize ↦
          let with_instructions = normalize_instructions_field input in
          or_insert "parallel_tool_calls" (default_tool_calls snapshot with_instructions)
            with_instructions
    ]

unfoldable pub normalize_compact_request_body :
    FingerprintMode → Bool → Option ModelsSnapshot → Value → Value
unfolding normalize_string_input_to_message normalize_instructions_field
normalize_compact_request_body mode codex_originator snapshot (object fs) =
    object (normalize_compact_fields mode codex_originator snapshot fs)
normalize_compact_request_body mode codex_originator snapshot body = body

unfoldable pub json_type_name : Value → String
json_type_name null = "null"
json_type_name (bool b) = "boolean"
json_type_name (number n) = "number"
json_type_name (float text) = "number"
json_type_name (string s) = "string"
json_type_name (array items) = "array"
json_type_name (object fields) = "object"

-- `session_source` is what codex_protocol makes of a value: an error, or the text of the source.
module _ (http : HttpCrate) (session_source : Value → Result String String) where
  unfoldable pub apply_session_source_override :
      HeaderMap → Value → Result String (Unit {0}) × HeaderMap
  apply_session_source_override headers null =
      (ok tt, remove_header "x-codex-session-source" headers)
  apply_session_source_override headers source = elim (session_source source) [
    | err e ↦ (err e, headers)
    | ok encoded ↦ (ok tt, insert_header http "x-codex-session-source" encoded headers)
  ]

  unfoldable pub apply_override : HeaderMap → Option Value → Result String (Unit {0}) × HeaderMap
  unfolding apply_session_source_override
  apply_override headers none = (ok tt, headers)
  apply_override headers (some source) = apply_session_source_override headers source

  unfoldable pub apply_gateway : HeaderMap → Option Value → Result String (Unit {0}) × HeaderMap
  unfolding apply_override json_type_name
  apply_gateway headers none = (ok tt, headers)
  apply_gateway headers (some null) = (ok tt, headers)
  apply_gateway headers (some (object gateway)) =
      apply_override headers (get_field "session_source" gateway)
  apply_gateway headers (some other) =
      (err (append "_gateway must be null or object; got " (json_type_name other)), headers)

  -- The answer, the headers and the body.
  unfoldable pub apply_body_gateway_overrides :
      HeaderMap → Value → Result String (Unit {0}) × HeaderMap × Value
  unfolding apply_gateway
  apply_body_gateway_overrides headers (object fs) =
      let (answer, headers') = apply_gateway headers (get_field "_gateway" fs) in
      (answer, headers', object (remove_field "_gateway" fs))
  apply_body_gateway_overrides headers body = (ok tt, headers, body)
