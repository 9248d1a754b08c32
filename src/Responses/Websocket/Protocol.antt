-- ===== src/Responses/Websocket/Protocol.antt =====
-- src/responses/websocket/protocol.rs: what a message is, and how it changes on its way.
use codaze.Prelude.{
  ℕ, String, Bool, true, false, not, ◌&&◌, Option, none, some, List, [], ◌∷◌, if◌then◌else◌,
  and_then, contains,
}
use codaze.Config.{FingerprintMode, normalize, passthrough}
use codaze.Models.{ModelsSnapshot}
use codaze.Normalization.{normalize_responses_request_body}
use codaze.Semantics.Analysis.{is_text}
use codaze.Json.{
  ℤ, Value, float, number, string, object, Fields, field, get, as_str, get_field, set_field,
  change_field, one_field,
}
use codaze.Upstream.Fingerprint.{
  Codec, apply_client_metadata_installation_id, apply_client_metadata_user_thread_source,
}

-- The codes of tungstenite, as the matches of the program tell them apart.
pub data CloseCode : Type 0 where
  normal_close away status_close abnormal tls : CloseCode
  reserved bad assigned : ℕ → CloseCode

pub record CloseFrame (C : Type 0) : Type 0 where
  pub code : C
  pub reason : String

-- `TungsteniteMessage` over the codes `CloseCode`, `AxumWsMessage` over numbers. Only the first has
-- raw frames.
pub data Message (C : Type 0) : Type 0 where
  text : String → Message C
  binary ping pong raw_frame : List ℕ → Message C
  close : Option (CloseFrame C) → Message C

unfoldable pub is_wire_legal_close_code : CloseCode → Bool
is_wire_legal_close_code status_close = false
is_wire_legal_close_code abnormal = false
is_wire_legal_close_code tls = false
is_wire_legal_close_code (reserved n) = false
is_wire_legal_close_code (bad n) = false
is_wire_legal_close_code _ = true

-- `CloseCode::from(u16)` and `u16::from(CloseCode)`
pub record CloseCodes : Type 0 where
  pub of_number : ℕ → CloseCode
  pub to_number : CloseCode → ℕ

module _ (codes : CloseCodes) where
  unfoldable pub sanitize_client_close_frame_for_upstream :
      CloseFrame ℕ → Option (CloseFrame CloseCode)
  unfolding is_wire_legal_close_code
  sanitize_client_close_frame_for_upstream frame =
      let code = codes.of_number frame.code in
      if is_wire_legal_close_code code
      then some record { code = code; reason = frame.reason }
      else none

  unfoldable pub sanitize_upstream_close_frame_for_client :
      CloseFrame CloseCode → Option (CloseFrame ℕ)
  unfolding is_wire_legal_close_code
  sanitize_upstream_close_frame_for_client frame =
      if is_wire_legal_close_code frame.code
      then some record { code = codes.to_number frame.code; reason = frame.reason }
      else none

  -- A client sends no raw frames.
  unfoldable pub map_client_message_to_upstream : Message ℕ → Option (Message CloseCode)
  unfolding sanitize_client_close_frame_for_upstream
  map_client_message_to_upstream (text t) = some (text t)
  map_client_message_to_upstream (binary bytes) = some (binary bytes)
  map_client_message_to_upstream (ping bytes) = some (ping bytes)
  map_client_message_to_upstream (pong bytes) = some (pong bytes)
  map_client_message_to_upstream (raw_frame bytes) = none
  map_client_message_to_upstream (close frame) =
      some (close (and_then frame sanitize_client_close_frame_for_upstream))

  unfoldable pub map_upstream_message_to_client : Message CloseCode → Option (Message ℕ)
  unfolding sanitize_upstream_close_frame_for_client
  map_upstream_message_to_client (text t) = some (text t)
  map_upstream_message_to_client (binary bytes) = some (binary bytes)
  map_upstream_message_to_client (ping bytes) = some (ping bytes)
  map_upstream_message_to_client (pong bytes) = some (pong bytes)
  map_upstream_message_to_client (raw_frame bytes) = none
  map_upstream_message_to_client (close frame) =
      some (close (and_then frame sanitize_upstream_close_frame_for_client))

abbrev pub Upstream : Type 0
Upstream = Message CloseCode

unfoldable pub should_replay_client_message : Upstream → Bool
should_replay_client_message (text t) = true
should_replay_client_message (binary bytes) = true
should_replay_client_message _ = false

unfoldable pub should_buffer_upstream_message_before_commit : Upstream → Bool
should_buffer_upstream_message_before_commit (text t) = true
should_buffer_upstream_message_before_commit (binary bytes) = true
should_buffer_upstream_message_before_commit _ = false

abbrev pub connection_limit_code : String
connection_limit_code = "websocket_connection_limit_reached"

abbrev pub connection_limit_message : String
connection_limit_message =
    "Responses websocket connection limit reached (60 minutes). Create a new websocket connection to continue."

-- `type_of` is what `websocket_message_type` finds in an object.
abbrev pub type_of : Value → Option String
type_of json = and_then (get json "type") as_str

abbrev pub code_of : Value → Option String
code_of json = and_then (and_then (get json "error") (λ error. get error "code")) as_str

-- The types of messages that leave a request without an answer.
abbrev pub uncommitted_types : List String
uncommitted_types = "error" ∷ "response.failed" ∷ "response.incomplete" ∷ "codex.rate_limits" ∷ []

abbrev pub terminal_types : List String
terminal_types = "error" ∷ "response.failed" ∷ "response.incomplete" ∷ "response.completed" ∷ []

abbrev pub is_one_of : Option String → List String → Bool
is_one_of none types = false
is_one_of (some t) types = contains types t

abbrev pub zero_percent : Value → Value
zero_percent (object window) = object (set_field "used_percent" (float "0.0") window)
zero_percent window = window

abbrev zero_windows : Fields → Fields
zero_windows limits =
    change_field "secondary" zero_percent (change_field "primary" zero_percent limits)

module _ (c : Codec) where
  unfoldable pub websocket_message_type : String → Option String
  websocket_message_type t = and_then (c.decode t) type_of

  unfoldable pub is_responses_websocket_request_start : Upstream → Bool
  unfolding websocket_message_type
  is_responses_websocket_request_start (text t) =
      is_text (websocket_message_type t) "response.create"
  is_responses_websocket_request_start _ = false

  unfoldable pub upstream_message_commits_request : Upstream → Bool
  unfolding websocket_message_type
  upstream_message_commits_request (text t) =
      not (is_one_of (websocket_message_type t) uncommitted_types)
  upstream_message_commits_request (binary bytes) = true
  upstream_message_commits_request _ = false

  unfoldable pub upstream_message_is_terminal : Upstream → Bool
  unfolding websocket_message_type
  upstream_message_is_terminal (text t) = is_one_of (websocket_message_type t) terminal_types
  upstream_message_is_terminal (close frame) = true
  upstream_message_is_terminal _ = false

  unfoldable pub rewrite_previous_response_not_found_payload : String → Option String
  rewrite_previous_response_not_found_payload t = and_then (c.decode t) (λ json.
      if is_text (type_of json) "error" && is_text (code_of json) "previous_response_not_found"
      then some (
          c.encode (
            object (
              field "type" (string "error") (
                field "status" (number (ℤ.pos 400)) (
                  one_field "error" (
                    object (
                      field "type" (string "invalid_request_error") (
                        field "code" (string connection_limit_code)
                          (one_field "message" (string connection_limit_message))))))))))
      else none)

  unfoldable pub rewrite_previous_response_not_found_message : Upstream → Upstream
  unfolding rewrite_previous_response_not_found_payload
  rewrite_previous_response_not_found_message (text t) =
      elim (rewrite_previous_response_not_found_payload t) [
        | none ↦ text t
        | some rewritten ↦ text rewritten
      ]
  rewrite_previous_response_not_found_message message = message

  unfoldable pub websocket_wrapped_error_has_code : Upstream → String → Bool
  websocket_wrapped_error_has_code (text t) expected =
      is_text (and_then (c.decode t) code_of) expected
  websocket_wrapped_error_has_code _ expected = false

  unfoldable pub should_passthrough_retryable_websocket_reset : Bool → Upstream → Bool
  unfolding websocket_wrapped_error_has_code
  should_passthrough_retryable_websocket_reset pending message =
      pending && websocket_wrapped_error_has_code message connection_limit_code

  -- An event of the limits, with both windows unused.
  unfoldable pub reset_rate_limits : Value → Option Value
  unfolding change_field set_field
  reset_rate_limits (object fields) =
      if is_text (type_of (object fields)) "codex.rate_limits"
      then elim (get_field "rate_limits" fields) [
        | none ↦ none
        | some limits ↦ elim limits [
          | object windows ↦
              some (object (set_field "rate_limits" (object (zero_windows windows)) fields))
          | _ ↦ none
        ]
      ]
      else none
  reset_rate_limits json = none

  unfoldable pub normalize_rate_limit_event_payload : String → Option String
  unfolding reset_rate_limits
  normalize_rate_limit_event_payload t =
      and_then (and_then (c.decode t) reset_rate_limits) (λ json. some (c.encode json))

  unfoldable pub normalize_websocket_rate_limit_message : Upstream → Bool → Option Upstream
  unfolding websocket_message_type normalize_rate_limit_event_payload
  normalize_websocket_rate_limit_message (text t) codex_originator =
      if is_text (websocket_message_type t) "codex.rate_limits"
      then if codex_originator
        then elim (normalize_rate_limit_event_payload t) [
          | none ↦ some (text t)
          | some normalized ↦ some (text normalized)
        ]
        else none
      else some (text t)
  normalize_websocket_rate_limit_message message codex_originator = some message

  -- The marks of the mode `normalize`.
  unfoldable pub marked : FingerprintMode → Option String → Value → Value
  unfolding apply_client_metadata_user_thread_source apply_client_metadata_installation_id
  marked passthrough id json = json
  marked normalize none json = (apply_client_metadata_user_thread_source c json).1
  marked normalize (some id) json =
      (apply_client_metadata_installation_id (apply_client_metadata_user_thread_source c json).1
        id).1

  -- `same` is the equality of JSON values.
  module _ (same : Value → Value → Bool) where
    unfoldable pub normalize_response_create_payload :
        String → FingerprintMode → Bool → Option ModelsSnapshot → Option String → Option String
    unfolding normalize_responses_request_body marked
    normalize_response_create_payload t mode codex_originator snapshot id =
        and_then (c.decode t) (λ original.
          let body =
            marked mode id
              (normalize_responses_request_body mode codex_originator snapshot original) in
          if is_text (type_of original) "response.create" && not (same body original)
          then some (c.encode body)
          else none)

    unfoldable pub normalize_response_create_message :
        Upstream → FingerprintMode → Bool → Option ModelsSnapshot → Option String → Upstream
    unfolding normalize_response_create_payload
    normalize_response_create_message (text t) mode codex_originator snapshot id =
        elim (normalize_response_create_payload t mode codex_originator snapshot id) [
          | none ↦ text t
          | some normalized ↦ text normalized
        ]
    normalize_response_create_message message mode codex_originator snapshot id = message
