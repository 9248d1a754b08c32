-- ===== src/Upstream/Headers.antt =====
-- src/upstream/headers.rs: the headers of a request to the upstream.
pub mod Laws
use Prim.Native.String.{◌++◌ as append}
use codaze.Prelude.{
  String, Bool, true, false, not, ◌&&◌, Option, none, some, List, [], ◌∷◌, if◌then◌else◌, and_then,
  ◌==◌,
}
use codaze.Prelude.Text.{trim}
use codaze.Config.{FingerprintMode, normalize, passthrough}
use codaze.Semantics.Payload.{HeaderMap, get_header}
use codaze.Http.{HttpCrate, copy_header, has_header, set_header, insert_header}
use codaze.Upstream.Fingerprint.{
  Codec, installation_id_header, turn_metadata_header, default_turn_metadata_value,
  merge_turn_metadata_thread_source, apply_compact_installation_id_header,
}

-- The sources of codex_protocol, as the matches of the program tell them apart.
pub data SubAgentSource : Type 0 where
  review compact memory_consolidation : SubAgentSource
  thread_spawn other : String → SubAgentSource

pub data SessionSource : Type 0 where
  sub_agent : SubAgentSource → SessionSource
  main_agent : SessionSource

-- What `GatewayAuth` answers.
pub record GatewayAuth : Type 0 where
  pub bearer_token : Option String
  pub account_id : Option String

unfoldable pub copy_headers : HeaderMap → List String → HeaderMap → HeaderMap
unfolding copy_header
copy_headers source [] dest = dest
copy_headers source (name ∷ names) dest = copy_headers source names (copy_header source name dest)

abbrev pub fingerprint_headers : List String
fingerprint_headers = "user-agent" ∷ "originator" ∷ "x-openai-internal-codex-residency" ∷ []

unfoldable pub extend_fingerprint_headers : HeaderMap → HeaderMap → FingerprintMode → HeaderMap
unfolding copy_headers
extend_fingerprint_headers source dest passthrough = copy_headers source fingerprint_headers dest
extend_fingerprint_headers source dest normalize = dest

abbrev pub context_headers : List String
context_headers =
    "session_id" ∷ "x-client-request-id" ∷ "x-codex-beta-features" ∷ "x-codex-turn-state"
    ∷ turn_metadata_header ∷ "x-responsesapi-include-timing-metrics" ∷ "traceparent" ∷ "tracestate"
    ∷ []

unfoldable pub extend_responses_context_headers : HeaderMap → HeaderMap → HeaderMap
unfolding copy_headers
extend_responses_context_headers source dest = copy_headers source context_headers dest

abbrev pub identity_headers : List String
identity_headers = "x-codex-window-id" ∷ "x-codex-parent-thread-id" ∷ "x-openai-subagent" ∷ []

unfoldable pub subagent_header_value : SessionSource → Option String
subagent_header_value main_agent = none
subagent_header_value (sub_agent review) = some "review"
subagent_header_value (sub_agent compact) = some "compact"
subagent_header_value (sub_agent memory_consolidation) = some "memory_consolidation"
subagent_header_value (sub_agent (thread_spawn parent)) = some "collab_spawn"
subagent_header_value (sub_agent (other label)) = some label

unfoldable pub parent_thread_id_header_value : SessionSource → Option String
parent_thread_id_header_value (sub_agent (thread_spawn parent)) = some parent
parent_thread_id_header_value source = none

-- `value.to_str().ok()` of the first value.
abbrev pub header_text : HeaderMap → String → Option String
header_text h name = and_then (get_header h name) (λ v. v)

-- `session_source` reads a source from a text, as serde_json and codex_protocol do.
module _ (http : HttpCrate) (c : Codec) (session_source : String → Option SessionSource) where
  unfoldable pub add_auth_headers_to_header_map : GatewayAuth → HeaderMap → HeaderMap
  unfolding insert_header
  add_auth_headers_to_header_map auth headers =
      let with_token : HeaderMap = elim auth.bearer_token [
        | none ↦ headers
        | some token ↦ insert_header http "authorization" (append "Bearer " token) headers
      ] in
      elim auth.account_id [
        | none ↦ with_token
        | some id ↦ insert_header http "chatgpt-account-id" id with_token
      ]

  unfoldable pub parse_session_source_header : HeaderMap → Option SessionSource
  unfolding trim
  parse_session_source_header source =
      and_then (header_text source "x-codex-session-source")
        (λ value. let raw = trim value in if raw == "" then none else session_source raw)

  -- `maybe_insert_..._from_session_source`, for a header and its value of a source.
  unfoldable pub maybe_insert_from_session_source :
      String → (SessionSource → Option String) → HeaderMap → HeaderMap → FingerprintMode → HeaderMap
  unfolding parse_session_source_header insert_header
  maybe_insert_from_session_source name value_of source dest passthrough = dest
  maybe_insert_from_session_source name value_of source dest normalize =
      if has_header dest name
      then dest
      else elim (and_then (parse_session_source_header source) value_of) [
        | none ↦ dest
        | some value ↦ insert_header http name value dest
      ]

  unfoldable pub maybe_insert_parent_thread_id_from_session_source :
      HeaderMap → HeaderMap → FingerprintMode → HeaderMap
  unfolding maybe_insert_from_session_source parent_thread_id_header_value
  maybe_insert_parent_thread_id_from_session_source source dest mode =
      maybe_insert_from_session_source "x-codex-parent-thread-id" parent_thread_id_header_value
        source dest mode

  unfoldable pub maybe_insert_subagent_from_session_source :
      HeaderMap → HeaderMap → FingerprintMode → HeaderMap
  unfolding maybe_insert_from_session_source subagent_header_value
  maybe_insert_subagent_from_session_source source dest mode =
      maybe_insert_from_session_source "x-openai-subagent" subagent_header_value source dest mode

  unfoldable pub extend_responses_identity_headers :
      HeaderMap → HeaderMap → FingerprintMode → HeaderMap
  unfolding copy_headers maybe_insert_parent_thread_id_from_session_source
      maybe_insert_subagent_from_session_source
  extend_responses_identity_headers source dest mode =
      let copied = copy_headers source identity_headers dest in
      let parent = maybe_insert_parent_thread_id_from_session_source source copied mode in
      maybe_insert_subagent_from_session_source source parent mode

  abbrev pub normalized_metadata : HeaderMap → Option String
  normalized_metadata headers = elim (header_text headers turn_metadata_header) [
    | some raw ↦ merge_turn_metadata_thread_source c raw
    | none ↦ some (default_turn_metadata_value c)
  ]

  unfoldable pub maybe_normalize_turn_metadata_header : HeaderMap → FingerprintMode → HeaderMap
  unfolding insert_header
  maybe_normalize_turn_metadata_header headers passthrough = headers
  maybe_normalize_turn_metadata_header headers normalize = elim (normalized_metadata headers) [
    | none ↦ headers
    | some value ↦ insert_header http turn_metadata_header value headers
  ]

  unfoldable pub maybe_copy_session_id_to_client_request_id : HeaderMap → HeaderMap → HeaderMap
  unfolding insert_header
  maybe_copy_session_id_to_client_request_id source dest = elim (header_text source "session_id") [
    | none ↦ dest
    | some value ↦ insert_header http "x-client-request-id" value dest
  ]

  -- The last step of each of the requests to /responses.
  unfoldable pub with_client_request_id : HeaderMap → HeaderMap → FingerprintMode → HeaderMap
  unfolding maybe_copy_session_id_to_client_request_id
  with_client_request_id source dest passthrough = dest
  with_client_request_id source dest normalize =
      if has_header dest "x-client-request-id"
      then dest
      else maybe_copy_session_id_to_client_request_id source dest

  unfoldable pub build_responses_extra_headers : HeaderMap → FingerprintMode → HeaderMap
  unfolding extend_fingerprint_headers extend_responses_context_headers
      extend_responses_identity_headers maybe_normalize_turn_metadata_header with_client_request_id
  build_responses_extra_headers incoming mode =
      let fingerprint = extend_fingerprint_headers incoming [] mode in
      let context = extend_responses_context_headers incoming fingerprint in
      let identity = extend_responses_identity_headers incoming context mode in
      with_client_request_id incoming (maybe_normalize_turn_metadata_header identity mode) mode

  abbrev copy_installation_id : HeaderMap → HeaderMap → FingerprintMode → HeaderMap
  copy_installation_id incoming dest passthrough = copy_header incoming installation_id_header dest
  copy_installation_id incoming dest normalize = dest

  unfoldable pub build_compact_extra_headers :
      HeaderMap → FingerprintMode → Option String → HeaderMap
  unfolding extend_fingerprint_headers extend_responses_context_headers
      extend_responses_identity_headers maybe_normalize_turn_metadata_header copy_header
      apply_compact_installation_id_header with_client_request_id
  build_compact_extra_headers incoming mode installation_id =
      let fingerprint = extend_fingerprint_headers incoming [] mode in
      let context = extend_responses_context_headers incoming fingerprint in
      let identity = extend_responses_identity_headers incoming context mode in
      let normalized = maybe_normalize_turn_metadata_header identity mode in
      let copied = copy_installation_id incoming normalized mode in
      let marked = apply_compact_installation_id_header http copied installation_id mode in
      with_client_request_id incoming marked mode

  unfoldable pub build_trace_extra_headers : HeaderMap → FingerprintMode → HeaderMap
  unfolding extend_fingerprint_headers copy_header maybe_insert_subagent_from_session_source
  build_trace_extra_headers incoming mode =
      let fingerprint = extend_fingerprint_headers incoming [] mode in
      let copied = copy_header incoming "x-openai-subagent" fingerprint in
      maybe_insert_subagent_from_session_source incoming copied mode

  unfoldable pub build_unary_extra_headers :
      String → HeaderMap → FingerprintMode → Option String → HeaderMap
  unfolding build_compact_extra_headers build_trace_extra_headers
  build_unary_extra_headers path incoming mode installation_id =
      if path == "responses/compact"
      then build_compact_extra_headers incoming mode installation_id
      else if path == "memories/trace_summarize"
      then build_trace_extra_headers incoming mode
      else []

  unfoldable pub build_models_extra_headers : HeaderMap → FingerprintMode → HeaderMap
  unfolding extend_fingerprint_headers
  build_models_extra_headers incoming mode = extend_fingerprint_headers incoming [] mode

  -- `defaults` are the headers of codex_login, `user_agent` what `build_codex_user_agent` answers.
  module _ (defaults : HeaderMap) (user_agent : String) where
    abbrev websocket_base : FingerprintMode → HeaderMap
    websocket_base passthrough = []
    websocket_base normalize = insert_header http "user-agent" user_agent defaults

    unfoldable pub build_responses_websocket_headers : HeaderMap → FingerprintMode → HeaderMap
    unfolding insert_header set_header copy_headers extend_responses_identity_headers
        maybe_normalize_turn_metadata_header extend_fingerprint_headers with_client_request_id
    build_responses_websocket_headers incoming mode =
        let context =
          copy_headers incoming
            ("session_id" ∷ "x-client-request-id" ∷ "x-codex-beta-features" ∷ "x-codex-turn-state"
              ∷ turn_metadata_header ∷ [])
            (websocket_base mode) in
        let identity = extend_responses_identity_headers incoming context mode in
        let traced =
          copy_headers incoming
            ("x-responsesapi-include-timing-metrics" ∷ "traceparent" ∷ "tracestate" ∷ [])
            (maybe_normalize_turn_metadata_header identity mode) in
        let fingerprint = extend_fingerprint_headers incoming traced mode in
        set_header "openai-beta" (some "responses_websockets=2026-02-06")
          (with_client_request_id incoming fingerprint mode)
