-- ===== src/Upstream/Fingerprint.antt =====
-- src/upstream/fingerprint.rs: the identifier of an installation, and the source of a thread.
use codaze.Prelude.{String, Bool, true, false, Option, none, some, and_then}
use codaze.Accounts.Types.{UpstreamAccount}
use codaze.Config.{FingerprintMode, normalize, passthrough}
use codaze.Semantics.Payload.{HeaderMap}
use codaze.Http.{HttpCrate, set_header}
use codaze.Json.{
  Value, null, string, object, Fields, end, get_field, one_field, set_field, or_insert,
}

-- What the program calls of serde_json and uuid: `from_str`, `to_string`, and the hash of an
-- account's identifier in the program's namespace.
pub record Codec : Type 0 where
  pub decode : String → Option Value
  pub encode : Value → String
  pub stable_installation_id : String → String

abbrev pub installation_id_header : String
installation_id_header = "x-codex-installation-id"

abbrev pub turn_metadata_header : String
turn_metadata_header = "x-codex-turn-metadata"

module _ (c : Codec) where
  unfoldable pub installation_id_for_account : UpstreamAccount → FingerprintMode → Option String
  installation_id_for_account account passthrough = none
  installation_id_for_account account normalize = elim account.chatgpt_account_id [
    | none ↦ none
    | some id ↦ some (c.stable_installation_id id)
  ]

  unfoldable pub default_turn_metadata_value : String
  default_turn_metadata_value = c.encode (object (one_field "thread_source" (string "user")))

  unfoldable pub merged : Value → Option String
  merged (object fields) =
      some (c.encode (object (or_insert "thread_source" (string "user") fields)))
  merged value = none

  unfoldable pub merge_turn_metadata_thread_source : String → Option String
  unfolding merged
  merge_turn_metadata_thread_source raw = and_then (c.decode raw) merged

-- The object under `client_metadata`: a new one where there is none, or null.
unfoldable pub metadata_object : Option Value → Option Fields
metadata_object none = some end
metadata_object (some null) = some end
metadata_object (some (object fields)) = some fields
metadata_object (some value) = none

-- Each of the two answers whether it has set its mark; they change the body even where it has not.
unfoldable pub apply_client_metadata_installation_id : Value → String → Bool × Value
unfolding metadata_object
apply_client_metadata_installation_id (object fields) id =
    elim (metadata_object (get_field "client_metadata" fields)) [
      | none ↦ (false, object fields)
      | some metadata ↦
          let marked = set_field installation_id_header (string id) metadata in
          (true, object (set_field "client_metadata" (object marked) fields))
    ]
apply_client_metadata_installation_id root id = (false, root)

unfoldable pub apply_responses_installation_id : Value → Option String → FingerprintMode → Value
unfolding apply_client_metadata_installation_id
apply_responses_installation_id body id passthrough = body
apply_responses_installation_id body none normalize = body
apply_responses_installation_id body (some id) normalize =
    (apply_client_metadata_installation_id body id).1

unfoldable pub apply_compact_installation_id_header :
    HttpCrate → HeaderMap → Option String → FingerprintMode → HeaderMap
unfolding set_header
apply_compact_installation_id_header http headers id passthrough = headers
apply_compact_installation_id_header http headers none normalize = headers
apply_compact_installation_id_header http headers (some id) normalize =
    elim (http.header_value id) [
      | none ↦ headers
      | some value ↦ set_header installation_id_header value headers
    ]

module _ (c : Codec) where
  -- What becomes of the turn's metadata, if it is set.
  unfoldable pub turn_metadata : Option Value → Option String
  unfolding default_turn_metadata_value merge_turn_metadata_thread_source
  turn_metadata none = some (default_turn_metadata_value c)
  turn_metadata (some null) = some (default_turn_metadata_value c)
  turn_metadata (some (string raw)) = merge_turn_metadata_thread_source c raw
  turn_metadata (some value) = none

  unfoldable pub apply_client_metadata_user_thread_source : Value → Bool × Value
  unfolding metadata_object turn_metadata
  apply_client_metadata_user_thread_source (object fields) =
      elim (metadata_object (get_field "client_metadata" fields)) [
        | none ↦ (false, object fields)
        | some metadata ↦ elim (turn_metadata (get_field turn_metadata_header metadata)) [
          | none ↦ (false, object (set_field "client_metadata" (object metadata) fields))
          | some text ↦
              let marked = set_field turn_metadata_header (string text) metadata in
              (true, object (set_field "client_metadata" (object marked) fields))
        ]
      ]
  apply_client_metadata_user_thread_source root = (false, root)
