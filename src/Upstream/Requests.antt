-- ===== src/Upstream/Requests.antt =====
-- src/upstream/http.rs and the `Provider` of src/upstream/mod.rs: the requests to the upstream, as they
-- are handed to the transport of codex_client.
pub mod Values
pub mod Laws
pub mod Account
use Prim.Native.Char.{Char, code}
use Prim.Native.String.{◌++◌ as append}
use codaze.Prelude.{
  String, Bool, not, Option, none, some, [], ◌++◌, if◌then◌else◌, keep_if, is_some, nat_eq,
}
use codaze.Prelude.Time.{Duration}
use codaze.Prelude.Text.{is_empty, contains_text}
use codaze.Accounts.Types.{UpstreamAccount}
use codaze.Config.{FingerprintMode}
use codaze.Json.{Value}
use codaze.Semantics.Payload.{HeaderMap, get_header}
use codaze.Http.{HttpCrate, has_header, set_header}
use codaze.Upstream.Fingerprint.{
  Codec, installation_id_for_account, apply_responses_installation_id,
}
use codaze.Upstream.Headers.{
  SessionSource, GatewayAuth, add_auth_headers_to_header_map, build_responses_extra_headers,
  build_unary_extra_headers, build_models_extra_headers,
}

pub data Method : Type 0 where
  get post : Method

pub data RequestCompression : Type 0 where
  uncompressed zstd : RequestCompression

-- The fields of codex_client's `Request` that the program sets; a body is JSON.
pub record Request : Type 0 where
  pub method : Method
  pub url : String
  pub headers : HeaderMap
  pub body : Option Value
  pub compression : RequestCompression
  pub timeout : Option Duration

-- How often a request is sent again is left to the network.
pub record Provider : Type 0 where
  pub base_url : String
  pub headers : HeaderMap

pub record UpstreamClient : Type 0 where
  pub provider : Provider
  pub codex_version : String
  pub fingerprint_mode : FingerprintMode
  pub unary_request_timeout : Option Duration
  pub stream_request_timeout : Option Duration

-- `trim_start_matches('/')`
unfoldable pub trim_start_slashes : String → String
trim_start_slashes String.[] = ""
trim_start_slashes (String.◌∷◌ c s) =
    if nat_eq (code c) b'/' then trim_start_slashes s else String.◌∷◌ c s

-- `trim_end_matches('/')`: a slash is dropped if nothing is left behind it.
abbrev keep_unless_last : Char → String → String
keep_unless_last c String.[] = if nat_eq (code c) b'/' then "" else String.◌∷◌ c ""
keep_unless_last c (String.◌∷◌ d s) = String.◌∷◌ c (String.◌∷◌ d s)

unfoldable pub trim_end_slashes : String → String
trim_end_slashes String.[] = ""
trim_end_slashes (String.◌∷◌ c s) = keep_unless_last c (trim_end_slashes s)

unfoldable pub build_request : Provider → Method → String → Request
unfolding trim_start_slashes trim_end_slashes
build_request provider method path =
    let base = trim_end_slashes provider.base_url in
    let tail = trim_start_slashes path in
    record {
      method = method;
      url = if is_empty tail then base else append base (append "/" tail);
      headers = provider.headers;
      body = none;
      compression = uncompressed;
      timeout = none;
    }

-- `HeaderMap::extend`: the values of a name of the second map take the place of the first's.
abbrev pub extend_headers : HeaderMap → HeaderMap → HeaderMap
extend_headers headers extra = keep_if (λ e. not (has_header extra e.0)) headers ++ extra

abbrev pub gateway_auth : UpstreamAccount → GatewayAuth
gateway_auth account = record {
  bearer_token = some account.access_token;
  account_id = account.chatgpt_account_id;
}

unfoldable pub append_client_version_query : Request → String → Request
append_client_version_query req client_version =
    let separator = if contains_text req.url "?" then "&" else "?" in
    record req { url = append req.url (append separator (append "client_version=" client_version)) }

unfoldable pub configure_responses_stream_request : Request → Request
unfolding set_header
configure_responses_stream_request req = record req {
  headers = set_header "accept" (some "text/event-stream") req.headers;
  compression = zstd;
}

unfoldable pub apply_http_request_timeout : Request → Option Duration → Request
apply_http_request_timeout req timeout = record req { timeout = timeout }

module _ (http : HttpCrate) (c : Codec) (session_source : String → Option SessionSource) where
  unfoldable pub make_request :
      Provider → GatewayAuth → Method → String → HeaderMap → Option Value → Request
  unfolding build_request add_auth_headers_to_header_map
  make_request provider auth method path extra_headers body =
      let req = build_request provider method path in
      let headers = extend_headers req.headers extra_headers in
      record req {
        headers = add_auth_headers_to_header_map http c session_source auth headers;
        body = body;
      }

  -- The request of `post_responses_json`.
  unfoldable pub post_responses_json :
      UpstreamClient → UpstreamAccount → HeaderMap → Value → Request
  unfolding apply_responses_installation_id installation_id_for_account
      build_responses_extra_headers make_request apply_http_request_timeout
  post_responses_json client account incoming body =
      let mode = client.fingerprint_mode in
      let id = installation_id_for_account c account mode in
      let marked = apply_responses_installation_id body id mode in
      let extra = build_responses_extra_headers http c session_source incoming mode in
      let req =
        make_request client.provider (gateway_auth account) post "responses" extra (some marked) in
      apply_http_request_timeout req client.unary_request_timeout

  -- The request of `post_json`.
  unfoldable pub post_json : UpstreamClient → String → UpstreamAccount → HeaderMap → Value → Request
  unfolding installation_id_for_account build_unary_extra_headers make_request
      apply_http_request_timeout
  post_json client path account incoming body =
      let mode = client.fingerprint_mode in
      let id = installation_id_for_account c account mode in
      let extra = build_unary_extra_headers http c session_source path incoming mode id in
      let req = make_request client.provider (gateway_auth account) post path extra (some body) in
      apply_http_request_timeout req client.unary_request_timeout

  -- The request of `get_models`.
  unfoldable pub get_models : UpstreamClient → UpstreamAccount → HeaderMap → Request
  unfolding build_models_extra_headers make_request apply_http_request_timeout
      append_client_version_query
  get_models client account incoming =
      let extra =
        build_models_extra_headers http c session_source incoming client.fingerprint_mode in
      let req = make_request client.provider (gateway_auth account) get "models" extra none in
      append_client_version_query (apply_http_request_timeout req client.unary_request_timeout)
        client.codex_version

  -- The request of `stream_json`.
  unfoldable pub stream_json :
      UpstreamClient → String → UpstreamAccount → HeaderMap → Value → Request
  unfolding apply_responses_installation_id installation_id_for_account
      build_responses_extra_headers make_request apply_http_request_timeout
      configure_responses_stream_request
  stream_json client path account incoming body =
      let mode = client.fingerprint_mode in
      let id = installation_id_for_account c account mode in
      let marked = apply_responses_installation_id body id mode in
      let extra = build_responses_extra_headers http c session_source incoming mode in
      let req = make_request client.provider (gateway_auth account) post path extra (some marked) in
      configure_responses_stream_request
        (apply_http_request_timeout req client.stream_request_timeout)
