-- ===== src/Upstream/Requests/Account.antt =====
-- A request of src/upstream/http.rs is that of its account.
use Prim.Native.String.{◌++◌ as append}
use codaze.Prelude.{String, Option, none, some, [], ◌∷◌, ◌≡◌, ◌∙◌, ap}
use codaze.Accounts.Types.{UpstreamAccount}
use codaze.Json.{Value}
use codaze.Semantics.Payload.{HeaderMap}
use codaze.Http.{HttpCrate, get_all, insert_header, set_header}
use codaze.Http.Laws.{get_all-set_header}
use codaze.Upstream.Fingerprint.{Codec}
use codaze.Upstream.Headers.{
  SessionSource, build_responses_extra_headers, add_auth_headers_to_header_map,
}
use codaze.Upstream.Requests.{
  Request, Method, UpstreamClient, Provider, extend_headers, make_request, post_responses_json,
  post_json, get_models, stream_json, configure_responses_stream_request,
  apply_http_request_timeout, append_client_version_query, build_request, gateway_auth,
}
use codaze.Upstream.Requests.Values.{insert_header-set_header}

-- One value of each of the two headers that name an account.
abbrev pub IsOf : Option String → Option String → Request → Type 0
IsOf bearer id request =
    (get_all request.headers "authorization" ≡ ("authorization", bearer) ∷ [])
    × (get_all request.headers "chatgpt-account-id" ≡ ("chatgpt-account-id", id) ∷ [])

module _ (http : HttpCrate) (c : Codec) (session_source : String → Option SessionSource)
    (account : UpstreamAccount) {id : String} {bearer id_value : Option String}
    (valid : http.header_value (append "Bearer " account.access_token) ≡ some bearer)
    (has_id : account.chatgpt_account_id ≡ some id)
    (valid_id : http.header_value id ≡ some id_value) where
  make_request-IsOf :
      (provider : Provider) (method : Method) (path : String) (extra : HeaderMap)
      (body : Option Value)
      → IsOf bearer id_value (
          make_request http c session_source provider (gateway_auth account) method path extra body)
  unfolding make_request add_auth_headers_to_header_map build_request
  make_request-IsOf provider method path extra body =
      let headers = extend_headers provider.headers extra in
      let with_token = set_header "authorization" bearer headers in
      let inserted =
        ap (λ k. insert_header http "chatgpt-account-id" id k)
          (insert_header-set_header http "authorization" (append "Bearer " account.access_token)
            headers valid)
        ∙ insert_header-set_header http "chatgpt-account-id" id with_token valid_id in
      let values = get_all-set_header "chatgpt-account-id" id_value with_token in
      rw has_id (
        ap (λ k. get_all k "authorization") inserted
            ∙ values "authorization"
            ∙ get_all-set_header "authorization" bearer headers "authorization",
        ap (λ k. get_all k "chatgpt-account-id") inserted ∙ values "chatgpt-account-id",
      )

  stream-IsOf :
      (req : Request)
      → IsOf bearer id_value req
      → IsOf bearer id_value (configure_responses_stream_request req)
  unfolding configure_responses_stream_request
  stream-IsOf req (token, named) =
      let set = get_all-set_header "accept" (some "text/event-stream") req.headers in
      (set "authorization" ∙ token, set "chatgpt-account-id" ∙ named)

  -- If the account has an id, and its token and its id may stand in a header, then each of the four
  -- HTTP requests, as it is handed to the transport, carries the account's token and id, once and
  -- alone, in both modes and whatever `authorization` and `chatgpt-account-id` the client sends.
  pub requests-IsOf :
      (client : UpstreamClient) (path : String) (h : HeaderMap) (body : Value)
      → IsOf bearer id_value (post_responses_json http c session_source client account h body)
        × IsOf bearer id_value (post_json http c session_source client path account h body)
        × IsOf bearer id_value (get_models http c session_source client account h)
        × IsOf bearer id_value (stream_json http c session_source client path account h body)
  unfolding post_responses_json post_json get_models stream_json apply_http_request_timeout
      append_client_version_query
  requests-IsOf client path h body =
      let made = make_request-IsOf client.provider in
      let extra = build_responses_extra_headers http c session_source h client.fingerprint_mode in
      let request =
        make_request http c session_source client.provider (gateway_auth account) Method.post path
          extra none in
      (
        made Method.post "responses" _ none,
        made Method.post path _ none,
        made Method.get "models" _ none,
        stream-IsOf request (made Method.post path extra none),
      )
