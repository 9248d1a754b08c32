-- ===== src/Upstream/Requests/Laws.antt =====
-- Which headers of a client a request of src/upstream/http.rs to the upstream carries.
use Prim.Native.String.{◌++◌ as append}
use codaze.Prelude.{
  String, true, false, Option, none, some, List, [], ◌++◌, ◌≡◌, refl, ◌∙◌, contains, ◌==◌,
  Option-cases, inl, inr, ap, sym,
}
use codaze.Prelude.Members.{contains-differs}
use codaze.Config.{FingerprintMode, normalize, passthrough}
use codaze.Accounts.Types.{UpstreamAccount}
use codaze.Json.{Value}
use codaze.Semantics.Payload.{HeaderMap}
use codaze.Http.{HttpCrate, get_all, insert_header}
use codaze.Http.Laws.{get_all-set_header}
use codaze.Upstream.Fingerprint.{Codec}
use codaze.Upstream.Headers.{
  SessionSource, context_headers, identity_headers, build_responses_extra_headers,
  add_auth_headers_to_header_map,
}
use codaze.Upstream.Headers.Laws.{
  forwarded, get_all-build_responses_extra_headers, build_responses_extra_headers_only,
  get_all-insert_header_other,
}
use codaze.Upstream.Requests.{
  Method, UpstreamClient, Provider, extend_headers, make_request, post_responses_json, stream_json,
  configure_responses_stream_request, apply_http_request_timeout, build_request, gateway_auth,
}
use codaze.Upstream.Requests.Values.{
  take_over, get_all-extend_headers, get_all-set_header_agree, get_all-insert_header_agree,
}

-- The names of the client's headers that the mode lets through to /responses.
abbrev pub forwarded_in : FingerprintMode → List String
forwarded_in passthrough = forwarded
forwarded_in normalize = context_headers ++ identity_headers

module _ (http : HttpCrate) (c : Codec) (session_source : String → Option SessionSource) where
  build_responses_extra_headers_none :
      (mode : FingerprintMode) (h : HeaderMap) (name : String)
      → contains (forwarded_in mode) name ≡ false
      → get_all (build_responses_extra_headers http c session_source h mode) name ≡ []
  build_responses_extra_headers_none passthrough h name out =
      let exact = get_all-build_responses_extra_headers http c session_source h name in
      rw out at exact
  build_responses_extra_headers_none normalize h name out =
      build_responses_extra_headers_only http c session_source h name out

  add_auth_headers_agree :
      (account : UpstreamAccount) (h k : HeaderMap) (name : String)
      → get_all h name ≡ get_all k name
      → let auth = gateway_auth account in
        get_all (add_auth_headers_to_header_map http c session_source auth h) name
        ≡ get_all (add_auth_headers_to_header_map http c session_source auth k) name
  unfolding add_auth_headers_to_header_map
  add_auth_headers_agree account h k name same =
      let bearer = append "Bearer " account.access_token in
      let with_token = get_all-insert_header_agree http "authorization" bearer h k name same in
      elim (Option-cases account.chatgpt_account_id) [
        | inl e ↦ rw e with_token
        | inr (id, e) ↦ rw e (
            get_all-insert_header_agree http "chatgpt-account-id" id
              (insert_header http "authorization" bearer h)
              (insert_header http "authorization" bearer k) name with_token)
      ]

  make_request_agree :
      (provider : Provider) (account : UpstreamAccount) (method : Method) (path : String)
      (extra extra' : HeaderMap) (name : String)
      → get_all extra name ≡ get_all extra' name
      → let request =
          make_request http c session_source provider (gateway_auth account) method path in
        get_all (request extra none).headers name ≡ get_all (request extra' none).headers name
  unfolding make_request build_request
  make_request_agree provider account method path extra extra' name same =
      add_auth_headers_agree account (extend_headers provider.headers extra)
        (extend_headers provider.headers extra') name
        (get_all-extend_headers provider.headers extra name
          ∙ ap (λ k. take_over k (get_all provider.headers name)) same
          ∙ sym (get_all-extend_headers provider.headers extra' name))

  -- Whatever two clients send, bodies included, the HTTP requests to /responses that are made of it for
  -- one account, streamed or not, carry the same values of every header but those that the mode
  -- forwards, as they are handed to the transport.
  pub forwarded_in-only :
      (client : UpstreamClient) (account : UpstreamAccount) (path : String) (h h' : HeaderMap)
      (body body' : Value) (name : String)
      → contains (forwarded_in client.fingerprint_mode) name ≡ false
      → let unary = post_responses_json http c session_source client account in
        let streamed = stream_json http c session_source client path account in
        (get_all (unary h body).headers name ≡ get_all (unary h' body').headers name)
        × (get_all (streamed h body).headers name ≡ get_all (streamed h' body').headers name)
  unfolding post_responses_json stream_json apply_http_request_timeout
      configure_responses_stream_request
  forwarded_in-only client account path h h' body body' name out =
      let mode = client.fingerprint_mode in
      let extra = λ (k : HeaderMap). build_responses_extra_headers http c session_source k mode in
      let same =
        build_responses_extra_headers_none mode h name out
        ∙ sym (build_responses_extra_headers_none mode h' name out) in
      let agree = λ (to : String).
        make_request_agree client.provider account Method.post to (extra h) (extra h') name same in
      (
        agree "responses",
        get_all-set_header_agree "accept" (some "text/event-stream") _ _ name (agree path),
      )

  add_auth_headers_other :
      (account : UpstreamAccount) (h : HeaderMap) (name : String)
      → ("authorization" == name) ≡ false
      → ("chatgpt-account-id" == name) ≡ false
      → get_all (add_auth_headers_to_header_map http c session_source (gateway_auth account) h) name
        ≡ get_all h name
  unfolding add_auth_headers_to_header_map
  add_auth_headers_other account h name not_token not_id =
      let bearer = append "Bearer " account.access_token in
      let with_token = get_all-insert_header_other http "authorization" bearer h name not_token in
      elim (Option-cases account.chatgpt_account_id) [
        | inl e ↦ rw e with_token
        | inr (id, e) ↦ rw e (
            get_all-insert_header_other http "chatgpt-account-id" id
              (insert_header http "authorization" bearer h) name not_id
            ∙ with_token)
      ]

  make_request_forwards :
      (provider : Provider) (account : UpstreamAccount) (path : String) (h : HeaderMap)
      (mode : FingerprintMode) (name : String)
      → mode ≡ passthrough
      → contains forwarded name ≡ true
      → let extra = build_responses_extra_headers http c session_source h mode in
        let request =
          make_request http c session_source provider
            (gateway_auth account)
            Method.post
            path
            extra
            none in
        get_all request.headers name ≡ take_over (get_all h name) (get_all provider.headers name)
  unfolding make_request build_request
  make_request_forwards provider account path h mode name passes member =
      let extra = build_responses_extra_headers http c session_source h mode in
      let exact = get_all-build_responses_extra_headers http c session_source h name in
      let sent : get_all extra name ≡ get_all h name = rw passes (rw member at exact) in
      add_auth_headers_other account (extend_headers provider.headers extra) name
        (contains-differs forwarded "authorization" name refl member)
        (contains-differs forwarded "chatgpt-account-id" name refl member)
      ∙ get_all-extend_headers provider.headers extra name
      ∙ ap (λ k. take_over k (get_all provider.headers name)) sent

  -- In the mode `passthrough`, under each name forwarded an HTTP request to /responses, streamed or not,
  -- carries all the values that the client sent, in their order, or those of the provider where the
  -- client sent none, as it is handed to the transport.
  pub passthrough_forwards :
      (client : UpstreamClient) (account : UpstreamAccount) (path : String) (h : HeaderMap)
      (body : Value) (name : String)
      → client.fingerprint_mode ≡ passthrough
      → contains forwarded name ≡ true
      → let values = take_over (get_all h name) (get_all client.provider.headers name) in
        (get_all (post_responses_json http c session_source client account h body).headers name
          ≡ values)
        × (get_all (stream_json http c session_source client path account h body).headers name
            ≡ values)
  unfolding post_responses_json stream_json apply_http_request_timeout
      configure_responses_stream_request
  passthrough_forwards client account path h body name passes member =
      let mode = client.fingerprint_mode in
      let forwards = λ (to : String).
        make_request_forwards client.provider account to h mode name passes member in
      let extra = build_responses_extra_headers http c session_source h mode in
      let request =
        make_request http c session_source client.provider (gateway_auth account) Method.post path
          extra none in
      let accept = get_all-set_header "accept" (some "text/event-stream") request.headers name in
      let other = contains-differs forwarded "accept" name refl member in
      (forwards "responses", (rw other at accept) ∙ forwards path)
