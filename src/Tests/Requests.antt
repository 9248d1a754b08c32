-- ===== src/Tests/Requests.antt =====
-- Configuration, normalisation and headers: the theorems, applied.
use codaze.Prelude.{
  true, false, ◌&&◌, none, some, [], ◌∷◌, ◌≡◌, ◌≢◌, ◌↔◌, refl, arith, ◌≤◌, if◌then◌else◌, or_else,
  contains,
}
use codaze.Prelude.Result.{ok}
use codaze.Prelude.Decimal.{show}
use codaze.Prelude.Text.{trim, is_empty}
use codaze.Prelude.Time.{seconds, u64_max}
use codaze.Config.{
  round_robin, normalize, passthrough, parse_policy, policy_name, parse_mode, mode_name,
}
use codaze.Config.Names.{parse_policy-policy_name, parse_mode-mode_name}
use codaze.Config.Args.{
  RuntimeConfig, HomeEnv, Draft, defaults, from_args, finish, configure, parse_args, argument_of,
  set_flag,
}
use codaze.Config.Args.Laws.{command_line, from_args-command_line, from_args_sound}
use codaze.Semantics.Numbers.{parse_retry_after_str-show}
use codaze.Semantics.Payload.{HeaderMap, parse_retry_after_str}
use codaze.Json.{null, bool, float, string, object, Fields, end, field, get_field}
use codaze.Models.{default_parallel_tool_calls}
use codaze.Normalization.{normalize_responses_fields}
use codaze.Normalization.Laws.{
  instructions_of, normalize_responses_fields_keeps, normalize_responses_fields_drops,
  normalize_responses_fields_defaults,
}
use codaze.Http.{get_all}
use codaze.Upstream.Sanitize.{sanitize_response_headers, header_names, is_used_percent}
use codaze.Upstream.Sanitize.Laws.{is_removed, get_all-sanitize_response_headers}
use codaze.Upstream.Headers.{build_responses_extra_headers}
use codaze.Upstream.Headers.Laws.{
  forwarded, get_all-build_responses_extra_headers, build_responses_extra_headers_only,
}
use codaze.Accounts.Types.{UpstreamAccount}
use codaze.Upstream.Requests.{
  UpstreamClient, post_responses_json, post_json, get_models, stream_json, make_request,
  build_request, trim_end_slashes, trim_start_slashes, append_client_version_query,
  apply_http_request_timeout,
}
use codaze.Upstream.Requests.Values.{take_over}
use codaze.Upstream.Requests.Laws.{forwarded_in-only, passthrough_forwards}
use codaze.Upstream.Requests.Account.{IsOf, requests-IsOf}
use codaze.Tests.Stubs.{plain_http, plain_codec, no_source, two_parsers}
use codaze.Tests.Data.{noon}

parse_policy-policy_name_example :
    (parse_policy "round_robin" ≡ ok round_robin) ↔ (policy_name round_robin ≡ "round_robin")
parse_policy-policy_name_example = parse_policy-policy_name "round_robin" round_robin

parse_mode-mode_name_example :
    (parse_mode "normalize" ≡ ok normalize) ↔ (mode_name normalize ≡ "normalize")
parse_mode-mode_name_example = parse_mode-mode_name "normalize" normalize

parse_retry_after_str-show_example :
    parse_retry_after_str two_parsers (show 1200) noon ≡ some (seconds 1200)
parse_retry_after_str-show_example = parse_retry_after_str-show two_parsers 1200 noon (omega arith)

abbrev unix_home : HomeEnv
unix_home = record {
  is_windows = false;
  home = some "/home/ann";
  userprofile = none;
  homedrive = none;
  homepath = none;
}

abbrev draft : Draft
draft = record defaults {
  listen = "127.0.0.1:9000";
  routing_policy = round_robin;
  shutdown_grace_period_seconds = 7;
}

from_args-command_line_example :
    from_args unix_home (command_line "/srv/accounts" draft)
    ≡ finish unix_home (record draft { accounts_dir = some ("/srv/accounts" ∷ []) })
from_args-command_line_example =
    from_args-command_line unix_home "/srv/accounts" draft (omega arith)

abbrev config : RuntimeConfig
config = configure defaults ("/srv/accounts" ∷ [])

from_args_sound_example :
    (config.listen ≢ config.admin_listen)
    × (is_empty (trim config.codex_version) ≡ false)
    × (config.shutdown_grace_period_seconds ≤ u64_max)
unfolding from_args parse_args argument_of set_flag finish trim
from_args_sound_example =
    from_args_sound unix_home ("--accounts-dir" ∷ "/srv/accounts" ∷ []) config refl

-- The body of a client that is not Codex.
abbrev body : Fields
body = field "model" (string "gpt-5") (
    field "temperature" (float "0.5")
      (field "input" (string "hello") (field "stream" (bool true) end)))

normalize_responses_fields_keeps_example :
    get_field "stream" (normalize_responses_fields normalize false none body)
    ≡ get_field "stream" body
normalize_responses_fields_keeps_example =
    normalize_responses_fields_keeps normalize false none body "stream"
      (refl, (refl, (refl, (refl, tt)))) refl

normalize_responses_fields_drops_example :
    get_field "temperature" (normalize_responses_fields passthrough false none body) ≡ none
normalize_responses_fields_drops_example =
    normalize_responses_fields_drops passthrough none body "temperature"
      (refl, (refl, (refl, (refl, tt)))) refl

normalize_responses_fields_defaults_example :
    let out = normalize_responses_fields normalize false none body in
    (get_field "instructions" out ≡ some (instructions_of (get_field "instructions" body)))
    × (get_field "store" out ≡ or_else (get_field "store" body) (some (bool false)))
    × (get_field "parallel_tool_calls" out
        ≡ or_else
            (get_field "parallel_tool_calls" body)
            (some (bool (default_parallel_tool_calls (get_field "model" body) none))))
normalize_responses_fields_defaults_example =
    normalize_responses_fields_defaults false none body (refl, (refl, (refl, (refl, tt))))

abbrev answer_headers : HeaderMap
answer_headers =
    ("connection", some "close, x-hop")
    ∷ ("x-hop", some "1")
    ∷ ("x-codex-primary-used-percent", some "87.5")
    ∷ ("x-request-id", some "r1")
    ∷ []

get_all-sanitize_response_headers_example :
    get_all (sanitize_response_headers plain_http answer_headers) "x-hop" ≡ (
      if is_removed plain_http refl answer_headers "x-hop"
      then []
      else if contains (header_names answer_headers) "x-hop" && is_used_percent "x-hop"
      then ("x-hop", some "0.0") ∷ []
      else get_all answer_headers "x-hop")
get_all-sanitize_response_headers_example =
    get_all-sanitize_response_headers plain_http refl answer_headers "x-hop"
      (refl, (refl, (refl, (refl, tt))))

abbrev client_headers : HeaderMap
client_headers =
    ("user-agent", some "curl")
    ∷ ("session_id", some "s1")
    ∷ ("authorization", some "Bearer client")
    ∷ ("cookie", some "secret")
    ∷ []

get_all-build_responses_extra_headers_example :
    get_all
      (build_responses_extra_headers plain_http plain_codec no_source client_headers passthrough)
      "session_id"
    ≡ (if contains forwarded "session_id" then get_all client_headers "session_id" else [])
get_all-build_responses_extra_headers_example =
    get_all-build_responses_extra_headers plain_http plain_codec no_source client_headers
      "session_id"

build_responses_extra_headers_only_example :
    get_all
      (build_responses_extra_headers plain_http plain_codec no_source client_headers normalize)
      "cookie"
    ≡ []
build_responses_extra_headers_only_example =
    build_responses_extra_headers_only plain_http plain_codec no_source client_headers "cookie" refl

abbrev upstream_client : UpstreamClient
upstream_client = record {
  provider = record { base_url = "https://upstream.example/"; headers = [] };
  codex_version = "1.2.3";
  fingerprint_mode = normalize;
  unary_request_timeout = some (seconds 600);
  stream_request_timeout = none;
}

abbrev upstream_account : UpstreamAccount
upstream_account = record { access_token = "token"; chatgpt_account_id = some "account-1" }

forwarded_in-only_example :
    let unary = post_responses_json plain_http plain_codec no_source upstream_client in
    let streamed =
      stream_json plain_http plain_codec no_source upstream_client "responses" upstream_account in
    (get_all (unary upstream_account client_headers (object body)).headers "cookie"
      ≡ get_all (unary upstream_account [] null).headers "cookie")
    × (get_all (streamed client_headers (object body)).headers "cookie"
        ≡ get_all (streamed [] null).headers "cookie")
forwarded_in-only_example =
    forwarded_in-only plain_http plain_codec no_source upstream_client upstream_account "responses"
      client_headers [] (object body) null "cookie" refl

abbrev passthrough_client : UpstreamClient
passthrough_client = record upstream_client { fingerprint_mode = passthrough }

passthrough_forwards_example :
    let unary = post_responses_json plain_http plain_codec no_source passthrough_client in
    let streamed =
      stream_json plain_http plain_codec no_source passthrough_client "responses"
        upstream_account in
    let sent = take_over (get_all client_headers "user-agent") [] in
    (get_all (unary upstream_account client_headers (object body)).headers "user-agent" ≡ sent)
    × (get_all (streamed client_headers (object body)).headers "user-agent" ≡ sent)
passthrough_forwards_example =
    passthrough_forwards plain_http plain_codec no_source passthrough_client upstream_account
      "responses" client_headers (object body) "user-agent" refl refl

requests-IsOf_example :
    IsOf (some "Bearer token") (some "account-1") (
      post_responses_json plain_http plain_codec no_source upstream_client upstream_account
        client_headers
        (object body))
    × IsOf (some "Bearer token") (some "account-1") (
        post_json plain_http plain_codec no_source upstream_client "responses/compact"
          upstream_account client_headers
          (object body))
    × IsOf (some "Bearer token") (some "account-1") (
        get_models plain_http plain_codec no_source upstream_client upstream_account client_headers)
    × IsOf (some "Bearer token") (some "account-1") (
        stream_json plain_http plain_codec no_source upstream_client "responses/compact"
          upstream_account client_headers
          (object body))
requests-IsOf_example =
    requests-IsOf plain_http plain_codec no_source upstream_account refl refl refl upstream_client
      "responses/compact" client_headers (object body)

-- The slashes between the parts of an address are one.
url_runs :
    (get_models plain_http plain_codec no_source upstream_client upstream_account []).url
    ≡ "https://upstream.example/models?client_version=1.2.3"
unfolding get_models make_request build_request trim_end_slashes trim_start_slashes
    append_client_version_query apply_http_request_timeout
url_runs = refl
