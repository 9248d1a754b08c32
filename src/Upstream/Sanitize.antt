-- ===== src/Upstream/Sanitize.antt =====
-- src/upstream/headers.rs: the headers of the upstream's answer, as they go to the client.
pub mod Laws
use codaze.Prelude.{
  ℕ, String, Bool, true, false, ◌||◌, Option, none, some, List, [], ◌∷◌, ◌++◌, if◌then◌else◌,
  set_insert, filter_map, ◌==◌,
}
use codaze.Prelude.Text.{trim, split, ends_with, to_ascii_lowercase}
use codaze.Semantics.Payload.{HeaderMap}
use codaze.Http.{HttpCrate, get_all, remove_header, set_header}

unfoldable pub remove_headers : List String → HeaderMap → HeaderMap
unfolding remove_header
remove_headers [] h = h
remove_headers (name ∷ names) h = remove_headers names (remove_header name h)

abbrev pub hop_by_hop : List String
hop_by_hop =
    "connection" ∷ "keep-alive" ∷ "proxy-authenticate" ∷ "proxy-authorization" ∷ "te" ∷ "trailer"
    ∷ "transfer-encoding" ∷ "upgrade" ∷ []

-- `keys`: each name once.
unfoldable pub header_names : HeaderMap → List String
header_names [] = []
header_names ((n, v) ∷ h) = set_insert n (header_names h)

unfoldable pub is_used_percent : String → Bool
unfolding ends_with to_ascii_lowercase
is_used_percent name =
    let lowered = to_ascii_lowercase name in
    ends_with lowered "-primary-used-percent" || ends_with lowered "-secondary-used-percent"

module _ (http : HttpCrate) where
  -- The names in a value of the header `connection`.
  unfoldable pub connection_tokens : List String → List String
  unfolding trim
  connection_tokens [] = []
  connection_tokens (part ∷ parts) =
      let rest = connection_tokens parts in
      let name = trim part in
      if name == ""
      then rest
      else elim (http.header_name name) [ none ↦ rest | some header ↦ header ∷ rest ]

  unfoldable pub connection_names : HeaderMap → List String
  unfolding connection_tokens split
  connection_names [] = []
  connection_names ((n, none) ∷ h) = connection_names h
  connection_names ((n, some raw) ∷ h) = connection_tokens (split b',' raw) ++ connection_names h

  unfoldable pub remove_hop_by_hop_response_headers : HeaderMap → HeaderMap
  unfolding connection_names remove_headers
  remove_hop_by_hop_response_headers h =
      remove_headers hop_by_hop (remove_headers (connection_names (get_all h "connection")) h)

  unfoldable pub reset_percent : String → HeaderMap → HeaderMap
  unfolding set_header is_used_percent
  reset_percent name h =
      if is_used_percent name
      then elim (http.header_value "0.0") [
        | none ↦ h
        | some value ↦ elim (http.header_name name) [
          | none ↦ h
          | some header ↦ set_header header value h
        ]
      ]
      else h

  unfoldable pub reset_percents : List String → HeaderMap → HeaderMap
  unfolding reset_percent
  reset_percents [] h = h
  reset_percents (name ∷ names) h = reset_percents names (reset_percent name h)

  unfoldable pub normalize_rate_limit_headers : HeaderMap → HeaderMap
  unfolding header_names reset_percents
  normalize_rate_limit_headers h = reset_percents (header_names h) h

  unfoldable pub sanitize_response_headers : HeaderMap → HeaderMap
  unfolding remove_hop_by_hop_response_headers remove_header normalize_rate_limit_headers
  sanitize_response_headers h = normalize_rate_limit_headers (
      remove_header "content-length"
        (remove_header "content-encoding" (remove_hop_by_hop_response_headers h)))
