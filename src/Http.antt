-- ===== src/Http.antt =====
-- The header maps of the crate http, and src/http_shape.rs. A map is a list of names in lower case with
-- their values; a value is what `to_str` reads of it.
use codaze.Prelude.{
  String, Bool, true, false, not, Option, none, some, List, [], ◌∷◌, ◌++◌, if◌then◌else◌, keep_if,
  any, is_some, ◌==◌,
}
use codaze.Semantics.Payload.{HeaderMap, get_header}
pub mod Laws

-- `HeaderName::from_bytes` and `HeaderValue::from_str`
pub record HttpCrate : Type 0 where
  pub header_name : String → Option String
  pub header_value : String → Option (Option String)

abbrev pub is_named : String → String × Option String → Bool
is_named name entry = entry.0 == name

-- `get_all`
abbrev pub get_all : HeaderMap → String → HeaderMap
get_all h name = keep_if (is_named name) h

abbrev pub has_header : HeaderMap → String → Bool
has_header h name = is_some (get_header h name)

unfoldable pub remove_header : String → HeaderMap → HeaderMap
remove_header name h = keep_if (λ e. not (is_named name e)) h

-- `HeaderMap::insert` takes the place of every value of the name.
unfoldable pub set_header : String → Option String → HeaderMap → HeaderMap
unfolding remove_header
set_header name v h = remove_header name h ++ ((name, v) ∷ [])

-- `insert_header`, at a name that is valid
unfoldable pub insert_header : HttpCrate → String → String → HeaderMap → HeaderMap
unfolding set_header
insert_header http name text h = elim (http.header_value text) [
  | none ↦ h
  | some v ↦ set_header name v h
]

-- `copy_header_if_present`, `copy_if_present`: every value is appended.
unfoldable pub copy_header : HeaderMap → String → HeaderMap → HeaderMap
copy_header source name dest = dest ++ get_all source name

-- src/http_shape.rs
unfoldable pub shape_openai_http_headers : HeaderMap → HeaderMap
unfolding copy_header
shape_openai_http_headers h = copy_header h "cache-control" (copy_header h "content-type" [])
