-- ===== src/Models.antt =====
-- src/models.rs: the list of models, its cache and the shape of the answers. The crate codex_protocol
-- reads the list: what the program takes from it are the models' slugs and flags.
use codaze.Prelude.{
  ◌-◌, ◌*◌, String, Bool, true, Option, none, some, List, [], ◌∷◌, if◌then◌else◌, and_then,
  unwrap_or, leb,
}
use text.Mathlib.Text.{starts_with}
use codaze.Prelude.Text.{trim}
use codaze.Prelude.Assoc.{lookup, insert}
use codaze.Prelude.Time.{Duration, seconds}
use codaze.Json.{Value, string, number, array, object, Items, nil, cons, end, field, as_str, ℤ}
use codaze.Semantics.Payload.{HeaderMap, get_header}

pub record ModelInfo : Type 0 where
  pub slug : String
  pub supports_parallel_tool_calls : Bool

-- `codex_json` is the response as serde writes it again.
pub record ModelsResponse : Type 0 where
  pub codex_json : Value
  pub models : List ModelInfo

pub record ModelsSnapshot : Type 0 where
  pub codex_json : Value
  pub openai_json : Value
  pub parallel_tool_calls_by_slug : List (String × Bool)

unfoldable pub openai_models : List ModelInfo → Items
openai_models [] = nil
openai_models (m ∷ ms) =
    cons
      (object (
        field "id" (string m.slug) (
          field "object" (string "model")
            (field "created" (number (ℤ.pos 0)) (field "owned_by" (string "openai") end)))))
      (openai_models ms)

-- `collect` into a map: a later model takes the place of an earlier one of its slug.
unfoldable pub flags_by_slug : List ModelInfo → List (String × Bool) → List (String × Bool)
flags_by_slug [] flags = flags
flags_by_slug (m ∷ ms) flags = flags_by_slug ms (insert m.slug m.supports_parallel_tool_calls flags)

unfoldable pub snapshot_of : ModelsResponse → ModelsSnapshot
unfolding openai_models flags_by_slug
snapshot_of response = record {
  codex_json = response.codex_json;
  openai_json =
      object
        (field "object" (string "list") (field "data" (array (openai_models response.models)) end));
  parallel_tool_calls_by_slug = flags_by_slug response.models [];
}

unfoldable pub supports_parallel_tool_calls : ModelsSnapshot → String → Bool
supports_parallel_tool_calls snapshot slug =
    unwrap_or (lookup slug snapshot.parallel_tool_calls_by_slug) true

-- An `Instant` is a number of nanoseconds.
pub record ModelsCache : Type 0 where
  pub snapshot : Option ModelsSnapshot
  pub response_headers : HeaderMap
  pub fetched_at : Option Duration

abbrev pub empty_cache : ModelsCache
empty_cache = record { snapshot = none; response_headers = []; fetched_at = none }

abbrev pub cache_ttl : Duration
cache_ttl = seconds (12 * 60 * 60)

abbrev pub current_entry : ModelsCache → Option (ModelsSnapshot × HeaderMap)
current_entry c = and_then c.snapshot (λ s. some (s, c.response_headers))

unfoldable pub fresh_entry : ModelsCache → Duration → Option (ModelsSnapshot × HeaderMap)
fresh_entry c now =
    and_then c.fetched_at
      (λ fetched_at. if leb (now - fetched_at) cache_ttl then current_entry c else none)

unfoldable pub replace : ModelsSnapshot → HeaderMap → Duration → ModelsCache
replace snapshot headers now = record {
  snapshot = some snapshot;
  response_headers = headers;
  fetched_at = some now;
}

pub data ResponseShape : Type 0 where
  codex open_ai : ResponseShape

unfoldable pub response_shape_for_headers : HeaderMap → ResponseShape
response_shape_for_headers h = elim (and_then (get_header h "originator") (λ v. v)) [
  | none ↦ open_ai
  | some originator ↦ if starts_with originator "codex" then codex else open_ai
]

unfoldable pub default_parallel_tool_calls : Option Value → Option ModelsSnapshot → Bool
unfolding supports_parallel_tool_calls trim
default_parallel_tool_calls model snapshot = elim (and_then model as_str) [
  | none ↦ true
  | some slug ↦ elim snapshot [ none ↦ true | some s ↦ supports_parallel_tool_calls s (trim slug) ]
]
