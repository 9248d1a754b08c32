-- ===== src/Upstream/Requests/Values.antt =====
-- The values under a name after the steps of src/upstream/http.rs that put header maps together.
use codaze.Prelude.{
  String, Bool, true, false, not, Option, some, [], ◌∷◌, ◌++◌, ◌≡◌, refl, ◌∙◌, arith, if◌then◌else◌,
  keep_if, ◌==◌, eq_iff, Option-cases, inl, inr, ap, sym,
}
use codaze.Semantics.Payload.{HeaderMap}
use codaze.Http.{HttpCrate, get_all, insert_header, set_header, has_header}
use codaze.Http.Laws.{get_all-append, get_all-set_header, append_nil}
use codaze.Upstream.Requests.{extend_headers}

-- The values of the second map, or of the first where it has none.
abbrev pub take_over : HeaderMap → HeaderMap → HeaderMap
take_over [] old = old
take_over (e ∷ k) old = e ∷ k

abbrev has_some : HeaderMap → Bool
has_some [] = false
has_some (e ∷ k) = true

has_header-get_all : (h : HeaderMap) (name : String) → has_header h name ≡ has_some (get_all h name)
has_header-get_all [] name = refl
has_header-get_all ((n, v) ∷ h) name = let rest = has_header-get_all h name in ground arith

get_all-keep_absent :
    (extra h : HeaderMap) (name : String)
    → get_all (keep_if (λ e. not (has_header extra e.0)) h) name
      ≡ (if has_header extra name then [] else get_all h name)
get_all-keep_absent extra [] name = ground arith
get_all-keep_absent extra ((n, v) ∷ h) name =
    let rest = get_all-keep_absent extra h name in ground (arith, eq_iff n name)

append-take_over :
    (now old : HeaderMap) → (if has_some now then [] else old) ++ now ≡ take_over now old
append-take_over [] old = append_nil old
append-take_over (e ∷ now) old = refl

pub get_all-extend_headers :
    (h extra : HeaderMap) (name : String)
    → get_all (extend_headers h extra) name ≡ take_over (get_all extra name) (get_all h name)
get_all-extend_headers h extra name =
    get_all-append name (keep_if (λ e. not (has_header extra e.0)) h) extra
    ∙ ap (λ k. k ++ get_all extra name) (get_all-keep_absent extra h name)
    ∙ ap (λ b. (if b then [] else get_all h name) ++ get_all extra name)
        (has_header-get_all extra name)
    ∙ append-take_over (get_all extra name) (get_all h name)

-- The values of a name, if two maps that agree on it are given the same header.
pub get_all-set_header_agree :
    (n : String) (v : Option String) (h k : HeaderMap) (name : String)
    → get_all h name ≡ get_all k name
    → get_all (set_header n v h) name ≡ get_all (set_header n v k) name
get_all-set_header_agree n v h k name same =
    get_all-set_header n v h name
    ∙ ap (λ old. if n == name then (n, v) ∷ [] else old) same
    ∙ sym (get_all-set_header n v k name)

pub get_all-insert_header_agree :
    (http : HttpCrate) (n text : String) (h k : HeaderMap) (name : String)
    → get_all h name ≡ get_all k name
    → get_all (insert_header http n text h) name ≡ get_all (insert_header http n text k) name
unfolding insert_header
get_all-insert_header_agree http n text h k name same =
    elim (Option-cases (http.header_value text)) [
      | inl e ↦ rw (e, insert_header) same
      | inr (v, e) ↦ rw (e, insert_header) (get_all-set_header_agree n v h k name same)
    ]

pub insert_header-set_header :
    (http : HttpCrate) (n text : String) (h : HeaderMap) {v : Option String}
    → http.header_value text ≡ some v
    → insert_header http n text h ≡ set_header n v h
unfolding insert_header
insert_header-set_header http n text h e = rw (e, insert_header) refl
