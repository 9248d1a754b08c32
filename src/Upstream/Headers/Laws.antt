-- ===== src/Upstream/Headers/Laws.antt =====
-- The extra headers that a client's headers give a request to the upstream.
use codaze.Prelude.{
  String, true, false, Option, List, [], ◌∷◌, ◌++◌, ◌≡◌, refl, ◌∙◌, arith, if◌then◌else◌, contains,
  ◌==◌, eq_iff, Bool-cases, Option-cases, inl, inr, ap, and_then, sym,
}
use mathlib.Core.Path.{subst}
use codaze.Prelude.Members.{contains-differs_in}
use codaze.Config.{FingerprintMode, normalize, passthrough}
use codaze.Semantics.Payload.{HeaderMap}
use codaze.Http.{HttpCrate, get_all, copy_header, insert_header, has_header}
use codaze.Http.Laws.{get_all-append, get_all_idem, get_all_other, get_all-set_header, append_nil}
use codaze.Upstream.Fingerprint.{Codec, turn_metadata_header}
use codaze.Upstream.Headers.{
  SessionSource, copy_headers, fingerprint_headers, context_headers, identity_headers,
  extend_fingerprint_headers, extend_responses_context_headers, extend_responses_identity_headers,
  maybe_insert_from_session_source, maybe_insert_parent_thread_id_from_session_source,
  maybe_insert_subagent_from_session_source, maybe_normalize_turn_metadata_header,
  maybe_copy_session_id_to_client_request_id, with_client_request_id, build_responses_extra_headers,
  parse_session_source_header, subagent_header_value, parent_thread_id_header_value, header_text,
  normalized_metadata,
}

get_all-copy_header :
    (source : HeaderMap) (n : String) (dest : HeaderMap) (name : String)
    → get_all (copy_header source n dest) name
      ≡ get_all dest name ++ (if n == name then get_all source name else [])
unfolding copy_header
get_all-copy_header source n dest name =
    get_all-append name dest (get_all source n) ∙ elim (Bool-cases (n == name)) [
      | inl e ↦
          let same : n ≡ name = (eq_iff n name).0 e in
          rw e (rw (sym same) (ap (λ k. get_all dest n ++ k) (get_all_idem n source)))
      | inr e ↦ rw e (ap (λ k. get_all dest name ++ k) (get_all_other name n source e))
    ]

-- No name stands twice.
abbrev pub Once : List String → Type 0
Once [] = Unit
Once (n ∷ names) = (contains names n ≡ false) × Once names

append_nil_right : (h k : HeaderMap) → k ≡ [] → h ++ k ≡ h
append_nil_right h k e = rw e (append_nil h)

get_all-copy_headers :
    (source : HeaderMap) (names : List String) (dest : HeaderMap) (name : String)
    → Once names
    → get_all (copy_headers source names dest) name
      ≡ get_all dest name ++ (if contains names name then get_all source name else [])
unfolding copy_headers
get_all-copy_headers source [] dest name once = sym (append_nil (get_all dest name))
get_all-copy_headers source (n ∷ names) dest name (first, later) =
    let rest = get_all-copy_headers source names (copy_header source n dest) name later in
    let now = get_all-copy_header source n dest name in
    elim (Bool-cases (n == name)) [
      | inl e ↦
          let same : n ≡ name = (eq_iff n name).0 e in
          let out = subst (λ k. contains names k ≡ false) same first in
          rw (e) (
            (rw out at rest)
            ∙ append_nil (get_all (copy_header source n dest) name)
            ∙ (rw e at now))
      | inr e ↦ rw e (
          rest
          ∙ ap (λ k. k ++ (if contains names name then get_all source name else []))
              ((rw e at now) ∙ append_nil (get_all dest name)))
    ]

get_all-copy_headers_other :
    (source : HeaderMap) (names : List String) (dest : HeaderMap) (name : String)
    → Once names
    → contains names name ≡ false
    → get_all (copy_headers source names dest) name ≡ get_all dest name
get_all-copy_headers_other source names dest name once out =
    let copied = get_all-copy_headers source names dest name once in
    (rw out at copied) ∙ append_nil (get_all dest name)

pub get_all-insert_header_other :
    (http : HttpCrate) (n text : String) (h : HeaderMap) (name : String)
    → (n == name) ≡ false
    → get_all (insert_header http n text h) name ≡ get_all h name
unfolding insert_header
get_all-insert_header_other http n text h name differ =
    elim (Option-cases (http.header_value text)) [
      | inl e ↦ rw (e, insert_header) refl
      | inr (v, e) ↦
          let set = get_all-set_header n v h name in rw (e, insert_header) (rw differ at set)
    ]

contains-append_left :
    (a b : List String) (name : String) → contains (a ++ b) name ≡ false → contains a name ≡ false
contains-append_left [] b name out = refl
contains-append_left (n ∷ a) b name out = let rest = contains-append_left a b name in ground arith

contains-append_right :
    (a b : List String) (name : String) → contains (a ++ b) name ≡ false → contains b name ≡ false
contains-append_right [] b name out = out
contains-append_right (n ∷ a) b name out = let rest = contains-append_right a b name in ground arith

-- The names of the client's headers that the mode `passthrough` passes on.
abbrev pub forwarded : List String
forwarded = fingerprint_headers ++ (context_headers ++ identity_headers)

forwarded-Once : Once forwarded
forwarded-Once = (
  refl,
  (
    refl,
    (
      refl,
      (refl, (refl, (refl, (refl, (refl, (refl, (refl, (refl, (refl, (refl, (refl, tt))))))))))),
    ),
  ),
)

context-Once : Once context_headers
context-Once = (refl, (refl, (refl, (refl, (refl, (refl, (refl, (refl, tt))))))))

-- In the mode `passthrough`, the extra headers that a client's headers give a request to /responses
-- are, of each of the names forwarded, all the values that the client sent, in their order, and of no
-- other name any.
pub get_all-build_responses_extra_headers :
    (http : HttpCrate) (c : Codec) (session_source : String → Option SessionSource) (h : HeaderMap)
    (name : String)
    → get_all (build_responses_extra_headers http c session_source h passthrough) name
      ≡ (if contains forwarded name then get_all h name else [])
unfolding build_responses_extra_headers extend_fingerprint_headers extend_responses_context_headers
    extend_responses_identity_headers maybe_insert_parent_thread_id_from_session_source
    maybe_insert_subagent_from_session_source maybe_insert_from_session_source
    maybe_normalize_turn_metadata_header with_client_request_id copy_headers
get_all-build_responses_extra_headers http c session_source h name =
    get_all-copy_headers h forwarded [] name forwarded-Once

module _ (http : HttpCrate) (c : Codec) (session_source : String → Option SessionSource) where
  get_all-maybe_insert_other :
      (n : String) (value_of : SessionSource → Option String) (source dest : HeaderMap)
      (mode : FingerprintMode) (name : String)
      → (n == name) ≡ false
      → get_all
          (maybe_insert_from_session_source http c session_source n value_of source dest mode)
          name
        ≡ get_all dest name
  unfolding maybe_insert_from_session_source
  get_all-maybe_insert_other n value_of source dest passthrough name differ = refl
  get_all-maybe_insert_other n value_of source dest normalize name differ =
      elim (Bool-cases (has_header dest n)) [
        | inl e ↦ rw e refl
        | inr e ↦
            elim (Option-cases
              (and_then (parse_session_source_header http c session_source source) value_of)) [
                | inl f ↦ rw (e, f) refl
                | inr (v, f) ↦ rw (e, f) (get_all-insert_header_other http n v dest name differ)
              ]
      ]

  get_all-extend_identity_other :
      (source dest : HeaderMap) (mode : FingerprintMode) (name : String)
      → contains identity_headers name ≡ false
      → get_all (extend_responses_identity_headers http c session_source source dest mode) name
        ≡ get_all dest name
  unfolding extend_responses_identity_headers maybe_insert_parent_thread_id_from_session_source
      maybe_insert_subagent_from_session_source
  get_all-extend_identity_other source dest mode name out =
      let differs = λ (n : String) (member : contains identity_headers n ≡ true).
        contains-differs_in identity_headers n name out member in
      let copied = copy_headers source identity_headers dest in
      let parent =
        maybe_insert_parent_thread_id_from_session_source http c session_source source copied
          mode in
      get_all-maybe_insert_other "x-openai-subagent" subagent_header_value source parent mode name
        (differs "x-openai-subagent" refl)
      ∙ get_all-maybe_insert_other "x-codex-parent-thread-id" parent_thread_id_header_value source
          copied mode name (differs "x-codex-parent-thread-id" refl)
      ∙ get_all-copy_headers_other source identity_headers dest name (refl, (refl, (refl, tt))) out

  get_all-metadata_other :
      (h : HeaderMap) (name : String)
      → (turn_metadata_header == name) ≡ false
      → get_all (maybe_normalize_turn_metadata_header http c session_source h normalize) name
        ≡ get_all h name
  unfolding maybe_normalize_turn_metadata_header
  get_all-metadata_other h name differ =
      elim (Option-cases (normalized_metadata http c session_source h)) [
        | inl e ↦ rw (e, maybe_normalize_turn_metadata_header) refl
        | inr (v, e) ↦
            rw (e, maybe_normalize_turn_metadata_header)
              (get_all-insert_header_other http turn_metadata_header v h name differ)
      ]

  get_all-client_request_id_other :
      (source h : HeaderMap) (name : String)
      → ("x-client-request-id" == name) ≡ false
      → get_all (with_client_request_id http c session_source source h normalize) name
        ≡ get_all h name
  unfolding with_client_request_id maybe_copy_session_id_to_client_request_id
  get_all-client_request_id_other source h name differ =
      elim (Bool-cases (has_header h "x-client-request-id")) [
        | inl e ↦ rw e refl
        | inr e ↦ elim (Option-cases (header_text source "session_id")) [
          | inl f ↦ rw (e, f, maybe_copy_session_id_to_client_request_id) refl
          | inr (v, f) ↦
              rw (e, f, maybe_copy_session_id_to_client_request_id)
                (get_all-insert_header_other http "x-client-request-id" v h name differ)
        ]
      ]

  -- In the mode `normalize`, the extra headers that a client's headers give a request to /responses
  -- have no value under any name but the context's and the identity's.
  pub build_responses_extra_headers_only :
      (h : HeaderMap) (name : String)
      → contains (context_headers ++ identity_headers) name ≡ false
      → get_all (build_responses_extra_headers http c session_source h normalize) name ≡ []
  unfolding build_responses_extra_headers extend_fingerprint_headers
      extend_responses_context_headers
  build_responses_extra_headers_only h name out =
      let differs =
        λ (n : String) (member : contains (context_headers ++ identity_headers) n ≡ true).
          contains-differs_in (context_headers ++ identity_headers) n name out member in
      let context = copy_headers h context_headers [] in
      let identity = extend_responses_identity_headers http c session_source h context normalize in
      let metadata =
        maybe_normalize_turn_metadata_header http c session_source identity normalize in
      get_all-client_request_id_other h metadata name (differs "x-client-request-id" refl)
      ∙ get_all-metadata_other identity name (differs turn_metadata_header refl)
      ∙ get_all-extend_identity_other h context normalize name
          (contains-append_right context_headers identity_headers name out)
      ∙ get_all-copy_headers_other h context_headers [] name context-Once
          (contains-append_left context_headers identity_headers name out)
