-- ===== src/Upstream/Sanitize/Laws.antt =====
-- Which headers of the upstream's answer go to the client.
use codaze.Prelude.{
  String, Bool, true, false, ◌&&◌, ◌||◌, some, List, [], ◌∷◌, ◌≡◌, refl, ◌∙◌, arith, if◌then◌else◌,
  contains, set_insert, All, ◌==◌, eq_iff, Bool-cases, inl, inr, ap, sym, any,
}
use mathlib.Core.Path.{subst}
use codaze.Semantics.Payload.{HeaderMap}
use codaze.Http.{HttpCrate, get_all, is_named, remove_header}
use codaze.Http.Laws.{get_all-remove_header, get_all-set_header}
use codaze.Upstream.Sanitize.{
  connection_names, remove_headers, hop_by_hop, remove_hop_by_hop_response_headers, header_names,
  is_used_percent, reset_percent, reset_percents, normalize_rate_limit_headers,
  sanitize_response_headers,
}

pub get_all-remove_headers :
    (names : List String) (h : HeaderMap) (name : String)
    → get_all (remove_headers names h) name ≡ (if contains names name then [] else get_all h name)
unfolding remove_headers
get_all-remove_headers [] h name = refl
get_all-remove_headers (gone ∷ names) h name =
    let later = get_all-remove_headers names (remove_header gone h) name in
    let first = get_all-remove_header name gone h in
    ground (arith, eq_iff gone name, eq_iff name gone)

contains-set_insert :
    (n name : String) (names : List String)
    → contains (set_insert n names) name ≡ (n == name || contains names name)
contains-set_insert n name names = ground (arith, eq_iff n name)

contains-header_names :
    (h : HeaderMap) (name : String) → contains (header_names h) name ≡ any (is_named name) h
unfolding header_names
contains-header_names [] name = refl
contains-header_names ((n, v) ∷ h) name =
    contains-set_insert n name (header_names h)
    ∙ ap (λ b. n == name || b) (contains-header_names h name)

-- Without a value of the name, there is none among the keys, and the other way round.
any-get_all :
    (h : HeaderMap) (name : String) → any (is_named name) h ≡ any (is_named name) (get_all h name)
any-get_all [] name = refl
any-get_all ((n, v) ∷ h) name = let rest = any-get_all h name in ground arith

contains-get_all :
    (h : HeaderMap) (name : String)
    → contains (header_names h) name ≡ any (is_named name) (get_all h name)
contains-get_all h name = contains-header_names h name ∙ any-get_all h name

-- What becomes of the values of a name.
abbrev reset : String → HeaderMap → HeaderMap
reset name k = if any (is_named name) k && is_used_percent name then (name, some "0.0") ∷ [] else k

reset-if :
    (removed : Bool) (h : HeaderMap) (name : String)
    → reset name (if removed then [] else get_all h name) ≡ (
        if removed
        then []
        else if contains (header_names h) name && is_used_percent name
        then (name, some "0.0") ∷ []
        else get_all h name)
reset-if true h name = refl
reset-if false h name =
    ap (λ b. if b && is_used_percent name then (name, some "0.0") ∷ [] else get_all h name)
      (sym (contains-get_all h name))

-- A choice made in steps is one choice.
if-or :
    (a b u : Bool) (x y : HeaderMap)
    → (if b && u then x else (if a && u then x else y)) ≡ (if (a || b) && u then x else y)
if-or true true u x y = ground arith
if-or true false u x y = refl
if-or false b u x y = refl

if-none :
    (size encoding hop token : Bool) (h : HeaderMap)
    → (if size then [] else if encoding then [] else if hop then [] else if token then [] else h)
      ≡ (if token || (encoding || (size || hop)) then [] else h)
if-none true encoding hop token h = ground arith
if-none false true hop token h = ground arith
if-none false false hop token h = ground arith

module _ (http : HttpCrate) (zero_percent : http.header_value "0.0" ≡ some (some "0.0")) where
  -- A map of the crate http: its names are in the form that `HeaderName` gives them.
  abbrev pub Wellformed : HeaderMap → Type 0
  Wellformed [] = Unit {0}
  Wellformed ((n, v) ∷ h) = (http.header_name n ≡ some n) × Wellformed h

  abbrev Names : List String → Type 0
  Names = All (λ n. http.header_name n ≡ some n)

  remove_header-Wellformed :
      (name : String) (h : HeaderMap) → Wellformed h → Wellformed (remove_header name h)
  unfolding remove_header
  remove_header-Wellformed name [] w = w
  remove_header-Wellformed name ((n, v) ∷ h) (first, later) =
      let rest = remove_header-Wellformed name h later in
      elim (Bool-cases (n == name)) [ inl e ↦ rw e rest | inr e ↦ rw e (first, rest) ]

  remove_headers-Wellformed :
      (names : List String) (h : HeaderMap) → Wellformed h → Wellformed (remove_headers names h)
  unfolding remove_headers
  remove_headers-Wellformed [] h w = w
  remove_headers-Wellformed (name ∷ names) h w =
      remove_headers-Wellformed names (remove_header name h) (remove_header-Wellformed name h w)

  cleaned-Wellformed :
      (h : HeaderMap)
      → Wellformed h
      → Wellformed (
          remove_header "content-length"
            (remove_header "content-encoding" (remove_hop_by_hop_response_headers http h)))
  unfolding remove_hop_by_hop_response_headers
  cleaned-Wellformed h w =
      let tokens = connection_names http (get_all h "connection") in
      let without = remove_headers tokens h in
      let hop =
        remove_headers-Wellformed hop_by_hop without (remove_headers-Wellformed tokens h w) in
      let plain = remove_headers hop_by_hop without in
      remove_header-Wellformed "content-length" (remove_header "content-encoding" plain)
        (remove_header-Wellformed "content-encoding" plain hop)

  header_names-Names : (h : HeaderMap) → Wellformed h → Names (header_names h)
  unfolding header_names
  header_names-Names [] w = w
  header_names-Names ((n, v) ∷ h) (first, later) =
      let rest = header_names-Names h later in
      elim (Bool-cases (contains (header_names h) n)) [
        | inl e ↦ rw e rest
        | inr e ↦ rw e (first, rest)
      ]

  get_all-reset_percent :
      (n : String) (h : HeaderMap) (name : String)
      → http.header_name n ≡ some n
      → get_all (reset_percent http n h) name
        ≡ (if n == name && is_used_percent name then (name, some "0.0") ∷ [] else get_all h name)
  unfolding reset_percent
  get_all-reset_percent n h name known =
      let set = get_all-set_header n (some "0.0") h name in
      elim (Bool-cases (n == name)) [
        | inl e ↦
            let same : n ≡ name = (eq_iff n name).0 e in
            elim (Bool-cases (is_used_percent n)) [
              | inl u ↦
                  let u' = subst (λ k. is_used_percent k ≡ true) same u in
                  rw (u, zero_percent, known, e, u')
                    (rw e at set ∙ ap (λ k. (k, some "0.0") ∷ []) same)
              | inr u ↦ let u' = subst (λ k. is_used_percent k ≡ false) same u in rw (u, e, u') refl
            ]
        | inr e ↦ elim (Bool-cases (is_used_percent n)) [
          | inl u ↦ rw (u, zero_percent, known, e) (rw e at set)
          | inr u ↦ rw (u, e) refl
        ]
      ]

  get_all-reset_percents :
      (names : List String) (h : HeaderMap) (name : String)
      → Names names
      → get_all (reset_percents http names h) name ≡ (
          if contains names name && is_used_percent name
          then (name, some "0.0") ∷ []
          else get_all h name)
  unfolding reset_percents
  get_all-reset_percents [] h name known = refl
  get_all-reset_percents (n ∷ names) h name (first, later) =
      let rest = get_all-reset_percents names (reset_percent http n h) name later in
      let now = get_all-reset_percent n h name first in
      rest
      ∙ ap (λ k. if contains names name && is_used_percent name then (name, some "0.0") ∷ [] else k)
          now
      ∙ if-or (n == name) (contains names name) (is_used_percent name) ((name, some "0.0") ∷ [])
          (get_all h name)

  -- Whether the answer loses the header.
  abbrev pub is_removed : HeaderMap → String → Bool
  is_removed h name =
      contains (connection_names http (get_all h "connection")) name
      || contains ("content-encoding" ∷ "content-length" ∷ hop_by_hop) name

  get_all-remove_hop_by_hop :
      (h : HeaderMap) (name : String)
      → get_all (remove_hop_by_hop_response_headers http h) name ≡ (
          if contains hop_by_hop name
          then []
          else if contains (connection_names http (get_all h "connection")) name
          then []
          else get_all h name)
  unfolding remove_hop_by_hop_response_headers
  get_all-remove_hop_by_hop h name =
      let tokens = connection_names http (get_all h "connection") in
      get_all-remove_headers hop_by_hop (remove_headers tokens h) name
      ∙ ap (λ k. if contains hop_by_hop name then [] else k) (get_all-remove_headers tokens h name)

  pub get_all-cleaned :
      (h : HeaderMap) (name : String)
      → get_all
          (remove_header "content-length"
            (remove_header "content-encoding" (remove_hop_by_hop_response_headers http h)))
          name
        ≡ (if is_removed h name then [] else get_all h name)
  get_all-cleaned h name =
      let hop = get_all-remove_hop_by_hop h name in
      let plain = remove_hop_by_hop_response_headers http h in
      let encoding = get_all-remove_header name "content-encoding" plain in
      let size =
        get_all-remove_header name "content-length" (remove_header "content-encoding" plain) in
      size
      ∙ ap (λ k. if "content-length" == name then [] else k)
          (encoding ∙ ap (λ k. if "content-encoding" == name then [] else k) hop)
      ∙ if-none ("content-length" == name) ("content-encoding" == name) (contains hop_by_hop name)
          (contains (connection_names http (get_all h "connection")) name) (get_all h name)

  -- What `sanitize_response_headers` leaves of the headers of the upstream's answer, if each of their
  -- names is one that `HeaderName` takes as it is and `0.0` may stand in a header: nothing under a
  -- name that concerns the connection, its tokens or the body's length and encoding; of a percentage
  -- of use, one value `0.0`; and every other header, as it was.
  pub get_all-sanitize_response_headers :
      (h : HeaderMap) (name : String)
      → Wellformed h
      → get_all (sanitize_response_headers http h) name ≡ (
          if is_removed h name
          then []
          else if contains (header_names h) name && is_used_percent name
          then (name, some "0.0") ∷ []
          else get_all h name)
  unfolding sanitize_response_headers normalize_rate_limit_headers
  get_all-sanitize_response_headers h name w =
      let cleaned =
        remove_header "content-length"
          (remove_header "content-encoding" (remove_hop_by_hop_response_headers http h)) in
      get_all-reset_percents (header_names cleaned) cleaned name
        (header_names-Names cleaned (cleaned-Wellformed h w))
      ∙ ap
          (λ b. if b && is_used_percent name then (name, some "0.0") ∷ [] else get_all cleaned name)
          (contains-get_all cleaned name)
      ∙ ap (reset name) (get_all-cleaned h name)
      ∙ reset-if (is_removed h name) h name
