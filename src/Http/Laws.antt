-- ===== src/Http/Laws.antt =====
-- The values of a header after each operation on a map.
use codaze.Prelude.{
  ap, ◌∙◌, String, false, Option, [], ◌∷◌, ◌++◌, ◌≡◌, refl, arith, if◌then◌else◌, ◌==◌, eq_iff, inl,
  inr, Bool-cases,
}
use codaze.Semantics.Payload.{HeaderMap}
use codaze.Http.{get_all, remove_header, set_header}

pub get_all-append :
    (name : String) (h k : HeaderMap) → get_all (h ++ k) name ≡ get_all h name ++ get_all k name
get_all-append name [] k = refl
get_all-append name ((n, v) ∷ h) k = let rest = get_all-append name h k in ground arith

pub get_all-remove_header :
    (name gone : String) (h : HeaderMap)
    → get_all (remove_header gone h) name ≡ (if gone == name then [] else get_all h name)
unfolding remove_header
get_all-remove_header name gone [] = ground arith
get_all-remove_header name gone ((n, v) ∷ h) =
    let rest = get_all-remove_header name gone h in
    ground (arith, eq_iff n gone, eq_iff n name, eq_iff gone name)

pub get_all_idem : (name : String) (h : HeaderMap) → get_all (get_all h name) name ≡ get_all h name
get_all_idem name [] = refl
get_all_idem name ((n, v) ∷ h) = let rest = get_all_idem name h in ground arith

pub get_all_other :
    (name other : String) (h : HeaderMap)
    → (other == name) ≡ false
    → get_all (get_all h other) name ≡ []
get_all_other name other [] differ = refl
get_all_other name other ((n, v) ∷ h) differ =
    let rest = get_all_other name other h differ in
    ground (arith, eq_iff n other, eq_iff n name, eq_iff other name)

pub append_nil : (h : HeaderMap) → h ++ [] ≡ h
append_nil [] = refl
append_nil (e ∷ h) = ap (λ k. e ∷ k) (append_nil h)

pub get_all-set_header :
    (n : String) (v : Option String) (h : HeaderMap) (name : String)
    → get_all (set_header n v h) name ≡ (if n == name then (n, v) ∷ [] else get_all h name)
unfolding set_header
get_all-set_header n v h name =
    get_all-append name (remove_header n h) ((n, v) ∷ []) ∙ elim (Bool-cases (n == name)) [
      | inl e ↦ rw (get_all-remove_header name n h, e) refl
      | inr e ↦ rw (get_all-remove_header name n h, e) (append_nil (get_all h name))
    ]
