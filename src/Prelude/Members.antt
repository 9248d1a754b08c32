-- ===== src/Prelude/Members.antt =====
-- Membership in mapped and filtered lists, and in the values of a map.
use mathlib.Core.Path.{◌≡◌, refl, sym, subst}
use mathlib.Core.Logic.{inl, inr}
use mathlib.Core.Bool.{Bool, true, false}
use mathlib.Core.Option.{some}
use mathlib.Core.List.{List, [], ◌∷◌, map}
use Prim.Native.String.{String}
use native.Mathlib.Omega.{arith}
use text.Mathlib.TextEquality.{eq_iff}
use text.Mathlib.Text.{◌==◌}
use codaze.Prelude.Tests.{contains, In, keep_if, Bool-cases}
use codaze.Prelude.Assoc.{lookup, values, Distinct, Entries}

module _ {A B : Type 0} (f : A → B) where
  pub In-map : (b : B) (xs : List A) → In b (map f xs) → (a : A) × In a xs × (b ≡ f a)
  In-map b [] h = elim h [ ]
  In-map b (x ∷ xs) (inl e) = (x, inl refl, e)
  In-map b (x ∷ xs) (inr h) = let (a, m, e) = In-map b xs h in (a, inr m, e)

  pub In-map_of : (a : A) (xs : List A) → In a xs → In (f a) (map f xs)
  In-map_of a [] h = h
  In-map_of a (x ∷ xs) (inl e) = inl (cc)
  In-map_of a (x ∷ xs) (inr h) = inr (In-map_of a xs h)

module _ {A : Type 0} (p : A → Bool) where
  pub In-keep_if : (a : A) (xs : List A) → In a (keep_if p xs) → In a xs × (p a ≡ true)
  In-keep_if a [] h = elim h [ ]
  In-keep_if a (x ∷ xs) h = elim (Bool-cases (p x)) [
    | inl e ↦ elim (rw e at h) [
      | inl same ↦ (inl same, subst (λ z. p z ≡ true) (sym same) e)
      | inr later ↦ let (m, t) = In-keep_if a xs later in (inr m, t)
    ]
    | inr e ↦ let (m, t) = In-keep_if a xs (rw e at h) in (inr m, t)
  ]

  pub In-keep_if_of : (a : A) (xs : List A) → In a xs → p a ≡ true → In a (keep_if p xs)
  In-keep_if_of a [] h t = h
  In-keep_if_of a (x ∷ xs) (inl same) t =
      let e : p x ≡ true = subst (λ z. p z ≡ true) same t in rw e (inl same)
  In-keep_if_of a (x ∷ xs) (inr later) t = elim (Bool-cases (p x)) [
    | inl e ↦ rw e (inr (In-keep_if_of a xs later t))
    | inr e ↦ rw e (In-keep_if_of a xs later t)
  ]

module _ {V : Type 0} where
  -- A value stands under some key, and with distinct keys the map finds it there.
  pub In-values :
      (P : String → V → Type 0) (v : V) (m : List (String × V))
      → Distinct m
      → Entries P m
      → In v (values m)
      → (k : String) × P k v × (lookup k m ≡ some v)
  unfolding lookup
  In-values P v [] d e h = elim h [ ]
  In-values P v ((j, w) ∷ m) d e (inl same) =
      (j, subst (P j) (sym same) e.0, ground (arith, eq_iff j j))
  In-values P v ((j, w) ∷ m) d e (inr later) =
      let (k, holds, found) = In-values P v m d.1 e.1 later in
      (k, holds, ground (arith, eq_iff j k, d.0))

  -- What holds of each entry holds of a value under some key.
  pub Entries-values :
      (P : String → V → Type 0) (v : V) (m : List (String × V))
      → Entries P m
      → In v (values m)
      → (k : String) × P k v
  Entries-values P v [] e h = elim h [ ]
  Entries-values P v ((j, w) ∷ m) e (inl same) = (j, subst (P j) (sym same) e.0)
  Entries-values P v ((j, w) ∷ m) e (inr later) = Entries-values P v m e.1 later

-- A text outside a list differs from each text in it.
pub contains-differs :
    (names : List String) (name j : String)
    → contains names name ≡ false
    → contains names j ≡ true
    → (name == j) ≡ false
contains-differs names name j out member = elim (Bool-cases (name == j)) [
  | inl same ↦
      let e : name ≡ j = (eq_iff name j).0 same in
      let twice = subst (λ n. contains names n ≡ false) e out in absurd (cc)
  | inr differ ↦ differ
]

pub contains-differs_in :
    (names : List String) (name j : String)
    → contains names j ≡ false
    → contains names name ≡ true
    → (name == j) ≡ false
contains-differs_in names name j out member = elim (Bool-cases (name == j)) [
  | inl same ↦
      let e : name ≡ j = (eq_iff name j).0 same in
      let twice = subst (λ n. contains names n ≡ true) e member in absurd (cc)
  | inr differ ↦ differ
]
