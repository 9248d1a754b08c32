-- ===== src/Prelude/Assoc.antt =====
-- `HashMap<String, V>` as an association list, in the order in which the map happens to be
-- iterated: whatever holds for every list holds for every order.
use Prim.Native.String.{String}
use mathlib.Core.Path.{◌≡◌, refl, sym, subst}
use mathlib.Core.Logic.{inl, inr}
use mathlib.Core.Option
use mathlib.Core.Option.{Option, none, some}
use mathlib.Core.List.{List, [], ◌∷◌}
use native.Mathlib.Omega.{arith}
use text.Mathlib.Text.{◌==◌}
use text.Mathlib.TextEquality.{eq_iff}
use codaze.Prelude.Tests.{if◌then◌else◌, Bool-cases}

module _ {V : Type 0} where
  -- `get`
  unfoldable pub lookup : String → List (String × V) → Option V
  lookup k [] = none
  lookup k ((j, v) ∷ m) = if j == k then some v else lookup k m

  -- `get_mut`, and a mutation of what it finds
  unfoldable pub adjust : String → (V → V) → List (String × V) → List (String × V)
  adjust k f [] = []
  adjust k f ((j, v) ∷ m) = if j == k then (j, f v) ∷ m else (j, v) ∷ adjust k f m

  unfoldable pub insert : String → V → List (String × V) → List (String × V)
  insert key new [] = (key, new) ∷ []
  insert key new ((other, old) ∷ rest) =
      if other == key then (other, new) ∷ rest else (other, old) ∷ insert key new rest

  unfoldable pub remove : String → List (String × V) → List (String × V)
  remove k [] = []
  remove k ((j, v) ∷ m) = if j == k then m else (j, v) ∷ remove k m

  -- `values_mut`
  abbrev pub map_values : (V → V) → List (String × V) → List (String × V)
  map_values f [] = []
  map_values f ((j, v) ∷ m) = (j, f v) ∷ map_values f m

  abbrev pub values : List (String × V) → List V
  values [] = []
  values ((j, v) ∷ m) = v ∷ values m

  abbrev pub keys : List (String × V) → List String
  keys [] = []
  keys ((j, v) ∷ m) = j ∷ keys m

  -- No key stands twice.
  abbrev pub Distinct : List (String × V) → Type 0
  Distinct [] = Unit {0}
  Distinct ((j, v) ∷ m) = (lookup j m ≡ none) × Distinct m

  -- A property of every entry.
  abbrev pub Entries : (String → V → Type 0) → List (String × V) → Type 0
  Entries P [] = Unit {0}
  Entries P ((j, v) ∷ m) = P j v × Entries P m

  pub lookup-adjust :
      (k j : String) (f : V → V) (m : List (String × V))
      → lookup j (adjust k f m) ≡ (if k == j then Option.map f (lookup j m) else lookup j m)
  unfolding lookup adjust
  lookup-adjust k j f [] = ground arith
  lookup-adjust k j f ((i, w) ∷ m) =
      ground (arith, eq_iff k j, eq_iff i k, eq_iff i j, lookup-adjust k j f m)

  pub lookup-insert :
      (key at : String) (new : V) (m : List (String × V))
      → lookup at (insert key new m) ≡ (if key == at then some new else lookup at m)
  unfolding lookup insert
  lookup-insert key at new [] = refl
  lookup-insert key at new ((other, old) ∷ rest) =
      ground
        (arith, eq_iff key at, eq_iff other key, eq_iff other at, lookup-insert key at new rest)

  pub lookup-remove :
      (k j : String) (m : List (String × V))
      → Distinct m
      → lookup j (remove k m) ≡ (if k == j then none else lookup j m)
  unfolding lookup remove
  lookup-remove k j [] d = ground arith
  lookup-remove k j ((i, w) ∷ m) d =
      ground (arith, eq_iff k j, eq_iff i k, eq_iff i j, lookup-remove k j m d.1)

  pub lookup-map_values :
      (f : V → V) (j : String) (m : List (String × V))
      → lookup j (map_values f m) ≡ Option.map f (lookup j m)
  unfolding lookup
  lookup-map_values f j [] = refl
  lookup-map_values f j ((i, w) ∷ m) = ground (arith, lookup-map_values f j m)

  -- What is not among the keys stays so.
  lookup-adjust-none :
      (k j : String) (f : V → V) (m : List (String × V))
      → lookup j m ≡ none
      → lookup j (adjust k f m) ≡ none
  lookup-adjust-none k j f m h = rw (lookup-adjust k j f m, h) (ground arith)

  pub adjust-Distinct :
      (k : String) (f : V → V) (m : List (String × V)) → Distinct m → Distinct (adjust k f m)
  unfolding adjust
  adjust-Distinct k f [] d = tt
  adjust-Distinct k f ((i, w) ∷ m) d =
      ground (arith, adjust-Distinct k f m d.1, lookup-adjust-none k i f m)

  pub map_values-Distinct :
      (f : V → V) (m : List (String × V)) → Distinct m → Distinct (map_values f m)
  map_values-Distinct f [] d = tt
  map_values-Distinct f ((i, w) ∷ m) d =
      (rw (lookup-map_values f i m, d.0), map_values-Distinct f m d.1)

  pub insert-Distinct :
      (k : String) (v : V) (m : List (String × V)) → Distinct m → Distinct (insert k v m)
  unfolding insert lookup
  insert-Distinct k v [] d = (refl, tt)
  insert-Distinct k v ((i, w) ∷ m) d =
      ground (arith, insert-Distinct k v m d.1, lookup-insert k i v m, eq_iff k i, eq_iff i k)

  pub remove-Distinct : (k : String) (m : List (String × V)) → Distinct m → Distinct (remove k m)
  unfolding remove
  remove-Distinct k [] d = tt
  remove-Distinct k ((i, w) ∷ m) d =
      ground (arith, remove-Distinct k m d.1, lookup-remove k i m d.1)

  module _ (P : String → V → Type 0) where
    -- A property of every entry holds of what is found.
    pub Entries-lookup :
        (k : String) (m : List (String × V)) {v : V} → Entries P m → lookup k m ≡ some v → P k v
    unfolding lookup
    Entries-lookup k [] e h = cc
    Entries-lookup k ((j, w) ∷ m) {v} e h = elim (Bool-cases (j == k)) [
      | inl same ↦
          let found : w ≡ v = ground arith in
          subst (λ z. P k z) found (subst (λ i. P i w) ((eq_iff j k).0 same) e.0)
      | inr other ↦ Entries-lookup k m e.1 (ground arith)
    ]

    pub adjust-Entries :
        (k : String) (f : V → V) (m : List (String × V))
        → ((v : V) → P k v → P k (f v))
        → Entries P m
        → Entries P (adjust k f m)
    unfolding adjust
    adjust-Entries k f [] h e = tt
    adjust-Entries k f ((j, w) ∷ m) h e = elim (Bool-cases (j == k)) [
      | inl same ↦
          let at : j ≡ k = (eq_iff j k).0 same in
          rw same (subst (λ i. P i (f w)) (sym at) (h w (subst (λ i. P i w) at e.0)), e.1)
      | inr other ↦ rw other (e.0, adjust-Entries k f m h e.1)
    ]

    pub insert-Entries :
        (k : String) (v : V) (m : List (String × V))
        → P k v
        → Entries P m
        → Entries P (insert k v m)
    unfolding insert
    insert-Entries k v [] h e = (h, tt)
    insert-Entries k v ((j, w) ∷ m) h e = elim (Bool-cases (j == k)) [
      | inl same ↦ rw same (subst (λ i. P i v) (sym ((eq_iff j k).0 same)) h, e.1)
      | inr other ↦ rw other (e.0, insert-Entries k v m h e.1)
    ]

    pub remove-Entries : (k : String) (m : List (String × V)) → Entries P m → Entries P (remove k m)
    unfolding remove
    remove-Entries k [] e = tt
    remove-Entries k ((j, w) ∷ m) e = elim (Bool-cases (j == k)) [
      | inl same ↦ rw same e.1
      | inr other ↦ rw other (e.0, remove-Entries k m e.1)
    ]

    pub map_values-Entries :
        (f : V → V) (m : List (String × V))
        → ((j : String) (v : V) → P j v → P j (f v))
        → Entries P m
        → Entries P (map_values f m)
    map_values-Entries f [] h e = tt
    map_values-Entries f ((j, w) ∷ m) h e = (h j w e.0, map_values-Entries f m h e.1)
