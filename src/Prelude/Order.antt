-- ===== src/Prelude/Order.antt =====
-- Three-way comparison: `then_with`, the order of texts and of optional times, `min_by`, `max_by`
-- and `sort_by` of the standard library.
pub mod Extremes
pub mod Instances
use Prim.Native.Nat.{Ordering}
use Prim.Native.Nat.Ordering.{lt, eq, gt}
pub use Prim.Native.String.{then as then_with}
use mathlib.Core.Path.{◌≡◌, refl}
use mathlib.Core.Logic.{◌⊎◌, inl, inr}
use mathlib.Core.Bool.{Bool, true, false}
use mathlib.Core.Option.{Option, none, some}
use mathlib.Core.List.{List, [], ◌∷◌}
use codaze.Prelude.Tests.{if◌then◌else◌}

-- The laws that `Ord` asks of `cmp`, but that equal elements are one.
pub record IsOrder {ℓ} {A : Type ℓ} (cmp : A → A → Ordering) : Type ℓ where
  pub cmp_refl : (a : A) → cmp a a ≡ eq
  pub gt_of_lt : (a b : A) → cmp a b ≡ lt → cmp b a ≡ gt
  pub lt_of_gt : (a b : A) → cmp a b ≡ gt → cmp b a ≡ lt
  pub eq_symm : (a b : A) → cmp a b ≡ eq → cmp b a ≡ eq
  pub lt_trans : (a b c : A) → cmp a b ≡ lt → cmp b c ≡ lt → cmp a c ≡ lt
  pub eq_left : (a b c : A) → cmp a b ≡ eq → cmp a c ≡ cmp b c
  pub eq_right : (a b c : A) → cmp a b ≡ eq → cmp c a ≡ cmp c b

abbrev pub is_gt : Ordering → Bool
is_gt gt = true
is_gt _ = false

pub Ordering-cases : (o : Ordering) → (o ≡ lt) ⊎ (o ≡ eq) ⊎ (o ≡ gt)
Ordering-cases lt = inl refl
Ordering-cases eq = inr (inl refl)
Ordering-cases gt = inr (inr refl)

-- `Option`'s order: `None` is the least.
abbrev pub compare_option {ℓ} : {A : Type ℓ} → (A → A → Ordering) → Option A → Option A → Ordering
compare_option cmp none none = eq
compare_option cmp none (some b) = lt
compare_option cmp (some a) none = gt
compare_option cmp (some a) (some b) = cmp a b

-- `bool`'s order: `false` is the least.
abbrev pub compare_bool : Bool → Bool → Ordering
compare_bool false false = eq
compare_bool false true = lt
compare_bool true false = gt
compare_bool true true = eq

module _ {ℓ} {A : Type ℓ} (cmp : A → A → Ordering) where
  -- `Iterator::min_by`: the first of the least elements.
  abbrev pub min_from : A → List A → A
  min_from m [] = m
  min_from m (x ∷ xs) = min_from (if is_gt (cmp m x) then x else m) xs

  abbrev pub min_by : List A → Option A
  min_by [] = none
  min_by (x ∷ xs) = some (min_from x xs)

  -- `Iterator::max_by`: the last of the greatest elements.
  abbrev pub max_from : A → List A → A
  max_from m [] = m
  max_from m (x ∷ xs) = max_from (if is_gt (cmp m x) then m else x) xs

  abbrev pub max_by : List A → Option A
  max_by [] = none
  max_by (x ∷ xs) = some (max_from x xs)

  -- `slice::sort_by`, a stable sort.
  abbrev pub insert_by : A → List A → List A
  insert_by x [] = x ∷ []
  insert_by x (y ∷ ys) = if is_gt (cmp x y) then y ∷ insert_by x ys else x ∷ y ∷ ys

  abbrev pub sort_by : List A → List A
  sort_by [] = []
  sort_by (x ∷ xs) = insert_by x (sort_by xs)
