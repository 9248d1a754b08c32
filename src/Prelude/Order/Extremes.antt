-- ===== src/Prelude/Order/Extremes.antt =====
-- `min_by`, `max_by` and `sort_by` answer with elements, and `min_by` with a least one.
use Prim.Native.Nat.{Ordering}
use Prim.Native.Nat.Ordering.{gt}
use mathlib.Core.Path.{◌≡◌, refl, sym, subst, ◌∙◌}
use mathlib.Core.Logic.{◌≢◌, ◌↔◌, ◌⊎◌, inl, inr}
use mathlib.Core.Option.{some}
use mathlib.Core.List.{List, [], ◌∷◌}
use native.Mathlib.Omega.{arith}
use codaze.Prelude.Tests.{All, In, if◌then◌else◌, Bool-cases}
use codaze.Prelude.Order.{
  IsOrder, Ordering-cases, is_gt, min_from, min_by, max_from, max_by, insert_by, sort_by,
}

module _ {A : Type 0} {cmp : A → A → Ordering} (o : IsOrder cmp) where
  -- "not greater" is transitive.
  pub le_trans_by : (a b c : A) → cmp a b ≢ gt → cmp b c ≢ gt → cmp a c ≢ gt
  le_trans_by a b c h k = elim (Ordering-cases (cmp a b)) [
    | inl e ↦ elim (Ordering-cases (cmp b c)) [
      | inl f ↦ λ g. cc (o.lt_trans a b c e f)
      | inr (inl f) ↦ λ g. cc (o.eq_right b c a f)
      | inr (inr f) ↦ absurd (k f)
    ]
    | inr (inl e) ↦ λ g. k (sym (o.eq_left a b c e) ∙ g)
    | inr (inr e) ↦ absurd (h e)
  ]

  -- One round of `min_by` keeps an element that is not greater than the two.
  min_step-least :
      (m x : A) → let m' = if is_gt (cmp m x) then x else m in (cmp m' m ≢ gt) × (cmp m' x ≢ gt)
  min_step-least m x =
      ground (arith, o.cmp_refl m, o.cmp_refl x, o.lt_of_gt m x, Ordering-cases (cmp m x))

  -- The accumulator's answer is least among the accumulator and the list.
  min_from-least :
      (m : A) (xs : List A)
      → (cmp (min_from cmp m xs) m ≢ gt) × All (λ x. cmp (min_from cmp m xs) x ≢ gt) xs
  min_from-least m [] = (λ e. cc (o.cmp_refl m), tt)
  min_from-least m (x ∷ xs) =
      let m' = if is_gt (cmp m x) then x else m in
      let (before, rest) = min_from-least m' xs in
      let (below, here) = min_step-least m x in
      (le_trans_by _ m' m before below, (le_trans_by _ m' x before here, rest))

  -- Nothing in the list is less than the answer of `min_by`.
  pub min_by-least : (xs : List A) {m : A} → min_by cmp xs ≡ some m → All (λ x. cmp m x ≢ gt) xs
  min_by-least [] h = cc
  min_by-least (x ∷ xs) {m} h =
      subst (λ z. All (λ y. cmp z y ≢ gt) (x ∷ xs)) (cc) (min_from-least x xs)

module _ {A : Type 0} (cmp : A → A → Ordering) where
  min_from-In : (m : A) (xs : List A) → In (min_from cmp m xs) (m ∷ xs)
  min_from-In m [] = inl refl
  min_from-In m (x ∷ xs) = elim (min_from-In (if is_gt (cmp m x) then x else m) xs) [
    | inl here ↦ elim (Bool-cases (is_gt (cmp m x))) [
      | inl e ↦ inr (inl (ground arith))
      | inr e ↦ inl (ground arith)
    ]
    | inr later ↦ inr (inr later)
  ]

  -- The answer is an element, and there is one unless the list is empty.
  pub min_by-In : (xs : List A) {m : A} → min_by cmp xs ≡ some m → In m xs
  min_by-In [] h = cc
  min_by-In (x ∷ xs) {m} h = subst (λ z. In z (x ∷ xs)) (cc) (min_from-In x xs)

  max_from-In : (m : A) (xs : List A) → In (max_from cmp m xs) (m ∷ xs)
  max_from-In m [] = inl refl
  max_from-In m (x ∷ xs) = elim (max_from-In (if is_gt (cmp m x) then m else x) xs) [
    | inl here ↦ elim (Bool-cases (is_gt (cmp m x))) [
      | inl e ↦ inl (ground arith)
      | inr e ↦ inr (inl (ground arith))
    ]
    | inr later ↦ inr (inr later)
  ]

  pub max_by-In : (xs : List A) {m : A} → max_by cmp xs ≡ some m → In m xs
  max_by-In [] h = cc
  max_by-In (x ∷ xs) {m} h = subst (λ z. In z (x ∷ xs)) (cc) (max_from-In x xs)

  In-insert_by : (x a : A) (xs : List A) → In a (insert_by cmp x xs) ↔ ((a ≡ x) ⊎ In a xs)
  In-insert_by x a [] = (λ h. h, λ h. h)
  In-insert_by x a (y ∷ ys) = elim (Bool-cases (is_gt (cmp x y))) [
    | inl e ↦ rw e (
      λ h. elim h [
        | inl p ↦ inr (inl p)
        | inr q ↦ elim ((In-insert_by x a ys).0 q) [ inl p ↦ inl p | inr p ↦ inr (inr p) ]
      ],
      λ h. elim h [
        | inl p ↦ inr ((In-insert_by x a ys).1 (inl p))
        | inr q ↦ elim q [ inl p ↦ inl p | inr p ↦ inr ((In-insert_by x a ys).1 (inr p)) ]
      ],
    )
    | inr e ↦ rw e (λ h. h, λ h. h)
  ]

  -- A sort keeps the elements.
  pub In-sort_by : (a : A) (xs : List A) → In a (sort_by cmp xs) ↔ In a xs
  In-sort_by a [] = (λ h. h, λ h. h)
  In-sort_by a (x ∷ xs) =
      let (to, from) = In-insert_by x a (sort_by cmp xs) in
      let (down, up) = In-sort_by a xs in
      (
        λ h. elim (to h) [ inl p ↦ inl p | inr q ↦ inr (down q) ],
        λ h. from (elim h [ inl p ↦ inl p | inr q ↦ inr (up q) ]),
      )
