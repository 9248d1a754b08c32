-- ===== src/Prelude/Order/Instances.antt =====
-- The orders of numbers, texts, optional values and records.
use Prim.Native.Nat.{compare as compare_nat, Ordering}
use Prim.Native.Nat.Ordering.{lt, gt}
use Prim.Native.String.compare
use Prim.Native.String.{String, compare}
use mathlib.Core.Path.{◌≡◌, refl}
use mathlib.Core.Option.{Option, none, some}
use native.Mathlib.Omega.{arith}
use text.Mathlib.TextEquality.{path_by_compare}
use text.Mathlib.TextPositions.{compare_refl}
use codaze.Prelude.Order.{IsOrder, then_with, compare_option, compare_bool}

pub compare_nat-IsOrder : IsOrder compare_nat
compare_nat-IsOrder = ground arith

-- The order of texts is that of their code points.
gt_of_lt_text : (s t : String) → compare s t ≡ lt → compare t s ≡ gt
gt_of_lt_text String.[] String.[] h = cc (compare.nil-nil, h)
gt_of_lt_text String.[] (String.◌∷◌ d t) h = compare.cons-nil d t
gt_of_lt_text (String.◌∷◌ c s) String.[] h = cc (compare.cons-nil c s)
gt_of_lt_text (String.◌∷◌ c s) (String.◌∷◌ d t) h =
    ground (arith, compare.cons-cons c d s t, compare.cons-cons d c t s, gt_of_lt_text s t)

lt_of_gt_text : (s t : String) → compare s t ≡ gt → compare t s ≡ lt
lt_of_gt_text String.[] String.[] h = cc (compare.nil-nil)
lt_of_gt_text String.[] (String.◌∷◌ d t) h = cc (compare.nil-cons d t)
lt_of_gt_text (String.◌∷◌ c s) String.[] h = compare.nil-cons c s
lt_of_gt_text (String.◌∷◌ c s) (String.◌∷◌ d t) h =
    ground (arith, compare.cons-cons c d s t, compare.cons-cons d c t s, lt_of_gt_text s t)

lt_trans_text : (s t u : String) → compare s t ≡ lt → compare t u ≡ lt → compare s u ≡ lt
lt_trans_text String.[] String.[] u h k = k
lt_trans_text String.[] (String.◌∷◌ d t) String.[] h k = cc (compare.cons-nil d t)
lt_trans_text String.[] (String.◌∷◌ d t) (String.◌∷◌ e u) h k = compare.nil-cons e u
lt_trans_text (String.◌∷◌ c s) String.[] u h k = cc (compare.cons-nil c s)
lt_trans_text (String.◌∷◌ c s) (String.◌∷◌ d t) String.[] h k = cc (compare.cons-nil d t)
lt_trans_text (String.◌∷◌ c s) (String.◌∷◌ d t) (String.◌∷◌ e u) h k = ground (
  arith,
  compare.cons-cons c d s t,
  compare.cons-cons d e t u,
  compare.cons-cons c e s u,
  lt_trans_text s t u,
  path_by_compare s t,
  path_by_compare t u,
)

pub compare-IsOrder : IsOrder compare
compare-IsOrder = record {
  cmp_refl = compare_refl;
  gt_of_lt = gt_of_lt_text;
  lt_of_gt = lt_of_gt_text;
  eq_symm = λ s t h. rw (path_by_compare s t h) (compare_refl t);
  lt_trans = lt_trans_text;
  eq_left = λ s t u h. rw (path_by_compare s t h);
  eq_right = λ s t u h. rw (path_by_compare s t h);
}

pub compare_bool-IsOrder : IsOrder compare_bool
compare_bool-IsOrder = ground arith

-- An order on a field is an order on the records.
pub on-IsOrder {ℓ κ} :
    {A : Type ℓ} {B : Type κ} (f : A → B) {cmp : B → B → Ordering}
    → IsOrder cmp
    → IsOrder (λ a b. cmp (f a) (f b))
on-IsOrder f o = record {
  cmp_refl = λ a. o.cmp_refl (f a);
  gt_of_lt = λ a b. o.gt_of_lt (f a) (f b);
  lt_of_gt = λ a b. o.lt_of_gt (f a) (f b);
  eq_symm = λ a b. o.eq_symm (f a) (f b);
  lt_trans = λ a b c. o.lt_trans (f a) (f b) (f c);
  eq_left = λ a b c. o.eq_left (f a) (f b) (f c);
  eq_right = λ a b c. o.eq_right (f a) (f b) (f c);
}

-- So is a lexicographic order.
module _ {ℓ} {A : Type ℓ} {f g : A → A → Ordering} (o : IsOrder f) (p : IsOrder g) where
  pub then_with-IsOrder : IsOrder (λ a b. then_with (f a b) (g a b))
  then_with-IsOrder = record {
    cmp_refl = λ a. ground (arith, o.cmp_refl a, p.cmp_refl a);
    gt_of_lt = λ a b. ground (arith, o.gt_of_lt a b, p.gt_of_lt a b, o.eq_symm a b);
    lt_of_gt = λ a b. ground (arith, o.lt_of_gt a b, p.lt_of_gt a b, o.eq_symm a b);
    eq_symm = λ a b. ground (arith, o.eq_symm a b, p.eq_symm a b);
    lt_trans = λ a b c.
        ground (arith, o.lt_trans a b c, p.lt_trans a b c, o.eq_left a b c, o.eq_right b c a);
    eq_left = λ a b c. ground (arith, o.eq_left a b c, p.eq_left a b c);
    eq_right = λ a b c. ground (arith, o.eq_right a b c, p.eq_right a b c);
  }

module _ {ℓ} {A : Type ℓ} {cmp : A → A → Ordering} (o : IsOrder cmp) where
  gt_of_lt_option : (a b : Option A) → compare_option cmp a b ≡ lt → compare_option cmp b a ≡ gt
  gt_of_lt_option none none h = cc
  gt_of_lt_option none (some b) h = refl
  gt_of_lt_option (some a) none h = cc
  gt_of_lt_option (some a) (some b) h = o.gt_of_lt a b h

  lt_of_gt_option : (a b : Option A) → compare_option cmp a b ≡ gt → compare_option cmp b a ≡ lt
  lt_of_gt_option none none h = cc
  lt_of_gt_option none (some b) h = cc
  lt_of_gt_option (some a) none h = refl
  lt_of_gt_option (some a) (some b) h = o.lt_of_gt a b h

  pub compare_option-IsOrder : IsOrder (compare_option cmp)
  compare_option-IsOrder = record {
    cmp_refl = elim [ none ↦ refl | some a ↦ o.cmp_refl a ];
    gt_of_lt = gt_of_lt_option;
    lt_of_gt = lt_of_gt_option;
    eq_symm = λ a b. grind (arith, o.eq_symm);
    lt_trans = λ a b c. grind (arith, o.lt_trans);
    eq_left = λ a b c. grind (arith, o.eq_left);
    eq_right = λ a b c. grind (arith, o.eq_right);
  }
