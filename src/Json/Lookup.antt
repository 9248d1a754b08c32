-- ===== src/Json/Lookup.antt =====
-- What a field is after each operation on an object, for objects that hold each name once.
use codaze.Prelude.{String, none, some, ◌≡◌, refl, arith, if◌then◌else◌, ◌==◌, eq_iff}
use mathlib.Core.Option
use codaze.Json.{
  Value, Fields, end, field, get_field, set_field, or_insert, change_field, under_first, last_first,
  remove_field,
}
use codaze.Prelude.{or_else}

abbrev pub HasDistinct : Fields → Type 0
HasDistinct end = Unit {0}
HasDistinct (field n v rest) = (get_field n rest ≡ none) × HasDistinct rest

pub get_field-set_field :
    (j name : String) (v : Value) (fs : Fields)
    → get_field j (set_field name v fs) ≡ (if name == j then some v else get_field j fs)
unfolding set_field
get_field-set_field j name v end = refl
get_field-set_field j name v (field n w rest) =
    ground (arith, eq_iff n name, eq_iff n j, eq_iff name j, get_field-set_field j name v rest)

pub get_field-or_insert :
    (j name : String) (v : Value) (fs : Fields)
    → get_field j (or_insert name v fs)
      ≡ (if name == j then or_else (get_field j fs) (some v) else get_field j fs)
unfolding or_insert
get_field-or_insert j name v end = ground arith
get_field-or_insert j name v (field n w rest) =
    ground (arith, eq_iff n name, eq_iff n j, eq_iff name j, get_field-or_insert j name v rest)

pub get_field-change_field :
    (j name : String) (f : Value → Value) (fs : Fields)
    → get_field j (change_field name f fs)
      ≡ (if name == j then Option.map f (get_field j fs) else get_field j fs)
unfolding change_field
get_field-change_field j name f end = ground arith
get_field-change_field j name f (field n w rest) =
    ground (arith, eq_iff n name, eq_iff n j, eq_iff name j, get_field-change_field j name f rest)

get_field-under_first :
    (j n : String) (v : Value) (fs : Fields)
    → get_field n fs ≡ none
    → get_field j (under_first n v fs) ≡ (if n == j then some v else get_field j fs)
unfolding under_first
get_field-under_first j n v end h = refl
get_field-under_first j n v (field m w rest) h = ground (arith, eq_iff m n, eq_iff m j, eq_iff n j)

get_field-last_first :
    (j : String) (fs : Fields) → HasDistinct fs → get_field j (last_first fs) ≡ get_field j fs
unfolding last_first
get_field-last_first j end d = refl
get_field-last_first j (field n v rest) d =
    let here = get_field-last_first n rest d.1 in
    let there = get_field-last_first j rest d.1 in
    let moved = get_field-under_first j n v (last_first rest) (cc) in ground arith

pub get_field-remove_field :
    (j name : String) (fs : Fields)
    → HasDistinct fs
    → get_field j (remove_field name fs) ≡ (if name == j then none else get_field j fs)
unfolding remove_field
get_field-remove_field j name end d = ground arith
get_field-remove_field j name (field n w rest) d =
    let later = get_field-remove_field j name rest d.1 in
    let moved = get_field-last_first j rest d.1 in
    ground (arith, eq_iff n name, eq_iff n j, eq_iff name j)

under_first-HasDistinct :
    (n : String) (v : Value) (fs : Fields)
    → get_field n fs ≡ none
    → HasDistinct fs
    → HasDistinct (under_first n v fs)
unfolding under_first
under_first-HasDistinct n v end h d = (refl, tt)
under_first-HasDistinct n v (field m w rest) h d = ground (arith, eq_iff m n, eq_iff n m)

last_first-HasDistinct : (fs : Fields) → HasDistinct fs → HasDistinct (last_first fs)
unfolding last_first
last_first-HasDistinct end d = tt
last_first-HasDistinct (field n v rest) d =
    let here = get_field-last_first n rest d.1 in
    under_first-HasDistinct n v (last_first rest) (cc) (last_first-HasDistinct rest d.1)

pub remove_field-HasDistinct :
    (name : String) (fs : Fields) → HasDistinct fs → HasDistinct (remove_field name fs)
unfolding remove_field
remove_field-HasDistinct name end d = tt
remove_field-HasDistinct name (field n w rest) d =
    let kept = remove_field-HasDistinct name rest d.1 in
    let moved = last_first-HasDistinct rest d.1 in
    let gone = get_field-remove_field n name rest d.1 in ground (arith, eq_iff n name)

pub set_field-HasDistinct :
    (name : String) (v : Value) (fs : Fields) → HasDistinct fs → HasDistinct (set_field name v fs)
unfolding set_field
set_field-HasDistinct name v end d = (refl, tt)
set_field-HasDistinct name v (field n w rest) d = ground (
  arith,
  set_field-HasDistinct name v rest d.1,
  get_field-set_field n name v rest,
  eq_iff n name,
  eq_iff name n,
)
