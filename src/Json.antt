-- ===== src/Json.antt =====
-- The values of serde_json that the program takes apart. A number is the integer that `as_i64` reads,
-- or its text where that answers `None`. An object is an `IndexMap`, as serde_json has it here.
pub mod Lookup
use codaze.Prelude.{ℕ, String, Bool, true, Option, none, some, if◌then◌else◌, is_some, ◌==◌}

-- `negsuc n` is -(n + 1).
pub data ℤ : Type 0 where
  pos : ℕ → ℤ
  negsuc : ℕ → ℤ

mutual
  pub data Value : Type 0 where
    null : Value
    float : String → Value
    bool : Bool → Value
    number : ℤ → Value
    string : String → Value
    array : Items → Value
    object : Fields → Value

  pub data Items : Type 0 where
    nil : Items
    cons : Value → Items → Items

  -- An object holds its fields in order, each name once.
  pub data Fields : Type 0 where
    end : Fields
    field : String → Value → Fields → Fields

abbrev pub get_field : String → Fields → Option Value
get_field name end = none
get_field name (field n v rest) = if n == name then some v else get_field name rest

-- `Value::get` at a name, `as_str`, `as_i64`
abbrev pub get : Value → String → Option Value
get (object fields) name = get_field name fields
get _ name = none

abbrev pub as_str : Value → Option String
as_str (string s) = some s
as_str _ = none

abbrev pub as_i64 : Value → Option ℤ
as_i64 (number i) = some i
as_i64 _ = none

abbrev pub as_object : Value → Option Fields
as_object (object fields) = some fields
as_object _ = none

-- The fields of the object that a chain of `insert`s makes.
abbrev pub one_field : String → Value → Fields
one_field name v = field name v end

abbrev pub one_item : Value → Value
one_item v = array (cons v nil)

-- `Map::insert`: a field that is there keeps its place.
unfoldable pub set_field : String → Value → Fields → Fields
set_field name v end = field name v end
set_field name v (field n w rest) =
    let others = set_field name v rest in if n == name then field n v rest else field n w others

-- `entry(name).or_insert(v)`
unfoldable pub or_insert : String → Value → Fields → Fields
or_insert name v end = field name v end
or_insert name v (field n w rest) =
    let others = or_insert name v rest in if n == name then field n w rest else field n w others

-- `get_mut`, and a change of what it finds
unfoldable pub change_field : String → (Value → Value) → Fields → Fields
change_field name f end = end
change_field name f (field n w rest) =
    let others = change_field name f rest in
    if n == name then field n (f w) rest else field n w others

-- `Map::remove` is `swap_remove`: the last field takes the place of the one that goes.
unfoldable pub under_first : String → Value → Fields → Fields
under_first n v end = field n v end
under_first n v (field m w rest) = field m w (field n v rest)

unfoldable pub last_first : Fields → Fields
unfolding under_first
last_first end = end
last_first (field n v rest) = under_first n v (last_first rest)

unfoldable pub remove_field : String → Fields → Fields
unfolding last_first
remove_field name end = end
remove_field name (field n w rest) =
    let others = remove_field name rest in if n == name then last_first rest else field n w others
