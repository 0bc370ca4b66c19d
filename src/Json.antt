-- ===== src/Json.antt =====
-- `serde_json::Value` and the accessors that the program calls on it. Parsing and printing of
-- JSON text are not here: they are parameters where they are used.
use cpa_stg.Base.{ℕ, String, Bool, true, false, Option, none, some, ◌==◌, string_eq, if◌then◌else◌}

-- A JSON number: a `u64`, a negative `i64` by its absolute value, or the bits of an `f64`.
pub data Number : Type 0 where
  unsigned : ℕ → Number
  negative : ℕ → Number
  float : ℕ → Number

mutual
  pub data Value : Type 0 where
    null : Value
    bool : Bool → Value
    number : Number → Value
    string : String → Value
    array : Items → Value
    object : Fields → Value

  pub data Items : Type 0 where
    nil : Items
    cons : Value → Items → Items

  pub data Fields : Type 0 where
    end : Fields
    field : String → Value → Fields → Fields

-- `Map::get`
unfoldable pub get_field : Fields → String → Option Value
get_field end k = none
get_field (field j v fs) k = if j == k then some v else get_field fs k

-- `Map::insert`
unfoldable pub set_field : Fields → String → Value → Fields
set_field end k v = field k v end
set_field (field j w fs) k v = if j == k then field j v fs else field j w (set_field fs k v)

-- `Value::as_object`
abbrev pub as_object : Value → Option Fields
as_object (object fs) = some fs
as_object _ = none

-- `Value::as_str`
abbrev pub as_str : Value → Option String
as_str (string s) = some s
as_str _ = none

-- `Value::as_u64`
abbrev pub as_u64 : Value → Option ℕ
as_u64 (number (unsigned n)) = some n
as_u64 _ = none

abbrev pub is_object : Value → Bool
is_object (object fs) = true
is_object _ = false

-- `Value::get` with a text
unfoldable pub get : Value → String → Option Value
unfolding get_field
get (object fs) k = get_field fs k
get _ k = none

abbrev or_null : Option Value → Value
or_null none = null
or_null (some v) = v

-- `value[key]`: null for what is not there
unfoldable pub index : Value → String → Value
unfolding get
index v k = or_null (get v k)

-- `value[key] = v` at an object, and at null, which becomes one. It panics elsewhere.
unfoldable pub set_index : Value → String → Value → Option Value
unfolding set_field
set_index (object fs) k v = some (object (set_field fs k v))
set_index null k v = some (object (field k v end))
set_index _ k v = none

-- `Value::get` with a number, at 0
abbrev pub first_item : Value → Option Value
first_item (array (cons v vs)) = some v
first_item _ = none

-- The first field whose name passes the test, in the order in which the map is walked.
unfoldable pub find_field : (String → Bool) → Fields → Option Value
find_field p end = none
find_field p (field j v fs) = if p j then some v else find_field p fs

-- The value is this text.
abbrev pub is_text : Value → String → Bool
is_text (string s) t = s == t
is_text _ t = false

-- The value is `true`.
abbrev pub is_true : Value → Bool
is_true (bool b) = b
is_true _ = false

-- An array with one text.
abbrev pub one_text : String → Value
one_text s = array (cons (string s) nil)
