-- ===== src/Json/Example.antt =====
-- A small value type that meets the laws of `JsonLib`, for the tests and the witnesses.
use migang_bot_cpp.Base.{
  zero, suc, ℕ, ◌≡◌, refl, Bool, true, false, ◌||◌, Option, none, some, String, Bytes, ◌==◌,
  string_eq, arith, if◌then◌else◌, List, [], ◌∷◌,
}
use migang_bot_cpp.Json.{JsonLib}

mutual
  pub data Value : Type 0 where
    null : Value
    text : Bytes → Value
    number : ℕ → Value
    flag : Bool → Value
    object : Fields → Value
    array : Items → Value

  pub data Fields : Type 0 where
    end : Fields
    field : String → Value → Fields → Fields

  pub data Items : Type 0 where
    stop : Items
    item : Value → Items → Items

abbrev count : Items → ℕ
count stop = 0
count (item v vs) = suc (count vs)

abbrev item_at : Items → ℕ → Value
item_at stop i = null
item_at (item v vs) zero = v
item_at (item v vs) (suc i) = item_at vs i

abbrev add_item : Items → Value → Items
add_item stop w = item w stop
add_item (item v vs) w = item v (add_item vs w)

abbrev items_of : Value → Items
items_of (array vs) = vs
items_of _ = stop

abbrev bool_of : Value → Option Bool
bool_of (flag b) = some b
bool_of _ = none

abbrev field_at : Fields → String → Value
field_at end k = null
field_at (field j v fs) k = if j == k then v else field_at fs k

abbrev has_field : Fields → String → Bool
has_field end k = false
has_field (field j v fs) k = j == k || has_field fs k

abbrev fields_of : Value → Fields
fields_of (object fs) = fs
fields_of _ = end

abbrev is_null_value : Value → Bool
is_null_value null = true
is_null_value _ = false

abbrev is_object_value : Value → Bool
is_object_value (object fs) = true
is_object_value _ = false

abbrev text_of : Value → Option Bytes
text_of (text s) = some s
text_of _ = none

abbrev number_of : Value → Option ℕ
number_of (number n) = some n
number_of _ = none

pub has_field-field :
    (j : Value) (k l : String) (v : Value)
    → has_field (fields_of (object (field k v (fields_of j)))) l
      ≡ (if k == l then true else has_field (fields_of j) l)
has_field-field j k l v = ground arith

-- A new field stands before the one that it replaces.
abbrev pub example_lib : JsonLib
example_lib = record {
  Json = Value;
  null = null;
  of_string = text;
  of_number = number;
  of_bool = flag;
  contains = λ j k. has_field (fields_of j) k;
  is_object = is_object_value;
  is_null = is_null_value;
  at = λ j k. field_at (fields_of j) k;
  put = λ j k v. object (field k v (fields_of j));
  size = λ j. count (items_of j);
  elem = λ j i. item_at (items_of j) i;
  push_back = λ j v. array (add_item (items_of j) v);
  get_bool = bool_of;
  get_string = text_of;
  get_number = number_of;
  contains-put = has_field-field;
  at-put = λ j k l v. refl;
  get_string-of_string = λ s. refl;
  get_number-of_number = λ n small. refl;
}

-- An object from its fields.
abbrev fields : List (String × Value) → Fields
fields [] = end
fields ((k, v) ∷ fs) = field k v (fields fs)

abbrev pub object_of : List (String × Value) → Value
object_of fs = object (fields fs)
