-- ===== src/Json.antt =====
-- nlohmann::json as the program calls it (source/type.h: `using Json = nlohmann::json`,
-- source/event/event.h: an event is such a value). The library is not part of the repository: its
-- operations are a parameter, with the documented laws that the code relies on.
pub mod Example
use migang_bot_cpp.Base.{
  ℕ, ◌<◌, ◌^◌, ◌≡◌, Bool, true, Option, none, some, String, Bytes, ◌==◌, string_eq, if◌then◌else◌,
  Result, ok, fault, Fault, or_fault, ◌>>=◌, ◌%◌,
}

pub record JsonLib : Type 1 where
  pub Json : Type 0
  pub null : Json
  pub of_string : Bytes → Json
  -- an integer, given modulo 2 ^ 64
  pub of_number : ℕ → Json
  pub of_bool : Bool → Json
  -- `j.contains(key)`, false on a value that is no object
  pub contains : Json → String → Bool
  pub is_object : Json → Bool
  pub is_null : Json → Bool
  -- the value that `j[key]` reads
  pub at : Json → String → Json
  -- `j[key] = v`
  pub put : Json → String → Json → Json
  -- the size of an array, and `j[i]`
  pub size : Json → ℕ
  pub elem : Json → ℕ → Json
  -- `j.push_back(v)` on an array or on null
  pub push_back : Json → Json → Json
  -- `j.get<bool>()`; `none` when it throws
  pub get_bool : Json → Option Bool
  -- `j.get<std::string>()`; `none` when it throws
  pub get_string : Json → Option Bytes
  -- `j.get<uint64_t>()`; `none` when it throws
  pub get_number : Json → Option ℕ
  pub contains-put :
      (j : Json) (k l : String) (v : Json)
      → contains (put j k v) l ≡ (if k == l then true else contains j l)
  pub at-put :
      (j : Json) (k l : String) (v : Json) → at (put j k v) l ≡ (if k == l then v else at j l)
  pub get_string-of_string : (s : Bytes) → get_string (of_string s) ≡ some s
  pub get_number-of_number : (n : ℕ) → n < 2 ^ 64 → get_number (of_number n) ≡ some n

module _ (lib : JsonLib) where
  open lib use {Json, null, contains, is_object, at, put, get_string, get_number, get_bool}

  -- `j[key].get<std::string>()`
  abbrev pub string_at : Json → String → Result Bytes
  string_at j k = or_fault (get_string (at j k)) Fault.type_error

  -- `j[key].get<uint64_t>()`
  abbrev pub number_at : Json → String → Result ℕ
  number_at j k = or_fault (get_number (at j k)) Fault.type_error

  -- `j[key].get<bool>()`
  abbrev pub bool_at : Json → String → Result Bool
  bool_at j k = or_fault (get_bool (at j k)) Fault.type_error

  -- `j[key].get<int>()`: the low 32 bits.
  abbrev pub int_at : Json → String → Result ℕ
  int_at j k = number_at j k >>= λ n. ok (n % 2 ^ 32)

  -- `j.value(key, default)`
  abbrev pub value_string : Json → String → Bytes → Result Bytes
  value_string j k default =
      if is_object j
      then (if contains j k then string_at j k else ok default)
      else fault Fault.type_error

  abbrev pub value_number : Json → String → ℕ → Result ℕ
  value_number j k default =
      if is_object j
      then (if contains j k then number_at j k else ok default)
      else fault Fault.type_error

  -- `j[key]` on a value that is not const: a missing key is added with the value null.
  abbrev pub touch : Json → String → Json
  touch j k = if contains j k then j else put j k null
