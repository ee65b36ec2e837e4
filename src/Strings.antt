-- ===== src/Strings.antt =====
-- What the program uses of std::string and std::string_view: searches that answer with an index or
-- `npos`, cuts that throw or are undefined out of range, and arithmetic on `std::size_t`.
pub mod Trim
pub mod Replace
pub mod Numbers
use migang_bot_cpp.Base.{
  ℕ, zero, suc, ◌+◌, ◌-◌, ◌%◌, ◌/◌, ◌^◌, Bool, true, false, ◌&&◌, not, Option, none, some, List, [],
  ◌∷◌, ◌++◌, Bytes, nat_beq, ltb, length, take, drop, if◌then◌else◌, Result, ok, fault, Fault,
}

abbrev pub npos : ℕ
npos = 2 ^ 64 - 1

abbrev pub to_size : Option ℕ → ℕ
to_size none = npos
to_size (some i) = i

-- a - b on `std::size_t`
abbrev pub sub_size : ℕ → ℕ → ℕ
sub_size a b = (a + 2 ^ 64 - b) % 2 ^ 64

abbrev pub succ_index : Option ℕ → Option ℕ
succ_index none = none
succ_index (some i) = some (suc i)

unfoldable pub find_index : (ℕ → Bool) → Bytes → Option ℕ
find_index p [] = none
find_index p (x ∷ xs) = let rest = find_index p xs in if p x then some 0 else succ_index rest

abbrev pub last_or : Bool → Option ℕ → Option ℕ
last_or here (some i) = some (suc i)
last_or true none = some 0
last_or false none = none

unfoldable pub find_last_index : (ℕ → Bool) → Bytes → Option ℕ
find_last_index p [] = none
find_last_index p (x ∷ xs) = last_or (p x) (find_last_index p xs)

abbrev pub is_not : ℕ → ℕ → Bool
is_not c x = not (nat_beq x c)

unfoldable pub find_first_of : ℕ → Bytes → ℕ
unfolding find_index
find_first_of c s = to_size (find_index (λ x. nat_beq x c) s)

unfoldable pub find_first_not_of : ℕ → Bytes → ℕ
unfolding find_index
find_first_not_of c s = to_size (find_index (is_not c) s)

unfoldable pub find_last_not_of : ℕ → Bytes → ℕ
unfolding find_last_index
find_last_not_of c s = to_size (find_last_index (is_not c) s)

unfoldable pub starts_with : Bytes → Bytes → Bool
starts_with [] s = true
starts_with (c ∷ p) [] = false
starts_with (c ∷ p) (x ∷ xs) = nat_beq x c && starts_with p xs

-- `s.find(pattern)`
unfoldable pub find_sub : Bytes → Bytes → Option ℕ
unfolding starts_with
find_sub p [] = if starts_with p [] then some 0 else none
find_sub p (x ∷ xs) =
    let rest = find_sub p xs in if starts_with p (x ∷ xs) then some 0 else succ_index rest

-- `s.substr(pos, count)`
unfoldable pub substr : Bytes → ℕ → ℕ → Result Bytes
substr s pos count =
    if ltb (length s) pos then fault Fault.out_of_range else ok (take count (drop pos s))

-- `view.remove_prefix(n)` and `view.remove_suffix(n)`: undefined beyond the size.
unfoldable pub remove_prefix : ℕ → Bytes → Result Bytes
remove_prefix n s = if ltb (length s) n then fault Fault.undefined else ok (drop n s)

unfoldable pub remove_suffix : ℕ → Bytes → Result Bytes
remove_suffix n s = if ltb (length s) n then fault Fault.undefined else ok (take (length s - n) s)

-- All non-overlapping occurrences of a nonempty pattern, from the left; the number counts the
-- bytes of an occurrence that are still to be dropped.
unfoldable pub replace_from : Bytes → Bytes → ℕ → Bytes → Bytes
unfolding starts_with
replace_from pattern by skip [] = []
replace_from pattern by (suc skip) (x ∷ xs) = replace_from pattern by skip xs
replace_from pattern by zero (x ∷ xs) =
    let matched = by ++ replace_from pattern by (length pattern - 1) xs in
    let kept = x ∷ replace_from pattern by zero xs in
    if starts_with pattern (x ∷ xs) then matched else kept

-- `std::to_string` of an unsigned 64-bit number, which has 20 digits at most.
unfoldable pub digits_from : ℕ → ℕ → Bytes → Bytes
digits_from zero n tail = tail
digits_from (suc fuel) n tail =
    let more = digits_from fuel (n / 10) ((b'0' + n % 10) ∷ tail) in
    if ltb n 10 then (b'0' + n) ∷ tail else more

unfoldable pub to_string : ℕ → Bytes
unfolding digits_from
to_string n = digits_from 20 n []

-- `fmt::format`: the pieces of its text, literals and arguments.
unfoldable pub format : List Bytes → Bytes
format [] = []
format (piece ∷ pieces) = piece ++ format pieces
