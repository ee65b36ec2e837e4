-- ===== src/Strings/Numbers.antt =====
-- The numbers in texts: `isdigit` (the C locale), `IsDigitStr` of source/utility.h, `std::atoll` and
-- `std::stoull` of texts that start with a digit, as the program calls them.
use migang_bot_cpp.Base.{
  ℕ, zero, suc, ◌+◌, ◌-◌, ◌*◌, ◌/◌, ◌%◌, ◌^◌, ◌<◌, ◌≡◌, refl, Bool, ◌&&◌, [], ◌∷◌, Bytes, bytes_beq,
  bytes_beq_iff, codes, ok_inj, sym, false, ltb, leb, all, if◌then◌else◌, Result, ok, fault, Fault,
  arith, le→leb, Bool-cases, ltb→lt, lt→ltb, true, inl, inr, ◌∙◌, ap, subst,
}
use native.Mathlib.Nat.{pow-suc}
use migang_bot_cpp.Strings.{to_string, digits_from}

abbrev pub is_digit : ℕ → Bool
is_digit c = leb b'0' c && leb c b'9'

-- `IsDigitStr`
unfoldable pub is_digit_str : Bytes → Bool
is_digit_str s = all is_digit s

-- The number of the digits at the front, after the digits that made `n`.
unfoldable pub parse_digits : ℕ → Bytes → ℕ
parse_digits n [] = n
parse_digits n (c ∷ s) =
    let more = parse_digits (n * 10 + (c - b'0')) s in if is_digit c then more else n

-- `static_cast<uint64_t>(std::atoll(s))`: undefined beyond the range.
unfoldable pub atoll : Bytes → Result ℕ
unfolding parse_digits
atoll s = let n = parse_digits 0 s in if ltb n (2 ^ 63) then ok n else fault Fault.undefined

-- `std::stoull(s)` and, below its limit, `std::stoll(s)`: `std::invalid_argument` without digits,
-- `std::out_of_range` beyond the range.
abbrev pub parse_below : ℕ → Bytes → Result ℕ
parse_below limit [] = fault Fault.type_error
parse_below limit (c ∷ s) =
    if is_digit c
    then (let n = parse_digits 0 (c ∷ s) in if ltb n limit then ok n else fault Fault.out_of_range)
    else fault Fault.type_error

unfoldable pub stoull : Bytes → Result ℕ
unfolding parse_digits
stoull s = parse_below (2 ^ 64) s

unfoldable pub stoll : Bytes → Result ℕ
unfolding parse_digits
stoll s = parse_below (2 ^ 63) s

digit-IsDigit : (d : ℕ) → d < 10 → is_digit (b'0' + d) ≡ true
digit-IsDigit d small =
    ground (arith, le→leb b'0' (b'0' + d) (omega arith), le→leb (b'0' + d) b'9' (omega arith))

digit_step :
    (n d : ℕ) (s : Bytes) → d < 10 → parse_digits n ((b'0' + d) ∷ s) ≡ parse_digits (n * 10 + d) s
unfolding parse_digits
digit_step n d s small =
    ground (arith, le→leb b'0' (b'0' + d) (omega arith), le→leb (b'0' + d) b'9' (omega arith))

fuel_step : (bound n : ℕ) → n < bound * 10 → n / 10 < bound
fuel_step bound n small = omega arith

back_step : (n : ℕ) → n / 10 * 10 + n % 10 ≡ n
back_step n = omega arith

-- The digits of a number are read as that number.
pub parse_digits-digits_from :
    (fuel n : ℕ) (tail : Bytes)
    → n < 10 ^ suc fuel
    → parse_digits 0 (digits_from (suc fuel) n tail) ≡ parse_digits n tail
unfolding digits_from
parse_digits-digits_from zero n tail small =
    rw (lt→ltb n 10 small) (digit_step 0 n tail small ∙ ap (λ m. parse_digits m tail) (omega arith))
parse_digits-digits_from (suc fuel) n tail small = elim (Bool-cases (ltb n 10)) [
  | inl one ↦
      rw one (digit_step 0 n tail (ltb→lt n 10 one) ∙ ap (λ m. parse_digits m tail) (omega arith))
  | inr more ↦ rw more (
      parse_digits-digits_from fuel (n / 10) ((b'0' + n % 10) ∷ tail)
        (fuel_step _ n (subst (λ m. n < m) (pow-suc 10 (suc fuel)) small))
      ∙ digit_step (n / 10) (n % 10) tail (omega arith)
      ∙ ap (λ m. parse_digits m tail) (back_step n))
]

-- `std::to_string` gives a digit first.
to_string_head :
    (fuel n : ℕ) (tail : Bytes)
    → n < 10 ^ suc fuel
    → (c : ℕ) × (s : Bytes) × (digits_from (suc fuel) n tail ≡ c ∷ s) × (is_digit c ≡ true)
unfolding digits_from
to_string_head zero n tail small =
    rw (lt→ltb n 10 small) (b'0' + n, tail, refl, digit-IsDigit n small)
to_string_head (suc fuel) n tail small = elim (Bool-cases (ltb n 10)) [
  | inl one ↦ rw one (b'0' + n, tail, refl, digit-IsDigit n (ltb→lt n 10 one))
  | inr more ↦ rw more (
      to_string_head fuel (n / 10) ((b'0' + n % 10) ∷ tail)
        (fuel_step _ n (subst (λ m. n < m) (pow-suc 10 (suc fuel)) small)))
]

below-value :
    (limit n c : ℕ) (s text : Bytes)
    → text ≡ c ∷ s
    → is_digit c ≡ true
    → parse_digits 0 text ≡ n
    → n < limit
    → parse_below limit text ≡ ok n
below-value limit n c s text shape digit value small =
    rw shape (rw digit (rw (← shape) (rw value (rw (lt→ltb n limit small) refl))))

-- `std::stoull` reads back what `std::to_string` writes.
pub stoull-to_string : (n : ℕ) → n < 2 ^ 64 → stoull (to_string n) ≡ ok n
unfolding stoull to_string
stoull-to_string n small =
    let (c, s, shape, digit) = to_string_head 19 n [] (omega arith) in
    below-value (2 ^ 64) n c s (to_string n) shape digit
      (parse_digits-digits_from 19 n [] (omega arith)) small

-- `std::stoll` reads back what `std::to_string` writes.
pub stoll-to_string : (n : ℕ) → n < 2 ^ 63 → stoll (to_string n) ≡ ok n
unfolding stoll to_string
stoll-to_string n small =
    let (c, s, shape, digit) = to_string_head 19 n [] (omega arith) in
    below-value (2 ^ 63) n c s (to_string n) shape digit
      (parse_digits-digits_from 19 n [] (omega arith)) small

-- Only 0 is written as `0`.
pub to_string-nonzero : (n : ℕ) → n < 2 ^ 64 → 0 < n → bytes_beq (to_string n) (codes "0") ≡ false
unfolding stoull parse_digits
to_string-nonzero n small positive = elim (Bool-cases (bytes_beq (to_string n) (codes "0"))) [
  | inl same ↦
      let is_zero : n ≡ 0 =
        ok_inj (sym (stoull-to_string n small) ∙ ap stoull ((bytes_beq_iff _ _).0 same)) in
      ground (arith, is_zero)
  | inr other ↦ other
]
