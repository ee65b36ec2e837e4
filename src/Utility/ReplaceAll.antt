-- ===== src/Utility/ReplaceAll.antt =====
-- source/utility.h, `ReplaceAll`: its loop ends, and replaces the occurrences from the left.
use migang_bot_cpp.Base.{
  ℕ, zero, suc, ◌+◌, ◌-◌, ◌<◌, ◌≤◌, ◌≡◌, refl, sym, ap, ◌∙◌, true, false, none, some, [], ◌∷◌, ◌++◌,
  append_assoc, Bytes, length, take, drop, is_empty, length-append, length-drop, length-take, ltb,
  drop-append, arith, Bool-cases, Option-cases, inl, inr, if◌then◌else◌,
}
use native.Mathlib.Nat.{add_assoc}
use migang_bot_cpp.Strings.{starts_with, find_sub, replace_from}
use migang_bot_cpp.Message.{find_from, plus_index}
use migang_bot_cpp.Utility.{replace_at, replace_all_from, replace_all}

-- Bytes of an occurrence that are to be dropped.
replace_from-skip :
    (pattern by : Bytes) (n : ℕ) (s : Bytes)
    → replace_from pattern by n s ≡ replace_from pattern by 0 (drop n s)
unfolding replace_from
replace_from-skip pattern by zero s = refl
replace_from-skip pattern by (suc n) [] = refl
replace_from-skip pattern by (suc n) (x ∷ s) = replace_from-skip pattern by n s

replace_from-absent :
    (pattern by s : Bytes) → find_sub pattern s ≡ none → replace_from pattern by 0 s ≡ s
unfolding replace_from find_sub
replace_from-absent pattern by [] absent = refl
replace_from-absent pattern by (x ∷ s) absent =
    ground (arith, replace_from-absent pattern by s, Option-cases (find_sub pattern s))

find_sub-nil : (pattern : Bytes) → 0 < length pattern → find_sub pattern [] ≡ none
unfolding find_sub starts_with
find_sub-nil [] positive = ground arith
find_sub-nil (c ∷ p) positive = refl

replace_here :
    (pattern by : Bytes) (x : ℕ) (s : Bytes)
    → starts_with pattern (x ∷ s) ≡ true
    → replace_from pattern by 0 (x ∷ s)
      ≡ by ++ replace_from pattern by 0 (drop (length pattern - 1) s)
unfolding replace_from
replace_here pattern by x s here =
    rw here (ap (λ r. by ++ r) (replace_from-skip pattern by (length pattern - 1) s))

drop_cons : (n x : ℕ) (s : Bytes) → 0 < n → drop n (x ∷ s) ≡ drop (n - 1) s
drop_cons zero x s positive = ground arith
drop_cons (suc n) x s positive = ap (λ k. drop k s) (omega arith)

first_here :
    (pattern by : Bytes) (x : ℕ) (s : Bytes) (i : ℕ)
    → 0 < length pattern
    → starts_with pattern (x ∷ s) ≡ true
    → find_sub pattern (x ∷ s) ≡ some i
    → replace_from pattern by 0 (x ∷ s)
      ≡ take i (x ∷ s) ++ (by ++ replace_from pattern by 0 (drop (i + length pattern) (x ∷ s)))
unfolding find_sub
first_here pattern by x s i positive here found =
    let is_zero : i ≡ 0 = ground (arith, here) in
    rw is_zero (
      replace_here pattern by x s here
      ∙ ap (λ r. by ++ replace_from pattern by 0 r)
          (sym (drop_cons (length pattern) x s positive) ∙ ap (λ n. drop n (x ∷ s)) (omega arith)))

replace_later :
    (pattern by : Bytes) (x : ℕ) (s : Bytes)
    → starts_with pattern (x ∷ s) ≡ false
    → replace_from pattern by 0 (x ∷ s) ≡ x ∷ replace_from pattern by 0 s
unfolding replace_from
replace_later pattern by x s later = rw later refl

find_later :
    (pattern : Bytes) (x : ℕ) (s : Bytes) (i : ℕ)
    → starts_with pattern (x ∷ s) ≡ false
    → find_sub pattern (x ∷ s) ≡ some i
    → (j : ℕ) × (find_sub pattern s ≡ some j) × (i ≡ suc j)
unfolding find_sub
find_later pattern x s i later found = elim (Option-cases (find_sub pattern s)) [
  | inl none_later ↦ ground (arith, none_later)
  | inr (j, there) ↦ (j, there, ground (arith, there))
]

-- The first occurrence is replaced, and the text behind it is treated in the same way.
replace_from-first :
    (pattern by s : Bytes) (i : ℕ)
    → 0 < length pattern
    → find_sub pattern s ≡ some i
    → replace_from pattern by 0 s
      ≡ take i s ++ (by ++ replace_from pattern by 0 (drop (i + length pattern) s))
replace_from-first pattern by [] i positive found =
    ground (arith, find_sub-nil pattern positive, found)
replace_from-first pattern by (x ∷ s) i positive found =
    elim (Bool-cases (starts_with pattern (x ∷ s))) [
      | inl here ↦ first_here pattern by x s i positive here found
      | inr later ↦
          (let (j, there, next) = find_later pattern x s i later found in
            rw next (
              replace_later pattern by x s later
              ∙ ap (λ r. x ∷ r)
                  (replace_from-first pattern by s j positive there
                    ∙ ap (λ r. take j s ++ (by ++ replace_from pattern by 0 r))
                        (sym (
                          drop_cons (suc j + length pattern) x s (omega arith)
                          ∙ ap (λ n. drop n s) (omega arith))))))
    ]

starts_with-within : (pattern s : Bytes) → starts_with pattern s ≡ true → length pattern ≤ length s
unfolding starts_with
starts_with-within [] s here = omega arith
starts_with-within (c ∷ p) [] here = cc
starts_with-within (c ∷ p) (x ∷ s) here = ground (arith, starts_with-within p s)

find_sub-here :
    (pattern : Bytes) (x : ℕ) (s : Bytes) (i : ℕ)
    → starts_with pattern (x ∷ s) ≡ true
    → find_sub pattern (x ∷ s) ≡ some i
    → i ≡ 0
unfolding find_sub
find_sub-here pattern x s i here found = ground (arith, here)

find_sub-within :
    (pattern s : Bytes) (i : ℕ)
    → 0 < length pattern
    → find_sub pattern s ≡ some i
    → i + length pattern ≤ length s
find_sub-within pattern [] i positive found = ground (arith, find_sub-nil pattern positive, found)
find_sub-within pattern (x ∷ s) i positive found = elim (Bool-cases (starts_with pattern (x ∷ s))) [
  | inl here ↦
      ground
        (arith, find_sub-here pattern x s i here found, starts_with-within pattern (x ∷ s) here)
  | inr later ↦
      (let (j, there, next) = find_later pattern x s i later found in
        ground (arith, find_sub-within pattern s j positive there, next))
]

plus_one : (n : ℕ) → n + 1 ≡ suc n
plus_one n = omega arith

suc_plus : (a n : ℕ) → suc a + n ≡ suc (a + n)
suc_plus a n = omega arith

zero_plus : (n : ℕ) → 0 + n ≡ n
zero_plus n = omega arith

take-behind :
    (before rest : Bytes) (n : ℕ)
    → take (length before + n) (before ++ rest) ≡ before ++ take n rest
take-behind [] rest n = ap (λ k. take k rest) (zero_plus n)
take-behind (c ∷ before) rest n =
    ap (λ k. take k (c ∷ (before ++ rest))) (suc_plus (length before) n)
    ∙ ap (λ s. c ∷ s) (take-behind before rest n)

drop-behind :
    (before rest : Bytes) (n : ℕ) → drop (length before + n) (before ++ rest) ≡ drop n rest
drop-behind [] rest n = ap (λ k. drop k rest) (zero_plus n)
drop-behind (c ∷ before) rest n =
    ap (λ k. drop k (c ∷ (before ++ rest))) (suc_plus (length before) n) ∙ drop-behind before rest n

find_from-behind :
    (before rest pattern : Bytes)
    → find_from (before ++ rest) pattern (length before)
      ≡ plus_index (length before) (find_sub pattern rest)
unfolding find_from
find_from-behind before rest pattern =
    let inside : ltb (length (before ++ rest)) (length before) ≡ false =
      ground (arith, length-append before rest) in
    rw inside (ap (λ s. plus_index (length before) (find_sub pattern s)) (drop-append before rest))

replace_at-behind :
    (before rest from to : Bytes) (i : ℕ)
    → replace_at (length before + i) (length from) to (before ++ rest)
      ≡ (before ++ take i rest ++ to) ++ drop (i + length from) rest
unfolding replace_at
replace_at-behind before rest from to i =
    ap (λ s. s ++ (to ++ drop (length before + i + length from) (before ++ rest)))
      (take-behind before rest i)
    ∙ ap (λ n. before ++ take i rest ++ (to ++ drop n (before ++ rest)))
        (add_assoc (length before) i (length from))
    ∙ ap (λ s. before ++ take i rest ++ (to ++ s)) (drop-behind before rest (i + length from))
    ∙ sym (append_assoc (before ++ take i rest) to (drop (i + length from) rest))

length-before :
    (before rest to : Bytes) (i : ℕ)
    → i ≤ length rest
    → length before + i + length to ≡ length (before ++ take i rest ++ to)
length-before before rest to i inside = omega (
  arith,
  length-append (before ++ take i rest) to,
  length-append before (take i rest),
  length-take i rest,
)

round-absent :
    (fuel pos : ℕ) (from to str : Bytes)
    → find_from str from pos ≡ none
    → replace_all_from (suc fuel) from to pos str ≡ some str
unfolding replace_all_from
round-absent fuel pos from to str absent = rw (absent, replace_all_from) refl

round-found :
    (fuel pos p : ℕ) (from to str : Bytes)
    → find_from str from pos ≡ some p
    → replace_all_from (suc fuel) from to pos str
      ≡ replace_all_from fuel from to (p + length to) (replace_at p (length from) to str)
unfolding replace_all_from
round-found fuel pos p from to str found = rw (found, replace_all_from) refl

last_round :
    (fuel : ℕ) (from to before rest : Bytes)
    → find_sub from rest ≡ none
    → replace_all_from (suc fuel) from to (length before) (before ++ rest)
      ≡ some (before ++ replace_from from to 0 rest)
last_round fuel from to before rest absent =
    round-absent fuel (length before) from to (before ++ rest)
      (find_from-behind before rest from ∙ ap (plus_index (length before)) absent)
    ∙ ap (λ s. some (before ++ s)) (sym (replace_from-absent from to rest absent))

-- A round that finds an occurrence moves the position behind what it has put in.
next_round :
    (fuel i : ℕ) (from to before rest : Bytes)
    → 0 < length from
    → find_sub from rest ≡ some i
    → let done = before ++ take i rest ++ to in
      replace_all_from (suc fuel) from to (length before) (before ++ rest)
      ≡ replace_all_from fuel from to (length done) (done ++ drop (i + length from) rest)
next_round fuel i from to before rest positive found =
    let inside = find_sub-within from rest i positive found in
    let done = before ++ take i rest ++ to in
    round-found fuel (length before) (length before + i) from to (before ++ rest)
      (find_from-behind before rest from ∙ ap (plus_index (length before)) found)
    ∙ ap (λ s. replace_all_from fuel from to (length before + i + length to) s)
        (replace_at-behind before rest from to i)
    ∙ ap (λ n. replace_all_from fuel from to n (done ++ drop (i + length from) rest))
        (length-before before rest to i (omega (arith, inside)))

-- The text that the loop has done, and the text that it has before it, make the same result.
same_result :
    (i : ℕ) (from to before rest : Bytes)
    → 0 < length from
    → find_sub from rest ≡ some i
    → before ++ take i rest ++ to ++ replace_from from to 0 (drop (i + length from) rest)
      ≡ before ++ replace_from from to 0 rest
same_result i from to before rest positive found =
    let later = replace_from from to 0 (drop (i + length from) rest) in
    append_assoc (before ++ take i rest) to later
    ∙ append_assoc before (take i rest) (to ++ later)
    ∙ ap (λ s. before ++ s) (sym (replace_from-first from to rest i positive found))

replace_all_from_lem :
    (fuel : ℕ) (from to before rest : Bytes)
    → 0 < length from
    → length rest ≤ fuel
    → replace_all_from (suc fuel) from to (length before) (before ++ rest)
      ≡ some (before ++ replace_from from to 0 rest)
replace_all_from_lem zero from to before rest positive enough =
    elim (Option-cases (find_sub from rest)) [
      | inl absent ↦ last_round zero from to before rest absent
      | inr (i, found) ↦ ground (arith, find_sub-within from rest i positive found)
    ]
replace_all_from_lem (suc fuel) from to before rest positive enough =
    elim (Option-cases (find_sub from rest)) [
      | inl absent ↦ last_round (suc fuel) from to before rest absent
      | inr (i, found) ↦
          next_round (suc fuel) i from to before rest positive found
          ∙ replace_all_from_lem fuel from to (before ++ take i rest ++ to)
              (drop (i + length from) rest) positive
              (omega (
                arith,
                find_sub-within from rest i positive found,
                length-drop (i + length from) rest,
              ))
          ∙ ap some (same_result i from to before rest positive found)
    ]

length-positive : (s : Bytes) → is_empty s ≡ false → 0 < length s
length-positive [] given = cc
length-positive (c ∷ s) given = omega arith

-- `ReplaceAll` ends on every text, within one round more than the text has bytes, also when the new
-- text holds the old one. It leaves the text alone if there is nothing to look for, and otherwise
-- replaces the occurrences that do not overlap, from the left, as the reference `replace_from` does.
pub replace_all_lem :
    (str from to : Bytes)
    → replace_all str from to ≡ some (if is_empty from then str else replace_from from to 0 str)
unfolding replace_all
replace_all_lem str from to = elim (Bool-cases (is_empty from)) [
  | inl nothing ↦ rw nothing refl
  | inr given ↦ rw given (
      ap (λ n. replace_all_from n from to 0 str) (plus_one (length str))
      ∙ replace_all_from_lem (length str) from to [] str (length-positive from given) (omega arith))
]
