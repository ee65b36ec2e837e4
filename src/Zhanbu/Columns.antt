-- ===== src/Zhanbu/Columns.antt =====
-- source/modules/module/eorzea_zhanbu/zhanbu_utils.h: the columns of `Decrement` hold the text and are
-- nine signs long at most, and where `Draw` puts them.
use migang_bot_cpp.Base.{
  ℕ, zero, suc, ◌+◌, ◌-◌, ◌*◌, ◌/◌, ◌%◌, ◌^◌, ◌<◌, ◌≤◌, ◌≡◌, refl, sym, ap, ◌∙◌, List, [], ◌∷◌,
  ◌++◌, nat_beq, nat_beq_iff, ltb, length, take, drop, if◌then◌else◌, arith, All, length-take,
  length-drop, length-append, take-append-drop, take_all, subst, ltb→lt, Bool-cases, inl, inr, ◌⊎◌,
}
use migang_bot_cpp.Zhanbu.Slices.{
  spaces, slices_from, number_of_slices, two_columns, decrement, column_x,
}

suc_plus : (a n : ℕ) → suc a + n ≡ suc (a + n)
suc_plus a n = omega arith

zero_plus : (n : ℕ) → 0 + n ≡ n
zero_plus n = omega arith

take-nil : (n : ℕ) → take {A = ℕ} n [] ≡ []
take-nil zero = refl
take-nil (suc n) = refl

drop-nil : (n : ℕ) → drop {A = ℕ} n [] ≡ []
drop-nil zero = refl
drop-nil (suc n) = refl

length-spaces : (n : ℕ) → length (spaces n) ≡ n
unfolding spaces
length-spaces zero = refl
length-spaces (suc n) = ap suc (length-spaces n)

spaces-append : (a b : ℕ) → spaces a ++ spaces b ≡ spaces (a + b)
unfolding spaces
spaces-append zero b = ap spaces (omega arith)
spaces-append (suc a) b = ap (λ r. b' ' ∷ r) (spaces-append a b) ∙ ap spaces (sym (suc_plus a b))

-- The columns put together.
abbrev pub joined : List (List ℕ) → List ℕ
joined [] = []
joined (s ∷ ss) = s ++ joined ss

take-plus : (a b : ℕ) (s : List ℕ) → take (a + b) s ≡ take a s ++ take b (drop a s)
take-plus zero b s = ap (λ n. take n s) (zero_plus b)
take-plus (suc a) b [] = take-nil (suc a + b) ∙ sym (take-nil b)
take-plus (suc a) b (x ∷ s) =
    ap (λ n. take n (x ∷ s)) (suc_plus a b) ∙ ap (λ r. x ∷ r) (take-plus a b s)

drop-plus : (a b : ℕ) (s : List ℕ) → drop (a + b) s ≡ drop b (drop a s)
drop-plus zero b s = ap (λ n. drop n s) (zero_plus b)
drop-plus (suc a) b [] = drop-nil (suc a + b) ∙ sym (drop-nil b)
drop-plus (suc a) b (x ∷ s) = ap (λ n. drop n (x ∷ s)) (suc_plus a b) ∙ drop-plus a b s

next_start : (i : ℕ) → (i + 1) * 9 ≡ i * 9 + 9
next_start i = omega arith

all_slices : (left : ℕ) → 9 + left * 9 ≡ suc left * 9
all_slices left = omega arith

joined-slices_from :
    (left i : ℕ) (text : List ℕ)
    → joined (slices_from left i text) ≡ take (left * 9) (drop (i * 9) text)
unfolding slices_from
joined-slices_from zero i text = refl
joined-slices_from (suc left) i text =
    ap (λ r. take 9 (drop (i * 9) text) ++ r)
      (joined-slices_from left (i + 1) text
        ∙ ap (λ n. take (left * 9) (drop n text)) (next_start i)
        ∙ ap (take (left * 9)) (drop-plus (i * 9) 9 text))
    ∙ sym (take-plus 9 (left * 9) (drop (i * 9) text))
    ∙ ap (λ n. take n (drop (i * 9) text)) (all_slices left)

slices_from-short :
    (left i : ℕ) (text : List ℕ)
    → All (λ s. length s ≤ 9) (slices_from left i text) × (length (slices_from left i text) ≡ left)
unfolding slices_from
slices_from-short zero i text = (tt, refl)
slices_from-short (suc left) i text =
    let (short, count) = slices_from-short left (i + 1) text in
    ((omega (arith, length-take 9 (drop (i * 9) text)), short), ap suc count)

-- The columns hold the text: put together they are it, or there are two of them, with spaces below
-- the first half and above the second.
abbrev pub Holds : List ℕ → List (List ℕ) → Type 0
Holds text columns =
    (joined columns ≡ text)
    ⊎ ((first : List ℕ) × (second : List ℕ) × (below : ℕ) × (above : ℕ) × (first ++ second ≡ text)
        × (columns ≡ (first ++ spaces below) ∷ (spaces above ++ second) ∷ []))

abbrev pub IsColumns : List ℕ → List (List ℕ) → Type 0
IsColumns text columns =
    (length columns ≡ (length text + 8) / 9) × All (λ s. length s ≤ 9) columns × Holds text columns

-- Two columns, with fillings of the given sizes.
filled-IsColumns :
    (half below above : ℕ) (text : List ℕ)
    → 9 < length text
    → length text ≤ 18
    → half ≤ length text
    → half + below ≤ 9
    → above + (length text - half) ≤ 9
    → IsColumns text ((take half text ++ spaces below) ∷ (spaces above ++ drop half text) ∷ [])
filled-IsColumns half below above text long short inside left right =
    let first : length (take half text ++ spaces below) ≤ 9 = omega (
      arith,
      length-append (take half text) (spaces below),
      length-take half text,
      length-spaces below,
    ) in
    let second : length (spaces above ++ drop half text) ≤ 9 = omega (
      arith,
      length-append (spaces above) (drop half text),
      length-drop half text,
      length-spaces above,
    ) in
    (
      omega arith,
      (first, (second, tt)),
      inr (take half text, drop half text, below, above, take-append-drop half text, refl),
    )

two_columns-IsColumns :
    (text : List ℕ)
    → 9 < length text
    → length text ≤ 18
    → IsColumns text (two_columns ((length text + length text % 2) / 2) text)
unfolding two_columns
two_columns-IsColumns text long short =
    let half = (length text + length text % 2) / 2 in
    elim (Bool-cases (nat_beq (length text % 2) 1)) [
      | inl odd ↦
          (let is_odd : length text % 2 ≡ 1 = (nat_beq_iff (length text % 2) 1).0 odd in
            rw odd (
              subst
                (λ r.
                  IsColumns text
                    ((take half text ++ spaces (9 - half)) ∷ (r ++ drop half text) ∷ []))
                (sym (spaces-append (9 - half) 1))
                (filled-IsColumns half (9 - half) (9 - half + 1) text long short
                  (omega (arith, is_odd)) (omega (arith, is_odd)) (omega (arith, is_odd)))))
      | inr even ↦
          (let is_even : length text % 2 ≡ 0 = ground (arith, nat_beq_iff (length text % 2) 1) in
            rw even (
              filled-IsColumns half (9 - half) (9 - half) text long short (omega (arith, is_even))
                (omega (arith, is_even)) (omega (arith, is_even))))
    ]

number_of_slices_lem : (n : ℕ) → number_of_slices n ≡ (n + 8) / 9
unfolding number_of_slices
number_of_slices_lem n = elim (Bool-cases (nat_beq (n % 9) 0)) [
  | inl whole ↦ rw whole (ground (arith, (nat_beq_iff (n % 9) 0).0 whole))
  | inr more ↦ rw more (ground (arith, nat_beq_iff (n % 9) 0))
]

slices_from-IsColumns :
    (text : List ℕ) → IsColumns text (slices_from (number_of_slices (length text)) 0 text)
slices_from-IsColumns text =
    let n = number_of_slices (length text) in
    let (short, count) = slices_from-short n 0 text in
    let enough : length text ≤ n * 9 = omega (arith, number_of_slices_lem (length text)) in
    (
      count ∙ number_of_slices_lem (length text),
      short,
      inl (joined-slices_from n 0 text ∙ take_all (n * 9) text enough),
    )

-- `Decrement` gives a text of at most 36 signs as columns of at most nine signs each, one for each
-- nine signs begun, which hold the text; a longer text gives none.
pub decrement_lem :
    (text : List ℕ)
    → ((length text ≤ 36) × IsColumns text (decrement text))
      ⊎ ((36 < length text) × (decrement text ≡ []))
unfolding decrement
decrement_lem text = elim (Bool-cases (ltb (4 * 9) (length text))) [
  | inl long ↦ rw long (inr (ltb→lt (4 * 9) (length text) long, refl))
  | inr short ↦
      (let within : length text ≤ 36 = ground (arith, short) in
        elim (Bool-cases (nat_beq (number_of_slices (length text)) 2)) [
          | inl two ↦
              (let is_two : (length text + 8) / 9 ≡ 2 =
                  sym (number_of_slices_lem (length text))
                  ∙ (nat_beq_iff (number_of_slices (length text)) 2).0 two in
                rw (short, two)
                  (inl (
                    within,
                    two_columns-IsColumns text (omega (arith, is_two)) (omega (arith, is_two)),
                  )))
          | inr other ↦ rw (short, other) (inl (within, slices_from-IsColumns text))
        ])
]

-- The columns stand 29 pixels apart, the first to the right: with unsigned arithmetic that wraps, the
-- column of a text with a single one stands 13 pixels left of the center.
pub column_x_lem :
    (center n i : ℕ)
    → 90 ≤ center
    → center < 2 ^ 16
    → i < n
    → n ≤ 4
    → column_x center n i + i * 29
      ≡ (if nat_beq n 1 then center - 13 else center + (n - 2) * 25 / 2 + (n - 1) * 4)
unfolding column_x
column_x_lem center zero i right small inside few = ground arith
column_x_lem center (suc zero) i right small inside few = omega arith
column_x_lem center (suc (suc zero)) i right small inside few = omega arith
column_x_lem center (suc (suc (suc zero))) i right small inside few = omega arith
column_x_lem center (suc (suc (suc (suc zero)))) i right small inside few = omega arith
column_x_lem center (suc (suc (suc (suc (suc n))))) i right small inside few = ground arith
