-- ===== src/Strings/Trim.antt =====
-- Trimming a text of one byte at its ends: the plain recursion that the index searches amount to.
use migang_bot_cpp.Base.{
  ℕ, zero, suc, ◌≤◌, ◌<◌, ◌≡◌, refl, ap, ◌∙◌, ◌⊎◌, inl, inr, true, false, ◌&&◌, none, some, [], ◌∷◌,
  ◌++◌, Bytes, arith, nat_beq, length, take, drop, is_empty, if◌then◌else◌, Bool-cases,
}
use migang_bot_cpp.Strings.{find_index, find_last_index, is_not}

unfoldable pub trim_start : ℕ → Bytes → Bytes
trim_start c [] = []
trim_start c (x ∷ xs) = let rest = trim_start c xs in if nat_beq x c then rest else x ∷ xs

unfoldable pub trim_end : ℕ → Bytes → Bytes
trim_end c [] = []
trim_end c (x ∷ xs) =
    let rest = trim_end c xs in if is_empty rest && nat_beq x c then [] else x ∷ rest

abbrev pub replicate : ℕ → ℕ → Bytes
replicate zero c = []
replicate (suc n) c = c ∷ replicate n c

-- The text is empty or begins with another byte; it is empty or ends with another byte.
abbrev pub HeadNot : ℕ → Bytes → Type 0
HeadNot c [] = Unit
HeadNot c (x ∷ xs) = nat_beq x c ≡ false

abbrev pub LastNot : ℕ → Bytes → Type 0
LastNot c [] = Unit
LastNot c (x ∷ []) = nat_beq x c ≡ false
LastNot c (x ∷ y ∷ xs) = LastNot c (y ∷ xs)

-- `t` is `s` without the bytes `c` at both ends.
pub record IsTrimOf (c : ℕ) (s t : Bytes) : Type 0 where
  pub before : ℕ
  pub after : ℕ
  pub parts : s ≡ replicate before c ++ (t ++ replicate after c)
  pub head_not : HeadNot c t
  pub last_not : LastNot c t

pub find_index-trim_start :
    (c : ℕ) (s : Bytes)
    → ((find_index (is_not c) s ≡ none) × (trim_start c s ≡ []))
      ⊎ ((i : ℕ) × (find_index (is_not c) s ≡ some i)
          × (i < length s)
          × (drop i s ≡ trim_start c s))
unfolding find_index trim_start
find_index-trim_start c [] = inl (refl, refl)
find_index-trim_start c (x ∷ xs) = elim (Bool-cases (nat_beq x c)) [
  | inl same ↦ elim (find_index-trim_start c xs) [
    | inl (e, t) ↦ inl (ground arith, ground arith)
    | inr (i, e, lt, d) ↦ inr (suc i, ground arith, omega arith, ground arith)
  ]
  | inr other ↦ inr (0, ground arith, omega arith, ground arith)
]

is_empty_of_length : {n : ℕ} (t : Bytes) → length t ≡ suc n → is_empty t ≡ false
is_empty_of_length [] h = absurd (omega arith)
is_empty_of_length (x ∷ t) h = refl

pub find_last_index-trim_end :
    (c : ℕ) (s : Bytes)
    → ((find_last_index (is_not c) s ≡ none) × (trim_end c s ≡ []))
      ⊎ ((i : ℕ) × (find_last_index (is_not c) s ≡ some i)
          × (i < length s)
          × (take (suc i) s ≡ trim_end c s)
          × (length (trim_end c s) ≡ suc i))
unfolding find_last_index trim_end
find_last_index-trim_end c [] = inl (refl, refl)
find_last_index-trim_end c (x ∷ xs) = elim (find_last_index-trim_end c xs) [
  | inl (e, t) ↦ elim (Bool-cases (nat_beq x c)) [
    | inl same ↦ inl (ground arith, ground arith)
    | inr other ↦ inr (0, ground arith, omega arith, ground arith, ground arith)
  ]
  | inr (i, e, lt, t, n) ↦
      let kept : is_empty (trim_end c xs) ≡ false = is_empty_of_length (trim_end c xs) n in
      inr (suc i, ground arith, omega arith, ground arith, ground arith)
]

trim_start_lem :
    (c : ℕ) (s : Bytes)
    → (n : ℕ) × (s ≡ replicate n c ++ trim_start c s) × HeadNot c (trim_start c s)
unfolding trim_start
trim_start_lem c [] = (0, refl, tt)
trim_start_lem c (x ∷ xs) = elim (Bool-cases (nat_beq x c)) [
  | inl same ↦ let (n, e, h) = trim_start_lem c xs in (suc n, ground arith, ground arith)
  | inr other ↦ (0, ground arith, ground arith)
]

eq-nil_of_is_empty : (t : Bytes) → is_empty t ≡ true → t ≡ []
eq-nil_of_is_empty [] h = refl
eq-nil_of_is_empty (x ∷ t) h = cc

LastNot-cons :
    (c x : ℕ) (t : Bytes) → LastNot c t → (is_empty t && nat_beq x c) ≡ false → LastNot c (x ∷ t)
LastNot-cons c x [] h e = e
LastNot-cons c x (y ∷ t) h e = h

pub length-trim_start-le : (c : ℕ) (s : Bytes) → length (trim_start c s) ≤ length s
unfolding trim_start
length-trim_start-le c [] = omega arith
length-trim_start-le c (x ∷ xs) = ground (arith, length-trim_start-le c xs)

trim_end_lem :
    (c : ℕ) (s : Bytes) → (n : ℕ) × (s ≡ trim_end c s ++ replicate n c) × LastNot c (trim_end c s)
unfolding trim_end
trim_end_lem c [] = (0, refl, tt)
trim_end_lem c (x ∷ xs) =
    let (n, e, h) = trim_end_lem c xs in
    elim (Bool-cases (is_empty (trim_end c xs) && nat_beq x c)) [
      | inl gone ↦
          let empty = eq-nil_of_is_empty (trim_end c xs) in
          (suc n, ground (arith, empty), ground arith)
      | inr kept ↦ (n, rw kept (ap (◌∷◌ x) e), rw kept (LastNot-cons c x (trim_end c xs) h kept))
    ]

HeadNot-trim_end : (c : ℕ) (s : Bytes) → HeadNot c s → HeadNot c (trim_end c s)
unfolding trim_end
HeadNot-trim_end c [] h = tt
HeadNot-trim_end c (x ∷ xs) h = ground arith

pub trim_lem : (c : ℕ) (s : Bytes) → IsTrimOf c s (trim_end c (trim_start c s))
trim_lem c s =
    let (before, e, head) = trim_start_lem c s in
    let (after, e', last) = trim_end_lem c (trim_start c s) in
    record {
      before = before;
      after = after;
      parts = e ∙ ap (◌++◌ (replicate before c)) e';
      head_not = HeadNot-trim_end c (trim_start c s) head;
      last_not = last;
    }
