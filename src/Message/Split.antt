-- ===== src/Message/Split.antt =====
-- source/message/utility.h, `Split`, with a delimiter of one byte (as the callers have it).
use mathlib.Core.Path.{ap₂}
use migang_bot_cpp.Base.{
  ℕ, zero, suc, ◌+◌, ◌-◌, ◌≤◌, ◌<◌, ◌≡◌, refl, ap, ◌∙◌, sym, ◌⊎◌, inl, inr, true, false, none, some,
  List, [], ◌∷◌, ◌++◌, Bytes, arith, nat_beq, nat_beq_iff, ltb, length, take, drop, take_all,
  length-drop, all, if◌then◌else◌, Bool-cases, ok,
}
use migang_bot_cpp.Strings.{npos, sub_size, find_sub, substr}
use migang_bot_cpp.Strings.Replace.{lacks}
use migang_bot_cpp.Message.{find_from, split_from, split}

abbrev push_head : ℕ → List Bytes → List Bytes
push_head x [] = (x ∷ []) ∷ []
push_head x (p ∷ ps) = (x ∷ p) ∷ ps

-- Splitting at each byte `c`, by plain recursion.
split_on : ℕ → Bytes → List Bytes
split_on c [] = [] ∷ []
split_on c (x ∷ xs) =
    let rest = split_on c xs in if nat_beq x c then [] ∷ rest else push_head x rest

-- The pieces with `c` between them.
unfoldable pub join : ℕ → List Bytes → Bytes
join c [] = []
join c (p ∷ []) = p
join c (p ∷ q ∷ ps) = p ++ c ∷ join c (q ∷ ps)

abbrev IsCons : List Bytes → Type 0
IsCons ps = (p : Bytes) × (qs : List Bytes) × (ps ≡ p ∷ qs)

split_on-IsCons : (c : ℕ) (s : Bytes) → IsCons (split_on c s)
unfolding split_on
split_on-IsCons c [] = ([], [], refl)
split_on-IsCons c (x ∷ xs) =
    let (p, qs, e) = split_on-IsCons c xs in
    elim (Bool-cases (nat_beq x c)) [
      | inl same ↦ ([], split_on c xs, rw same)
      | inr other ↦ (x ∷ p, qs, rw (other, e))
    ]

join-push_head : (c x : ℕ) (ps : List Bytes) → IsCons ps → join c (push_head x ps) ≡ x ∷ join c ps
unfolding join
join-push_head c x [] (p, qs, e) = cc
join-push_head c x (p ∷ []) h = refl
join-push_head c x (p ∷ q ∷ ps) h = refl

join-nil_cons : (c : ℕ) (ps : List Bytes) → IsCons ps → join c ([] ∷ ps) ≡ c ∷ join c ps
unfolding join
join-nil_cons c [] (p, qs, e) = cc
join-nil_cons c (p ∷ ps) h = refl

join-split_on : (c : ℕ) (s : Bytes) → join c (split_on c s) ≡ s
unfolding split_on join
join-split_on c [] = refl
join-split_on c (x ∷ xs) =
    let h = split_on-IsCons c xs in
    elim (Bool-cases (nat_beq x c)) [
      | inl same ↦ rw same (
          join-nil_cons c (split_on c xs) h
          ∙ ap₂ ◌∷◌ (sym ((nat_beq_iff x c).0 same)) (join-split_on c xs))
      | inr other ↦
          rw other (join-push_head c x (split_on c xs) h ∙ ap (◌∷◌ x) (join-split_on c xs))
    ]

all-push_head :
    (c x : ℕ) (ps : List Bytes)
    → nat_beq x c ≡ false
    → all (lacks c) ps ≡ true
    → all (lacks c) (push_head x ps) ≡ true
all-push_head c x [] e h = ground arith
all-push_head c x (p ∷ ps) e h = ground arith

split_on-lacks : (c : ℕ) (s : Bytes) → all (lacks c) (split_on c s) ≡ true
unfolding split_on
split_on-lacks c [] = refl
split_on-lacks c (x ∷ xs) = elim (Bool-cases (nat_beq x c)) [
  | inl same ↦ rw same (split_on-lacks c xs)
  | inr other ↦ rw other (all-push_head c x (split_on c xs) other (split_on-lacks c xs))
]

find_sub-split_on :
    (c : ℕ) (s : Bytes)
    → ((find_sub (c ∷ []) s ≡ none) × (split_on c s ≡ s ∷ []))
      ⊎ ((i : ℕ) × (find_sub (c ∷ []) s ≡ some i)
          × (i < length s)
          × (split_on c s ≡ take i s ∷ split_on c (drop (suc i) s)))
unfolding find_sub split_on
find_sub-split_on c [] = inl (refl, refl)
find_sub-split_on c (x ∷ xs) = elim (Bool-cases (nat_beq x c)) [
  | inl same ↦ inr (0, ground arith, omega arith, ground arith)
  | inr other ↦ elim (find_sub-split_on c xs) [
    | inl (e, t) ↦ inl (ground arith, ground arith)
    | inr (i, e, lt, t) ↦ inr (suc i, ground arith, omega arith, ground arith)
  ]
]

drop-drop : (n m : ℕ) (s : Bytes) → drop n (drop m s) ≡ drop (m + n) s
drop-drop n zero s = ap (λ k. drop k s) (omega arith)
drop-drop n (suc m) [] = drop-nil n ∙ sym (drop-nil (suc m + n))
  where
    drop-nil : (k : ℕ) → ◌≡◌ {A = Bytes} (drop k []) []
    drop-nil zero = refl
    drop-nil (suc k) = refl
drop-drop n (suc m) (x ∷ s) =
    let same : suc (m + n) ≡ suc m + n = omega arith in
    drop-drop n m s ∙ ap (λ k. drop k (x ∷ s)) same

split_from-split_on :
    (fuel : ℕ) (view : Bytes) (c pos : ℕ)
    → length view < npos
    → pos ≤ length view
    → length view - pos < fuel
    → split_from fuel view (c ∷ []) pos ≡ ok (split_on c (drop pos view))
unfolding split_from find_from substr
split_from-split_on zero view c pos small within enough = absurd (omega arith)
split_from-split_on (suc fuel) view c pos small within enough =
    let here : ltb (length view) pos ≡ false = ground arith in
    elim (find_sub-split_on c (drop pos view)) [
      | inl (e, t) ↦
          let whole = take_all npos (drop pos view) (omega (arith, length-drop pos view)) in
          rw (here, e, split_from, find_from) (rw (here, whole, t))
      | inr (i, e, lt, t) ↦
          let next : pos + i + 1 ≤ length view = omega (arith, length-drop pos view) in
          let count : sub_size (pos + i) pos ≡ i = omega (arith, length-drop pos view) in
          let same : pos + i + 1 ≡ pos + suc i = omega arith in
          let rest =
            split_from-split_on fuel view c (pos + i + 1) small next (omega arith)
            ∙ ap (λ s. ok (split_on c s))
                (ap (λ k. drop k view) same ∙ sym (drop-drop (suc i) pos view)) in
          rw (here, e, split_from, find_from) (rw (here, count, rest, t))
    ]

-- Splitting a text shorter than `npos` at a single byte never faults and never runs out of rounds:
-- it gives pieces without that byte, which give the text back when the byte is put between them.
pub split_lem :
    (c : ℕ) (view : Bytes)
    → length view < npos
    → (pieces : List Bytes) × (split view (c ∷ []) ≡ ok pieces)
      × (join c pieces ≡ view)
      × (all (lacks c) pieces ≡ true)
unfolding split
split_lem c view small = (
  split_on c view,
  split_from-split_on (length view + 2) view c 0 small (omega arith) (omega arith),
  join-split_on c view,
  split_on-lacks c view,
)
