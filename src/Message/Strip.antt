-- ===== src/Message/Strip.antt =====
-- source/message/utility.h: `LStrip`, `RStrip` and `Strip` through the indices that they compute.
use migang_bot_cpp.Base.{
  ℕ, zero, suc, false, ◌≢◌, ◌+◌, ◌-◌, ◌≤◌, ◌<◌, ◌≡◌, refl, ap, ◌∙◌, inl, inr, Bytes, [], ◌∷◌, arith,
  length, take, drop, ltb, ok,
}
use migang_bot_cpp.Strings.{npos, find_first_not_of, find_last_not_of, remove_prefix, remove_suffix}
use migang_bot_cpp.Strings.Trim.{
  trim_start, trim_end, IsTrimOf, trim_lem, length-trim_start-le, find_index-trim_start,
  find_last_index-trim_end,
}
use migang_bot_cpp.Message.{lstrip, rstrip, rstrip_view, strip}

drop_all : (s : Bytes) → drop (length s) s ≡ []
drop_all [] = refl
drop_all (x ∷ s) = drop_all s

take_before : (i : ℕ) (s : Bytes) → take i s ≡ take i (take (suc i) s)
take_before zero s = refl
take_before (suc i) [] = refl
take_before (suc i) (x ∷ s) = ap (◌∷◌ x) (take_before i s)

remove_prefix_lem : (n m : ℕ) (s : Bytes) → n ≡ m → m ≤ length s → remove_prefix n s ≡ ok (drop m s)
unfolding remove_prefix
remove_prefix_lem n m s e h = ground arith

remove_suffix_lem : (n m : ℕ) (s : Bytes) → n + m ≡ length s → remove_suffix n s ≡ ok (take m s)
unfolding remove_suffix
remove_suffix_lem n m s e =
    let within : ltb (length s) n ≡ false = ground arith in
    let left : length s - n ≡ m = omega arith in rw (within, left)

pub lstrip_lem : (ch : ℕ) (s : Bytes) → length s < npos → lstrip ch s ≡ ok (trim_start ch s)
unfolding lstrip find_first_not_of
lstrip_lem ch s small = elim (find_index-trim_start ch s) [
  | inl (e, t) ↦
      rw (e, t) (remove_prefix_lem _ (length s) s (omega arith) (omega arith) ∙ ap ok (drop_all s))
  | inr (i, e, lt, t) ↦ rw e (remove_prefix_lem _ i s (omega arith) (omega arith) ∙ ap ok t)
]

pub rstrip_lem : (ch : ℕ) (s : Bytes) → length s < npos → rstrip ch s ≡ ok (trim_end ch s)
unfolding rstrip find_last_not_of
rstrip_lem ch s small = elim (find_last_index-trim_end ch s) [
  | inl (e, t) ↦ rw (e, t) (remove_suffix_lem _ 0 s (omega arith))
  | inr (i, e, lt, t, n) ↦ rw e (remove_suffix_lem _ (suc i) s (omega arith) ∙ ap ok t)
]

-- Stripping a text shorter than `npos` never faults and gives the text without the stripped byte at
-- both ends: what is left neither begins nor ends with that byte.
pub strip_lem :
    (ch : ℕ) (s : Bytes) → length s < npos → (t : Bytes) × (strip ch s ≡ ok t) × IsTrimOf ch s t
unfolding strip
strip_lem ch s small = (
  trim_end ch (trim_start ch s),
  rw (lstrip_lem ch s small) (rstrip_lem ch (trim_start ch s) shorter),
  trim_lem ch s,
)
  where
    shorter : length (trim_start ch s) < npos
    shorter = omega (arith, length-trim_start-le ch s)

-- `RStrip` on a view by reference cuts one byte too many: of a text shorter than `npos` that does
-- not consist of the stripped byte alone, the last byte that should be kept is lost.
pub rstrip_view_lem :
    (ch : ℕ) (s : Bytes)
    → length s < npos
    → trim_end ch s ≢ []
    → rstrip_view ch s ≡ ok (take (length (trim_end ch s) - 1) (trim_end ch s))
unfolding rstrip_view find_last_not_of
rstrip_view_lem ch s small kept = elim (find_last_index-trim_end ch s) [
  | inl (e, t) ↦ absurd (kept t)
  | inr (i, e, lt, t, n) ↦
      let last : suc i - 1 ≡ i = omega arith in
      rw (e, n, last)
        (remove_suffix_lem _ i s (omega arith) ∙ ap ok (take_before i s ∙ ap (take i) t))
]
