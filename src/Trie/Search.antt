-- ===== src/Trie/Search.antt =====
-- source/event/trie.h, `LongestSearchImpl` and `ShortestSearchImpl` against the abstract view of a
-- trie: they find the longest and the shortest nonempty stored prefix, case folded.
use migang_bot_cpp.Base.{
  ℕ, zero, suc, ◌≤◌, ◌<◌, ◌≡◌, refl, ◌⊎◌, inl, inr, ◌∙◌, Option, none, some, [], ◌∷◌, arith, Bytes,
  length, take, Option-cases,
}
use migang_bot_cpp.Trie.{
  TrieNode, node, Childs, Ref, Match, tolower, find_child, match_of, match_or, longest_from,
  longest_search, shortest_search,
}
use migang_bot_cpp.Trie.Entries.{entry, lower}

-- What is stored under the first `k` bytes of a key.
abbrev pub prefix_entry : TrieNode → Bytes → ℕ → Option Match
prefix_entry root key k = entry (lower (take k key)) root

abbrev pub HasNoPrefix : TrieNode → Bytes → Type 0
HasNoPrefix root key = (k : ℕ) → 0 < k → k ≤ length key → prefix_entry root key k ≡ none

pub record IsLongest (root : TrieNode) (key : Bytes) (m : Match) : Type 0 where
  pub size : ℕ
  pub nonempty : 0 < size
  pub within : size ≤ length key
  pub found : prefix_entry root key size ≡ some m
  pub maximal : (k : ℕ) → size < k → k ≤ length key → prefix_entry root key k ≡ none

pub record IsShortest (root : TrieNode) (key : Bytes) (m : Match) : Type 0 where
  pub size : ℕ
  pub nonempty : 0 < size
  pub within : size ≤ length key
  pub found : prefix_entry root key size ≡ some m
  pub minimal : (k : ℕ) → 0 < k → k < size → prefix_entry root key k ≡ none

module _ (c : ℕ) (key : Bytes) (cs : Childs) (s : Option Ref) (size : ℕ) where
  prefix_entry-missing :
      (k : ℕ)
      → find_child (tolower c) cs ≡ none
      → 0 < k
      → prefix_entry (node cs s size) (c ∷ key) k ≡ none
  unfolding entry
  prefix_entry-missing zero e h = absurd (omega arith)
  prefix_entry-missing (suc k) e h = rw (e, entry) refl

  prefix_entry-child :
      (n : TrieNode) (k : ℕ)
      → find_child (tolower c) cs ≡ some n
      → prefix_entry (node cs s size) (c ∷ key) (suc k) ≡ prefix_entry n key k
  unfolding entry
  prefix_entry-child n k e = rw (e, entry) refl

  module _ (n : TrieNode) (e : find_child (tolower c) cs ≡ some n) where
    HasNoPrefix-child :
        match_of n ≡ none → HasNoPrefix n key → HasNoPrefix (node cs s size) (c ∷ key)
    unfolding entry
    HasNoPrefix-child here below zero pos within = absurd (omega arith)
    HasNoPrefix-child here below (suc zero) pos within = prefix_entry-child n zero e ∙ here
    HasNoPrefix-child here below (suc (suc k)) pos within =
        prefix_entry-child n (suc k) e ∙ below (suc k) (omega arith) (omega (arith, within))

    IsLongest-here :
        (m : Match)
        → match_of n ≡ some m
        → HasNoPrefix n key
        → IsLongest (node cs s size) (c ∷ key) m
    unfolding entry
    IsLongest-here m here below = record {
      size = 1;
      nonempty = omega arith;
      within = omega arith;
      found = prefix_entry-child n zero e ∙ here;
      maximal = beyond;
    }
      where
        beyond :
            (k : ℕ)
            → 1 < k
            → k ≤ length (c ∷ key)
            → prefix_entry (node cs s size) (c ∷ key) k ≡ none
        beyond zero lt within = absurd (omega arith)
        beyond (suc k) lt within = prefix_entry-child n k e ∙ below k (omega arith) (omega arith)

    IsLongest-child : (m : Match) → IsLongest n key m → IsLongest (node cs s size) (c ∷ key) m
    IsLongest-child m l = record {
      size = suc l.size;
      nonempty = omega arith;
      within = omega (arith, l.within);
      found = prefix_entry-child n l.size e ∙ l.found;
      maximal = beyond;
    }
      where
        beyond :
            (k : ℕ)
            → suc l.size < k
            → k ≤ length (c ∷ key)
            → prefix_entry (node cs s size) (c ∷ key) k ≡ none
        beyond zero lt within = absurd (omega arith)
        beyond (suc k) lt within =
            prefix_entry-child n k e ∙ l.maximal k (omega arith) (omega arith)

    IsShortest-here : (m : Match) → match_of n ≡ some m → IsShortest (node cs s size) (c ∷ key) m
    unfolding entry
    IsShortest-here m here = record {
      size = 1;
      nonempty = omega arith;
      within = omega arith;
      found = prefix_entry-child n zero e ∙ here;
      minimal = λ k pos lt. absurd (omega arith);
    }

    IsShortest-child :
        (m : Match)
        → match_of n ≡ none
        → IsShortest n key m
        → IsShortest (node cs s size) (c ∷ key) m
    unfolding entry
    IsShortest-child m here l = record {
      size = suc l.size;
      nonempty = omega arith;
      within = omega (arith, l.within);
      found = prefix_entry-child n l.size e ∙ l.found;
      minimal = before;
    }
      where
        before : (k : ℕ) → 0 < k → k < suc l.size → prefix_entry (node cs s size) (c ∷ key) k ≡ none
        before zero pos lt = absurd (omega arith)
        before (suc zero) pos lt = prefix_entry-child n zero e ∙ here
        before (suc (suc k)) pos lt =
            prefix_entry-child n (suc k) e ∙ l.minimal (suc k) (omega arith) (omega arith)

-- The outcomes of the loop that starts with `pre`.
abbrev LongestFrom : TrieNode → Bytes → Option Match → Option Match → Type 0
LongestFrom root key pre r =
    ((r ≡ pre) × HasNoPrefix root key) ⊎ ((m : Match) × (r ≡ some m) × IsLongest root key m)

LongestFrom-step :
    (c : ℕ) (key : Bytes) (cs : Childs) (s : Option Ref) (size : ℕ) (n : TrieNode)
    (pre r found : Option Match)
    → find_child (tolower c) cs ≡ some n
    → match_of n ≡ found
    → LongestFrom n key (match_or found pre) r
    → LongestFrom (node cs s size) (c ∷ key) pre r
LongestFrom-step c key cs s size n pre r found e here (inr (m, eq, l)) =
    inr (m, eq, IsLongest-child c key cs s size n e m l)
LongestFrom-step c key cs s size n pre r none e here (inl (eq, below)) =
    inl (eq, HasNoPrefix-child c key cs s size n e here below)
LongestFrom-step c key cs s size n pre r (some m) e here (inl (eq, below)) =
    inr (m, eq, IsLongest-here c key cs s size n e m here below)

longest_from_lem :
    (key : Bytes) (root : TrieNode) (pre : Option Match)
    → LongestFrom root key pre (longest_from key root pre)
unfolding longest_from
longest_from_lem [] root pre = inl (refl, λ k pos within. absurd (omega arith))
longest_from_lem (c ∷ key) (node cs s size) pre = elim (Option-cases (find_child (tolower c) cs)) [
  | inl e ↦
      rw (e, longest_from)
        (inl (refl, λ k pos within. prefix_entry-missing c key cs s size k e pos))
  | inr (n, e) ↦
      rw (e, longest_from)
        (LongestFrom-step c key cs s size n pre _ (match_of n) e refl
          (longest_from_lem key n (match_or (match_of n) pre)))
]

-- The longest search fails exactly when no nonempty prefix of the key is stored, and otherwise
-- returns the match of the longest one.
pub longest_search_lem :
    (key : Bytes) (root : TrieNode)
    → ((longest_search key root ≡ none) × HasNoPrefix root key)
      ⊎ ((m : Match) × (longest_search key root ≡ some m) × IsLongest root key m)
unfolding longest_search
longest_search_lem key root = longest_from_lem key root none

IsShortest-step :
    (c : ℕ) (key : Bytes) (cs : Childs) (s : Option Ref) (size : ℕ) (n : TrieNode)
    (rest found : Option Match)
    → find_child (tolower c) cs ≡ some n
    → match_of n ≡ found
    → ((rest ≡ none) × HasNoPrefix n key) ⊎ ((m : Match) × (rest ≡ some m) × IsShortest n key m)
    → ((match_or found rest ≡ none) × HasNoPrefix (node cs s size) (c ∷ key))
      ⊎ ((m : Match) × (match_or found rest ≡ some m) × IsShortest (node cs s size) (c ∷ key) m)
IsShortest-step c key cs s size n rest (some m) e here below =
    inr (m, refl, IsShortest-here c key cs s size n e m here)
IsShortest-step c key cs s size n rest none e here (inl (eq, below)) =
    inl (eq, HasNoPrefix-child c key cs s size n e here below)
IsShortest-step c key cs s size n rest none e here (inr (m, eq, l)) =
    inr (m, eq, IsShortest-child c key cs s size n e m here l)

-- The shortest search fails exactly when no nonempty prefix of the key is stored, and otherwise
-- returns the match of the shortest one.
pub shortest_search_lem :
    (key : Bytes) (root : TrieNode)
    → ((shortest_search key root ≡ none) × HasNoPrefix root key)
      ⊎ ((m : Match) × (shortest_search key root ≡ some m) × IsShortest root key m)
unfolding shortest_search
shortest_search_lem [] root = inl (refl, λ k pos within. absurd (omega arith))
shortest_search_lem (c ∷ key) (node cs s size) = elim (Option-cases (find_child (tolower c) cs)) [
  | inl e ↦
      rw (e, shortest_search)
        (inl (refl, λ k pos within. prefix_entry-missing c key cs s size k e pos))
  | inr (n, e) ↦
      rw (e, shortest_search)
        (IsShortest-step c key cs s size n (shortest_search key n) (match_of n) e refl
          (shortest_search_lem key n))
]
