-- ===== src/Trie/Entries.antt =====
-- source/event/trie.h, `InsertImpl`: a trie is a partial map from lower-case commands to matches.
use migang_bot_cpp.Base.{
  ℕ, ◌≡◌, refl, if◌then◌else◌, Option, none, some, [], ◌∷◌, map, arith, nat_beq, Bytes, bytes_beq,
  is_some, not, ap, ◌∙◌, Option-cases, inl, inr,
}
use migang_bot_cpp.Trie.{
  TrieNode, node, Childs, leaf, child, Ref, Match, tolower, new_node, find_child, put_child,
  child_or_new, insert_from, match_of, match_or,
}

-- The abstract view of a trie: what is stored under a lower-case path.
unfoldable pub entry : Bytes → TrieNode → Option Match
entry [] n = match_of n
entry (c ∷ path) (node cs s size) = elim (find_child c cs) [ none ↦ none | some n ↦ entry path n ]

abbrev pub lower : Bytes → Bytes
lower = map tolower

pub entry-new_node : (path : Bytes) → entry path new_node ≡ none
unfolding entry find_child
entry-new_node [] = refl
entry-new_node (c ∷ path) = refl

pub find_child-put_child :
    (c d : ℕ) (n : TrieNode) (cs : Childs)
    → find_child d (put_child c n cs) ≡ (if nat_beq c d then some n else find_child d cs)
unfolding find_child put_child
find_child-put_child c d n leaf = refl
find_child-put_child c d n (child e m cs) = ground (arith, find_child-put_child c d n cs)

entry-child_or_new :
    (c : ℕ) (path : Bytes) (cs : Childs) (s : Option Ref) (size : ℕ)
    → entry path (child_or_new (find_child c cs)) ≡ entry (c ∷ path) (node cs s size)
unfolding entry
entry-child_or_new c path cs s size = elim (Option-cases (find_child c cs)) [
  | inl e ↦ rw (e, entry) (entry-new_node path)
  | inr (n, e) ↦ rw (e, entry) refl
]

-- A key that is taken keeps its entry; a free one gets the service; no other path changes.
pub entry-insert_from :
    (key path : Bytes) (service : Ref) (size : ℕ) (root : TrieNode)
    → entry path (insert_from key service size root).0 ≡ (
        if bytes_beq (lower key) path
        then match_or (entry path root) (some (service, size))
        else entry path root)
unfolding entry insert_from bytes_beq
entry-insert_from [] [] service size (node cs none old) = refl
entry-insert_from [] [] service size (node cs (some s) old) = refl
entry-insert_from [] (d ∷ path) service size (node cs none old) = refl
entry-insert_from [] (d ∷ path) service size (node cs (some s) old) = refl
entry-insert_from (c ∷ key) [] service size (node cs s old) = ground arith
entry-insert_from (c ∷ key) (d ∷ path) service size (node cs s old) =
    let c' = tolower c in
    let n = child_or_new (find_child c' cs) in
    ground (
      arith,
      find_child-put_child c' d (insert_from key service size n).0 cs,
      entry-insert_from key path service size n,
      entry-child_or_new c' path cs s old,
    )

-- The insertion reports failure exactly when the key was taken.
pub insert_from-done :
    (key : Bytes) (service : Ref) (size : ℕ) (root : TrieNode)
    → (insert_from key service size root).1 ≡ not (is_some (entry (lower key) root))
unfolding entry insert_from
insert_from-done [] service size (node cs none old) = refl
insert_from-done [] service size (node cs (some s) old) = refl
insert_from-done (c ∷ key) service size (node cs s old) =
    insert_from-done key service size (child_or_new (find_child (tolower c) cs))
    ∙ ap (λ o. not (is_some o)) (entry-child_or_new (tolower c) (lower key) cs s old)

-- The insertion of a service writes the entry of its lower-case key unless the key is taken, when
-- it answers false and changes nothing; no other entry changes.
pub insert-entry :
    (key path : Bytes) (service : Ref) (size : ℕ) (root : TrieNode)
    → (entry path (insert_from key service size root).0 ≡ (
        if bytes_beq (lower key) path
        then match_or (entry path root) (some (service, size))
        else entry path root))
      × ((insert_from key service size root).1 ≡ not (is_some (entry (lower key) root)))
insert-entry key path service size root =
    (entry-insert_from key path service size root, insert_from-done key service size root)
