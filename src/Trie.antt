-- ===== src/Trie.antt =====
-- source/event/trie.h: the command trie. A node is its map of children, its service and its
-- command size; `std::unordered_map<char, …>` is an association list, a null `service_` is `none`.
-- The node of a key is updated in place by the source and rebuilt along its path here.
pub mod Entries
pub mod Search
pub mod Registry
mod Tests
use migang_bot_cpp.Base.{
  ℕ, ◌+◌, ◌-◌, ◌%◌, ◌^◌, Bool, true, false, ◌&&◌, if◌then◌else◌, leb, nat_beq, Option, none, some,
  List, [], ◌∷◌, reverse, length, Bytes,
}

-- A `std::shared_ptr<TriggeredService>`: the number of the shared object.
abbrev pub Ref : Type 0
Ref = ℕ

mutual
  pub data TrieNode : Type 0 where
    node : Childs → Option Ref → ℕ → TrieNode

  pub data Childs : Type 0 where
    leaf : Childs
    child : ℕ → TrieNode → Childs → Childs

-- `std::tolower` on a byte, in the C locale.
unfoldable pub tolower : ℕ → ℕ
tolower c = if leb b'A' c && leb c b'Z' then c + 32 else c

-- `std::make_unique<TrieNode>()`
abbrev pub new_node : TrieNode
new_node = node leaf none 0

-- `childs_.count(ch)` and `childs_.at(ch)`
unfoldable pub find_child : ℕ → Childs → Option TrieNode
find_child c leaf = none
find_child c (child d n cs) = if nat_beq d c then some n else find_child c cs

unfoldable pub put_child : ℕ → TrieNode → Childs → Childs
put_child c n leaf = child c n leaf
put_child c n (child d m cs) = if nat_beq d c then child d n cs else child d m (put_child c n cs)

-- `emplace(ch, …)` when the count is 0, then `at(ch)`
abbrev pub child_or_new : Option TrieNode → TrieNode
child_or_new none = new_node
child_or_new (some n) = n

-- The walk of `InsertImpl` down the key, and the assignment at its end.
unfoldable pub insert_from : Bytes → Ref → ℕ → TrieNode → TrieNode × Bool
unfolding find_child put_child
insert_from [] service size (node cs none old) = (node cs (some service) size, true)
insert_from [] service size (node cs (some s) old) = (node cs (some s) old, false)
insert_from (c ∷ key) service size (node cs s old) =
    let (n, done) = insert_from key service size (child_or_new (find_child (tolower c) cs)) in
    (node (put_child (tolower c) n cs) s old, done)

-- `command_size_` is a `std::size_t`: the negation of a size wraps.
unfoldable pub command_size : Bool → ℕ → ℕ
command_size from_back size = if from_back then (2 ^ 64 - size) % 2 ^ 64 else size

unfoldable pub insert_impl : Bool → Bytes → Ref → TrieNode → TrieNode × Bool
insert_impl from_back key service root =
    insert_from key service (command_size from_back (length key)) root

-- `Insert` and `InsertFromBack`
unfoldable pub insert : Bytes → Ref → TrieNode → TrieNode × Bool
insert key service root = insert_impl false key service root

unfoldable pub insert_from_back : Bytes → Ref → TrieNode → TrieNode × Bool
insert_from_back key service root = insert_impl true (reverse key) service root

-- A service with the command size of its node: what a search returns and writes to the event.
abbrev pub Match : Type 0
Match = Ref × ℕ

abbrev pub match_of : TrieNode → Option Match
match_of (node cs none size) = none
match_of (node cs (some s) size) = some (s, size)

abbrev pub match_or : Option Match → Option Match → Option Match
match_or none m = m
match_or (some m) _ = some m

-- `ShortestSearchImpl`: the first node below the root that holds a service.
unfoldable pub shortest_search : Bytes → TrieNode → Option Match
unfolding find_child
shortest_search [] n = none
shortest_search (c ∷ key) (node cs s size) = elim (find_child (tolower c) cs) [
  | none ↦ none
  | some n ↦ let rest = shortest_search key n in match_or (match_of n) rest
]

-- `LongestSearchImpl`: the last such node on the walk, `pre`.
unfoldable pub longest_from : Bytes → TrieNode → Option Match → Option Match
unfolding find_child
longest_from [] n pre = pre
longest_from (c ∷ key) (node cs s size) pre = elim (find_child (tolower c) cs) [
  | none ↦ pre
  | some n ↦ longest_from key n (match_or (match_of n) pre)
]

unfoldable pub longest_search : Bytes → TrieNode → Option Match
longest_search key root = longest_from key root none

unfoldable pub shortest_prefix : Bytes → TrieNode → Option Match
shortest_prefix key root = shortest_search key root

unfoldable pub shortest_suffix : Bytes → TrieNode → Option Match
shortest_suffix key root = shortest_search (reverse key) root

unfoldable pub longest_prefix : Bytes → TrieNode → Option Match
longest_prefix key root = longest_search key root

unfoldable pub longest_suffix : Bytes → TrieNode → Option Match
longest_suffix key root = longest_search (reverse key) root
