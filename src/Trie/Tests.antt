-- ===== src/Trie/Tests.antt =====
-- source/event/trie.h: runs of the trie, and its theorems at concrete commands.
use migang_bot_cpp.Base.{ℕ, ◌⊎◌, ◌≡◌, refl, true, false, none, some, List, [], ◌∷◌, codes, reverse}
use migang_bot_cpp.Trie.{
  new_node, insert, insert_impl, insert_from_back, insert_from, command_size, longest_prefix,
  longest_suffix, shortest_prefix, tolower, longest_search, shortest_search, longest_from,
}
use migang_bot_cpp.Trie.Search.{
  longest_search_lem, shortest_search_lem, HasNoPrefix, IsLongest, IsShortest,
}
use migang_bot_cpp.Trie.Registry.{
  Command, register_all, BestCommand, longest_prefix-BestCommand, longest_suffix-BestCommand,
}

abbrev commands : List Command
commands = (codes ".send", 1) ∷ (codes ".se", 2) ∷ (codes ".SEND", 3) ∷ []

runs : Unit {0}
unfolding register_all insert insert_from_back insert_impl insert_from command_size longest_prefix
    longest_suffix longest_search longest_from shortest_prefix shortest_search tolower
runs = tt

-- The longest command wins, in any case, and the second registration of one is refused.
longest_wins :
    longest_prefix (codes ".Send hi") (register_all false commands new_node) ≡ some (1, 5)
unfolding runs
longest_wins = refl

shortest_wins :
    shortest_prefix (codes ".Send hi") (register_all false commands new_node) ≡ some (2, 3)
unfolding runs
shortest_wins = refl

suffix_size :
    longest_suffix (codes "hi.se") (register_all true commands new_node)
    ≡ some (2, 18446744073709551613)
unfolding runs
suffix_size = refl

longest_prefix-BestCommand_example :
    BestCommand false commands
      (codes ".Send hi")
      (longest_prefix (codes ".Send hi") (register_all false commands new_node))
longest_prefix-BestCommand_example = longest_prefix-BestCommand commands (codes ".Send hi")

longest_suffix-BestCommand_example :
    BestCommand true commands
      (reverse (codes "hi.se"))
      (longest_suffix (codes "hi.se") (register_all true commands new_node))
longest_suffix-BestCommand_example = longest_suffix-BestCommand commands (codes "hi.se")

shortest_search_lem_example :
    ((shortest_search (codes ".Send") (register_all false commands new_node) ≡ none)
      × HasNoPrefix (register_all false commands new_node) (codes ".Send"))
    ⊎ ((m : ℕ × ℕ) × (shortest_search (codes ".Send") (register_all false commands new_node)
          ≡ some m)
        × IsShortest (register_all false commands new_node) (codes ".Send") m)
shortest_search_lem_example =
    shortest_search_lem (codes ".Send") (register_all false commands new_node)

longest_search_lem_example :
    ((longest_search (codes ".Send") (register_all false commands new_node) ≡ none)
      × HasNoPrefix (register_all false commands new_node) (codes ".Send"))
    ⊎ ((m : ℕ × ℕ) × (longest_search (codes ".Send") (register_all false commands new_node)
          ≡ some m)
        × IsLongest (register_all false commands new_node) (codes ".Send") m)
longest_search_lem_example =
    longest_search_lem (codes ".Send") (register_all false commands new_node)
