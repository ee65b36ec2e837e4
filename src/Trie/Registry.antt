-- ===== src/Trie/Registry.antt =====
-- source/event/trie.h: the tries as the event handler fills them (`Insert` for prefixes,
-- `InsertFromBack` for suffixes), against the plain list of the registered commands.
use migang_bot_cpp.Base.{
  ℕ, ◌≤◌, ◌<◌, ◌≡◌, refl, ap, ◌∙◌, sym, ◌⊎◌, inl, inr, Bool, true, false, if◌then◌else◌, Option,
  none, some, List, [], ◌∷◌, reverse, arith, Bytes, bytes_beq, bytes_beq_iff, length, take,
  length-reverse, length-map, length-take,
}
use migang_bot_cpp.Trie.{
  TrieNode, Ref, Match, tolower, new_node, match_or, insert_from, insert_impl, insert,
  insert_from_back, command_size, longest_search, longest_prefix, longest_suffix,
}
use migang_bot_cpp.Trie.Entries.{entry, lower, entry-insert_from, entry-new_node}
use migang_bot_cpp.Trie.Search.{IsLongest, longest_search_lem}

-- A registration: the command and its service.
abbrev pub Command : Type 0
Command = Bytes × Ref

-- The order in which the trie walks a text.
abbrev pub walked : Bool → Bytes → Bytes
walked from_back key = if from_back then reverse key else key

unfoldable pub register : Bool → Bytes → Ref → TrieNode → TrieNode × Bool
unfolding insert insert_from_back
register true key service root = insert_from_back key service root
register false key service root = insert key service root

unfoldable pub register_all : Bool → List Command → TrieNode → TrieNode
unfolding register
register_all from_back [] root = root
register_all from_back ((key, service) ∷ cs) root =
    register_all from_back cs (register from_back key service root).0

-- The specification: of the commands that agree with a path up to case, the first one.
unfoldable pub first_registered : Bool → Bytes → List Command → Option Match
first_registered from_back path [] = none
first_registered from_back path ((key, service) ∷ cs) =
    if bytes_beq (lower (walked from_back key)) path
    then some (service, command_size from_back (length key))
    else first_registered from_back path cs

length-walked : (from_back : Bool) (key : Bytes) → length (walked from_back key) ≡ length key
length-walked true key = length-reverse key
length-walked false key = refl

register_lem :
    (from_back : Bool) (key : Bytes) (service : Ref) (root : TrieNode)
    → register from_back key service root
      ≡ insert_from (walked from_back key) service (command_size from_back (length key)) root
unfolding register insert_impl
register_lem true key service root =
    ap (λ n. insert_from (reverse key) service (command_size true n) root) (length-reverse key)
register_lem false key service root = refl

entry-register_all :
    (from_back : Bool) (path : Bytes) (cs : List Command) (root : TrieNode)
    → entry path (register_all from_back cs root)
      ≡ match_or (entry path root) (first_registered from_back path cs)
unfolding register_all first_registered
entry-register_all from_back path [] root = ground arith
entry-register_all from_back path ((key, service) ∷ cs) root =
    rw (register_lem from_back key service root) (
      ground (
        arith,
        entry-register_all from_back path cs
            (insert_from (walked from_back key) service (command_size from_back (length key))
              root).0,
        entry-insert_from (walked from_back key) path service (command_size from_back (length key))
            root,
      ))

-- The trie of the registered commands holds, under each path, the first command registered for it.
pub entry-registered :
    (from_back : Bool) (path : Bytes) (cs : List Command)
    → entry path (register_all from_back cs new_node) ≡ first_registered from_back path cs
entry-registered from_back path cs =
    entry-register_all from_back path cs new_node
    ∙ ap (λ o. match_or o (first_registered from_back path cs)) (entry-new_node path)

first_registered-size :
    (from_back : Bool) (path : Bytes) (cs : List Command) (service : Ref) (size : ℕ)
    → first_registered from_back path cs ≡ some (service, size)
    → size ≡ command_size from_back (length path)
unfolding first_registered
first_registered-size from_back path [] service size e = cc
first_registered-size from_back path ((key, s) ∷ cs) service size e = ground (
  arith,
  first_registered-size from_back path cs service size,
  bytes_beq_iff (lower (walked from_back key)) path,
  length-walked from_back key,
  length-map tolower (walked from_back key),
)

-- A command of `size` bytes begins the text, up to case, and no longer command does; of the
-- commands that agree with it up to case, it is the first that was registered.
pub record IsBestCommand (from_back : Bool) (cs : List Command) (text : Bytes) (service : Ref)
    (size : ℕ) : Type 0 where
  pub nonempty : 0 < size
  pub within : size ≤ length text
  pub first :
      first_registered from_back (lower (take size text)) cs
      ≡ some (service, command_size from_back size)
  pub maximal :
      (k : ℕ)
      → size < k
      → k ≤ length text
      → first_registered from_back (lower (take k text)) cs ≡ none

-- No registered command is a nonempty beginning of the text.
abbrev pub HasNoCommand : Bool → List Command → Bytes → Type 0
HasNoCommand from_back cs text =
    (k : ℕ) → 0 < k → k ≤ length text → first_registered from_back (lower (take k text)) cs ≡ none

abbrev pub BestCommand : Bool → List Command → Bytes → Option Match → Type 0
BestCommand from_back cs text r =
    ((r ≡ none) × HasNoCommand from_back cs text)
    ⊎ ((service : Ref) × (size : ℕ) × (r ≡ some (service, command_size from_back size))
        × IsBestCommand from_back cs text service size)

module _ (from_back : Bool) (cs : List Command) (text : Bytes) where
  IsLongest-IsBestCommand :
      (service : Ref) (stored : ℕ)
      → (l : IsLongest (register_all from_back cs new_node) text (service, stored))
      → (stored ≡ command_size from_back l.size) × IsBestCommand from_back cs text service l.size
  IsLongest-IsBestCommand service stored l = (
    same,
    record {
      nonempty = l.nonempty;
      within = l.within;
      first = first ∙ ap (λ n. some (service, n)) same;
      maximal = λ k lt within. sym (entry-registered from_back _ cs) ∙ l.maximal k lt within;
    },
  )
    where
      first : first_registered from_back (lower (take l.size text)) cs ≡ some (service, stored)
      first = sym (entry-registered from_back _ cs) ∙ l.found

      taken : length (lower (take l.size text)) ≡ l.size
      taken =
          omega (arith, length-map tolower (take l.size text), length-take l.size text, l.within)

      same : stored ≡ command_size from_back l.size
      same =
          first_registered-size from_back _ cs service stored first
          ∙ ap (command_size from_back) taken

  longest_search-BestCommand :
      BestCommand from_back cs text (longest_search text (register_all from_back cs new_node))
  longest_search-BestCommand = elim (longest_search_lem text (register_all from_back cs new_node)) [
    | inl (e, absent) ↦
        inl (e, λ k pos within. sym (entry-registered from_back _ cs) ∙ absent k pos within)
    | inr ((service, stored), e, l) ↦
        let (same, best) = IsLongest-IsBestCommand service stored l in
        inr (service, l.size, e ∙ ap (λ n. some (service, n)) same, best)
  ]

-- After any registrations the prefix search answers with the service of the longest command that
-- begins the message, and with its size; it answers nothing exactly when there is none.
pub longest_prefix-BestCommand :
    (cs : List Command) (text : Bytes)
    → BestCommand false cs text (longest_prefix text (register_all false cs new_node))
unfolding longest_prefix
longest_prefix-BestCommand cs text = longest_search-BestCommand false cs text

-- After any registrations the suffix search answers with the service of the longest command that
-- ends the message, both read backwards, and with the negation of its size modulo 2 ^ 64; it
-- answers nothing exactly when there is none.
pub longest_suffix-BestCommand :
    (cs : List Command) (text : Bytes)
    → BestCommand true cs (reverse text) (longest_suffix text (register_all true cs new_node))
unfolding longest_suffix
longest_suffix-BestCommand cs text = longest_search-BestCommand true cs (reverse text)
