-- ===== src/EventHandler.antt =====
-- source/event: event_filter.h, regex_matcher.h and event_handler.h. An event is turned into the
-- list of the coroutines that `Handle` starts, each a service with its copy of the event. `Handle`
-- and `Filter` are `noexcept`: a fault is the end of the process. Logging has no effect but the
-- evaluation of its arguments, which may throw.
pub mod Dispatch
pub mod Preprocess
pub mod Register
pub mod Guards
pub mod Notices
pub mod ToMe
pub mod EndToEnd
mod Tests
use migang_bot_cpp.Base.{
  ℕ, zero, suc, ◌+◌, ◌-◌, ◌%◌, ◌^◌, min, Bool, true, false, ◌&&◌, not, Option, none, some, List, [],
  ◌∷◌, ◌++◌, String, Bytes, codes, nat_beq, bytes_beq, bytes_eq, length, drop, get_elem?, is_empty,
  lookup, any, if◌then◌else◌, Result, ok, fault, Fault, ◌>>=◌, ◌>>◌, or_fault,
}
use migang_bot_cpp.Trie.{Ref, Match, TrieNode}
use migang_bot_cpp.Service.{Service, check_is_enable, check_perm, check_to_me}
use migang_bot_cpp.Json.{JsonLib}

-- jpcre2, which compiles a pattern and matches it against a text.
pub record RegexLib : Type 1 where
  pub Regex : Type 0
  pub compile : Bytes → String → Regex
  pub match : Regex → Bytes → Bool

module _ (engine : RegexLib) where
  open engine use {Regex, compile, match}

  pub record RegexMatcher : Type 0 where
    pub regex : List Regex
    pub service : Ref

  -- The constructor of `RegexMatcher`.
  unfoldable pub make_matcher : List Bytes → Ref → RegexMatcher
  make_matcher patterns service = record { regex = compiled patterns; service = service }
    where
      compiled : List Bytes → List Regex
      compiled [] = []
      compiled (p ∷ ps) = compile p "mSi" ∷ compiled ps

  -- `Check`
  unfoldable pub check : RegexMatcher → Bytes → Bool
  check m str = any (λ re. match re str) m.regex

  -- `notice_handler_` and `request_handler_`: by type, then by sub type.
  abbrev pub Handlers : Type 0
  Handlers = List (Bytes × List (Bytes × List Ref))

  pub record EventHandler : Type 0 where
    pub command_fullmatch : List (Bytes × Ref)
    pub command_prefix : TrieNode
    pub command_suffix : TrieNode
    pub command_regex : List RegexMatcher
    pub all_msg_handler : List Ref
    pub notice_handler : Handlers
    pub request_handler : Handlers

-- The services behind the pointers.
abbrev pub Heap : Type 0
Heap = Ref → Service

module _ (lib : JsonLib) where
  open lib use {Json}

  -- A coroutine: `service->Run(event, bot)` on a copy of the event.
  abbrev pub Run : Type 0
  Run = Ref × Json

-- `s[i]`: the terminating zero at the size, undefined beyond it.
unfoldable pub char_at : ℕ → Bytes → Result ℕ
char_at zero [] = ok 0
char_at (suc i) [] = fault Fault.undefined
char_at zero (c ∷ s) = ok c
char_at (suc i) (c ∷ s) = char_at i s
