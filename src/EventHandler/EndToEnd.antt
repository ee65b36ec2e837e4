-- ===== src/EventHandler/EndToEnd.antt =====
-- source/event/trie.h, event_handler.h and message/utility.h together: a prefix command from its
-- registration to the text that its handler reads.
use migang_bot_cpp.Base.{
  ℕ, ◌^◌, ◌<◌, ◌≡◌, ap, ◌∙◌, ◌⊎◌, inl, inr, Bool, true, false, Option, some, List, Bytes, arith,
  take, drop, Mem, mem-append_right, mem-cons_self, ok,
}
use migang_bot_cpp.Json.{JsonLib}
use migang_bot_cpp.Service.{Service}
use migang_bot_cpp.Trie.{Ref, Match, new_node, command_size, longest_prefix}
use migang_bot_cpp.Trie.Registry.{
  Command, register_all, IsBestCommand, BestCommand, longest_prefix-BestCommand,
}
use migang_bot_cpp.EventHandler.{RegexLib, EventHandler, Heap, Run}
use migang_bot_cpp.EventHandler.Dispatch.{with_size, matched_runs, fullmatch_runs, message_runs}
use migang_bot_cpp.Message.{unescape, extra_plain_text}
use migang_bot_cpp.Message.PlainText.{IsMessage, extra_plain_text-prefix}
use migang_bot_cpp.Strings.Replace.{lacks}

-- The best command is unique, so a search that answers with the best answers with this one.
BestCommand-unique :
    (back : Bool) (cs : List Command) (text : Bytes) (r : Option Match) (service : Ref) (size : ℕ)
    → BestCommand back cs text r
    → IsBestCommand back cs text service size
    → r ≡ some (service, command_size back size)
BestCommand-unique back cs text r service size (inl (e, absent)) best =
    let found = best.first in let missing = absent size best.nonempty best.within in cc
BestCommand-unique back cs text r service size (inr (service', size', e, other)) best =
    elim (lt_cases size size') [
      | inl shorter ↦
          let missing = best.maximal size' shorter other.within in let found = other.first in cc
      | inr (inl longer) ↦
          let missing = other.maximal size longer best.within in let found = best.first in cc
      | inr (inr same) ↦ let first = best.first in let second = other.first in cc
    ]
  where
    lt_cases : (a b : ℕ) → (a < b) ⊎ ((b < a) ⊎ (a ≡ b))
    lt_cases a b = grind arith

module _ (lib : JsonLib) (engine : RegexLib) (heap : Heap) (h : EventHandler engine)
    (command_guard : lib.Json → Service → Bool) (guard : Service → Bool) where
  open lib use {Json, put, of_number, at-put, contains-put, get_number-of_number}

  matched-Mem :
      (message : Bytes) (event : Json) (service : Ref) (size : ℕ)
      → longest_prefix message h.command_prefix ≡ some (service, size)
      → let event' = put event "__command_size__" (of_number size) in
        command_guard event' (heap service) ≡ true
        → Mem {A = Run lib}
            (service, event')
            (message_runs lib engine heap h command_guard guard message event)
  unfolding message_runs matched_runs with_size
  matched-Mem message event service size e allowed = rw e (
      rw allowed (
        mem-append_right (fullmatch_runs lib engine heap h command_guard guard message event)
          mem-cons_self))

  -- If the trie of prefixes holds some registered commands, the best one for a message, of a size
  -- that fits a positive short and without an ampersand, starts its service whenever the guard lets
  -- it, with an event in which the plain text is what follows the command, unescaped.
  pub prefix_command :
      (cs : List Command) (message : Bytes) (event : Json) (service : Ref) (size : ℕ)
      → h.command_prefix ≡ register_all false cs new_node
      → IsBestCommand false cs message service size
      → IsMessage lib event message
      → size < 2 ^ 15
      → lacks b'&' (take size message) ≡ true
      → let event' = put event "__command_size__" (of_number size) in
        command_guard event' (heap service) ≡ true
        → Mem {A = Run lib}
            (service, event')
            (message_runs lib engine heap h command_guard guard message event)
          × (extra_plain_text lib event' ≡ ok (unescape (drop size message)))
  unfolding command_size
  prefix_command cs message event service size filled best m short plain allowed = (
    matched-Mem message event service size answer allowed,
    extra_plain_text-prefix lib event' message size kept (has, value) best.nonempty short
        best.within plain,
  )
    where
      event' : Json
      event' = put event "__command_size__" (of_number size)

      answer : longest_prefix message h.command_prefix ≡ some (service, size)
      answer =
          ap (longest_prefix message) filled
          ∙ BestCommand-unique false cs message _ service size
              (longest_prefix-BestCommand cs message) best

      kept : IsMessage lib event' message
      kept = ap lib.get_string (at-put event "__command_size__" "message" (of_number size)) ∙ m

      has : lib.contains event' "__command_size__" ≡ true
      has = contains-put event "__command_size__" "__command_size__" (of_number size)

      value : lib.get_number (lib.at event' "__command_size__") ≡ some size
      value =
          ap lib.get_number (at-put event "__command_size__" "__command_size__" (of_number size))
          ∙ get_number-of_number size (omega arith)
