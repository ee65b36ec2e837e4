-- ===== src/EventHandler/Register.antt =====
-- source/event/event_handler.h, the registrations (command types: source/event/type.h).
use migang_bot_cpp.Base.{
  ℕ, Bool, true, false, Option, none, some, List, [], ◌∷◌, ◌++◌, Bytes, bytes_eq, nat_beq, lookup,
  insert, if◌then◌else◌,
}
use migang_bot_cpp.Trie.{Ref}
use migang_bot_cpp.Trie
use migang_bot_cpp.EventHandler.{RegexLib, EventHandler, Handlers, make_matcher}

abbrev pub fullmatch : ℕ
fullmatch = 0

abbrev pub prefix : ℕ
prefix = 1

abbrev pub suffix : ℕ
suffix = 2

abbrev pub keyword : ℕ
keyword = 3

abbrev pub allmsg : ℕ
allmsg = 4

abbrev pub or_new {ℓ} : {A : Type ℓ} → Option (List A) → List A
or_new none = []
or_new (some xs) = xs

module _ (engine : RegexLib) where
  -- `command_fullmatch_.emplace(command, service).second`
  unfoldable pub emplace_fullmatch : Bytes → Ref → EventHandler engine → EventHandler engine × Bool
  emplace_fullmatch command service h = elim (lookup command h.command_fullmatch) [
    | some old ↦ (h, false)
    | none ↦ (record h { command_fullmatch = (command, service) ∷ h.command_fullmatch }, true)
  ]

  -- `RegisterCommand`
  unfoldable pub register_command :
      ℕ → Bytes → Ref → EventHandler engine → EventHandler engine × Bool
  unfolding emplace_fullmatch
  register_command command_type command service h =
      if nat_beq command_type prefix
      then (let (t, done) = Trie.insert command service h.command_prefix in
          (record h { command_prefix = t }, done))
      else if nat_beq command_type suffix
      then (let (t, done) = Trie.insert_from_back command service h.command_suffix in
          (record h { command_suffix = t }, done))
      else if nat_beq command_type allmsg
      then (record h { all_msg_handler = h.all_msg_handler ++ service ∷ [] }, true)
      else emplace_fullmatch command service h

  -- `handler[type][sub_type].push_back(service)`
  unfoldable pub push_handler : Bytes → Bytes → Ref → Handlers engine → Handlers engine
  push_handler type sub_type service m =
      let subs = or_new (lookup type m) in
      insert type (insert sub_type (or_new (lookup sub_type subs) ++ service ∷ []) subs) m

  -- `RegisterNotice`
  unfoldable pub register_notice : Bytes → Bytes → Ref → EventHandler engine → EventHandler engine
  unfolding push_handler
  register_notice notice_type sub_type service h = record h {
    notice_handler = push_handler notice_type sub_type service h.notice_handler;
  }

  -- `RegisterRequest`
  unfoldable pub register_request : Bytes → Bytes → Ref → EventHandler engine → EventHandler engine
  unfolding push_handler
  register_request request_type sub_type service h = record h {
    request_handler = push_handler request_type sub_type service h.request_handler;
  }

  -- `RegisterRegex`
  unfoldable pub register_regex : List Bytes → Ref → EventHandler engine → EventHandler engine
  register_regex patterns service h = record h {
    command_regex = h.command_regex ++ make_matcher engine patterns service ∷ [];
  }
