-- ===== src/EventHandler/Tests.antt =====
-- source/event: `Handle` on concrete events.
use migang_bot_cpp.Base.{
  ℕ, ◌≡◌, refl, true, false, none, some, List, [], ◌∷◌, ◌++◌, Bytes, codes, arith, inr, All, Mem,
  is_empty, bytes_beq, drop, take, string_eq, lookup, member, if◌then◌else◌, String, ok, fault,
  Fault, ◌<◌, ◌≤◌, ◌⊎◌, inl,
}
use migang_bot_cpp.Json.{touch}
use migang_bot_cpp.Json.Example.{Value, text, number, object_of, example_lib}
use migang_bot_cpp.Permission.{BotConfig, get_user_permission, sender_permission}
use migang_bot_cpp.Service.{check_is_enable, check_perm, check_to_me}
use migang_bot_cpp.Strings.{starts_with, to_string, digits_from}
use migang_bot_cpp.Strings.Trim.{trim_start}
use migang_bot_cpp.Trie.{
  new_node, Ref, longest_prefix, longest_suffix, longest_search, longest_from, insert_impl,
  insert_from, command_size, tolower,
}
use migang_bot_cpp.Trie.Entries.{lower}
use migang_bot_cpp.Trie.Registry.{register_all, first_registered, IsBestCommand}
use migang_bot_cpp.Message.{unescape, extra_plain_text}
use migang_bot_cpp.EventHandler.{RegexLib, EventHandler, Heap, Run, char_at}
use migang_bot_cpp.EventHandler.Preprocess.{address, preprocess}
use migang_bot_cpp.EventHandler.Dispatch.{
  handle, handle_post, handle_message, route_message, handle_notice, handlers_for, log_message,
  log_sender, group_command_guard, group_guard, message_runs,
}
use migang_bot_cpp.EventHandler.Guards.{IsAllowed, handle-IsAllowed}
use migang_bot_cpp.EventHandler.Notices.{IsGate, started, handle_notice_lem}
use migang_bot_cpp.EventHandler.ToMe.{mention, preprocess-mention, handle_message-bare_mention}
use migang_bot_cpp.EventHandler.EndToEnd.{prefix_command}

-- A pattern matches the text that it is equal to.
abbrev literal : RegexLib
literal = record { Regex = Bytes; compile = λ pattern options. pattern; match = bytes_beq }

abbrev bot_config : BotConfig
bot_config = record { bot_name = codes "bot"; superusers = []; white_list = [] }

-- The service behind a pointer has that number as the permission for its use.
abbrev heap : Heap
heap use_permission = record {
  service_name = [];
  description = [];
  manage_permission = 4;
  enable_on_default = true;
  groups = 70 ∷ [];
  config = record { enable_on_default = some true; groups = 70 ∷ [] };
  use_permission = use_permission;
  only_to_me = false;
}

abbrev commands : List (Bytes × Ref)
commands = (codes ".echo", 3) ∷ (codes ".e", 2) ∷ []

abbrev handler : EventHandler literal
handler = record {
  command_fullmatch = [];
  command_prefix = register_all false commands new_node;
  command_suffix = new_node;
  command_regex = [];
  all_msg_handler = 1 ∷ 5 ∷ [];
  notice_handler = (codes "group_ban", ([], 2 ∷ []) ∷ (codes "ban", 1 ∷ []) ∷ []) ∷ [];
  request_handler = (codes "group", (codes "invite", 1 ∷ []) ∷ []) ∷ [];
}

abbrev group_message : Bytes → Value
group_message message = object_of (
    ("post_type", text (codes "message"))
    ∷ ("message_type", text (codes "group"))
    ∷ ("self_id", number 42)
    ∷ ("group_id", number 71)
    ∷ ("user_id", number 9)
    ∷ ("sender", object_of [])
    ∷ ("message", text message)
    ∷ [])

level :
    (message : Bytes) → get_user_permission example_lib bot_config (group_message message) ≡ ok 3
unfolding get_user_permission sender_permission member
level message = refl

abbrev notice : String → String → Value
notice kind sub_type = object_of (
    (kind, text (codes "group_ban"))
    ∷ ("request_type", text (codes "group"))
    ∷ ("sub_type", text (codes sub_type))
    ∷ ("self_id", number 42)
    ∷ ("group_id", number 71)
    ∷ [])

-- The event that is matched, and the one that the services get.
abbrev logged : Bytes → Value
logged message = touch example_lib (group_message message) "anonymous"

abbrev sized : Value
sized = example_lib.put (logged (codes ".echo hi")) "__command_size__" (number 5)

abbrev echo_runs : List (Run example_lib)
echo_runs = (3, sized) ∷ (1, sized) ∷ []

echo_handled :
    handle example_lib bot_config literal (λ s. s) heap handler (group_message (codes ".echo hi"))
    ≡ ok (true, echo_runs)
unfolding handle handle_message char_at handle_post level route_message message_runs bytes_beq
    starts_with lookup longest_prefix longest_search longest_from register_all insert_impl
    insert_from tolower check_is_enable check_perm check_to_me command_size longest_suffix
echo_handled = refl

third : char_at 3 (codes "message") ≡ ok b's'
unfolding char_at
third = refl

handle-IsAllowed_example :
    All (IsAllowed example_lib bot_config literal (λ s. s) heap handler 71 3) echo_runs
handle-IsAllowed_example =
    handle-IsAllowed example_lib bot_config literal (λ s. s) heap handler 71 3 (codes "message")
      (codes "group") (group_message (codes ".echo hi")) true echo_runs refl third refl refl refl
      (level (codes ".echo hi")) echo_handled

in_group_71 : IsGate example_lib literal heap (notice "notice_type" "ban") (check_is_enable 71)
in_group_71 = record { in_group = λ has. (71, refl, λ s. refl); outside = λ out. cc }

handle_notice_lem_example :
    let event = notice "notice_type" "ban" in
    let start = started example_lib literal heap (check_is_enable 71) event in
    handle_notice example_lib literal heap handler event
    ≡ ok (
        start (
          handlers_for example_lib literal (codes "group_ban") (codes "ban") handler.notice_handler)
        ++ (if is_empty (codes "ban")
            then []
            else start
                (handlers_for example_lib literal (codes "group_ban") [] handler.notice_handler)))
handle_notice_lem_example =
    handle_notice_lem example_lib literal heap handler (notice "notice_type" "ban")
      (codes "group_ban") (codes "ban") 42 (check_is_enable 71) refl refl refl in_group_71

preprocess-mention_example :
    let event = group_message [] in
    let text = trim_start b' ' (codes " hi") in
    preprocess example_lib bot_config (λ s. s) (mention (codes "42") (codes " hi")) event ≡ (
      if bytes_beq (codes "42") (to_string 42)
      then (if is_empty text
          then fault Fault.out_of_range
          else ok (text, address example_lib text event))
      else ok (mention (codes "42") (codes " hi"), event))
preprocess-mention_example =
    preprocess-mention example_lib bot_config (λ s. s) (codes "42") (codes " hi") (group_message [])
      42 refl refl (omega arith)

mention_42 : mention (to_string 42) (codes " ") ≡ codes "[CQ:at,qq=42] "
unfolding to_string digits_from
mention_42 = refl

handle_message-bare_mention_example :
    handle_message example_lib bot_config literal
      (λ s. s)
      heap
      handler
      (group_message (codes "[CQ:at,qq=42] "))
    ≡ fault Fault.out_of_range
unfolding to_string digits_from log_message log_sender
handle_message-bare_mention_example =
    handle_message-bare_mention example_lib bot_config literal (λ s. s) heap handler
      (group_message (codes "[CQ:at,qq=42] ")) (logged (codes "[CQ:at,qq=42] ")) 42 3
      (codes "group") (codes " ") refl refl (omega arith) refl (level (codes "[CQ:at,qq=42] ")) refl
      refl

six_to_eight : (k : ℕ) → 5 < k → k ≤ 8 → (k ≡ 6) ⊎ ((k ≡ 7) ⊎ (k ≡ 8))
six_to_eight k longer within = grind arith

runs : Unit {0}
unfolding first_registered command_size tolower
runs = tt

best :
    first_registered false (lower (take 5 (codes ".echo hi"))) commands
    ≡ some (3, command_size false 5)
unfolding runs bytes_beq
best = refl

none_of_six :
    (first_registered false (lower (take 6 (codes ".echo hi"))) commands ≡ none)
    × (first_registered false (lower (take 7 (codes ".echo hi"))) commands ≡ none)
    × (first_registered false (lower (take 8 (codes ".echo hi"))) commands ≡ none)
unfolding runs bytes_beq
none_of_six = (refl, refl, refl)

echo_is_best : IsBestCommand false commands (codes ".echo hi") 3 5
echo_is_best = record {
  nonempty = omega arith;
  within = omega arith;
  first = best;
  maximal = λ k longer within. elim (six_to_eight k longer within) [
    | inl e ↦ rw e (none_of_six.0)
    | inr (inl e) ↦ rw e none_of_six.1
    | inr (inr e) ↦ rw e none_of_six.2
  ];
}

prefix_command_example :
    let event = logged (codes ".echo hi") in
    Mem {A = Run example_lib}
      (3, sized)
      (message_runs example_lib literal heap handler
        (group_command_guard example_lib 71 3)
        (group_guard example_lib 71 3)
        (codes ".echo hi")
        event)
    × (extra_plain_text example_lib sized ≡ ok (unescape (drop 5 (codes ".echo hi"))))
unfolding check_is_enable member check_perm check_to_me
prefix_command_example =
    prefix_command example_lib literal heap handler (group_command_guard example_lib 71 3)
      (group_guard example_lib 71 3) commands (codes ".echo hi") (logged (codes ".echo hi")) 3 5
      refl echo_is_best refl (omega arith) refl refl
