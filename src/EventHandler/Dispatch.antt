-- ===== src/EventHandler/Dispatch.antt =====
-- source/event/event_filter.h, `Filter`, and source/event/event_handler.h, `Handle`.
use migang_bot_cpp.Base.{
  ℕ, Bool, true, false, ◌&&◌, ◌||◌, not, Option, none, some, List, [], ◌∷◌, ◌++◌, Bytes, codes,
  nat_beq, bytes_beq, bytes_eq, is_empty, lookup, if◌then◌else◌, Result, ok, ◌>>=◌,
}
use migang_bot_cpp.Json.{JsonLib, string_at, number_at, value_string, value_number, touch}
use migang_bot_cpp.Permission.{BotConfig, first_char, get_user_permission}
use migang_bot_cpp.Service.{Service, check_is_enable, check_perm, check_to_me}
use migang_bot_cpp.Trie.{Ref, Match, longest_prefix, longest_suffix}
use migang_bot_cpp.EventHandler.{
  RegexLib, RegexMatcher, EventHandler, Handlers, Heap, Run, check, char_at,
}
use migang_bot_cpp.EventHandler.Preprocess.{preprocess}

module _ (lib : JsonLib) where
  open lib use {Json, contains, is_null, at, put, of_number}

  -- `EventFilter::Filter`
  unfoldable pub filter : Json → Result Bool
  filter event =
      let no_retcode = not (contains event "retcode") in
      if contains event "post_type"
      then (do
        message_type ← value_string lib event "message_type" []
        if bytes_beq message_type (codes "private")
            then (do
              sub_type ← value_string lib event "sub_type" []
              ok (not (bytes_beq sub_type (codes "group")) && no_retcode))
            else ok no_retcode)
      else ok no_retcode

  -- The arguments of the two log lines that name the sender.
  unfoldable pub log_sender : Json → Result Bytes
  log_sender event = do
    nickname ← value_string lib (at event "sender") "nickname" []
    user_id ← value_number lib (at event "sender") "user_id" 0
    ok nickname

  -- The first switch on `message_type`, which logs; reading `event["anonymous"]` may add the key.
  unfoldable pub log_message : ℕ → Json → Result Json
  unfolding log_sender
  log_message kind event =
      if nat_beq kind b'p'
      then (do
        sub_type ← string_at lib event "sub_type"
        if nat_beq (first_char sub_type) b'f'
            then (do self_id ← number_at lib event "self_id"; sender ← log_sender event; ok event)
            else ok event)
      else if nat_beq kind b'g'
      then (do
        let event' = touch lib event "anonymous"
        self_id ← number_at lib event' "self_id"
        group_id ← number_at lib event' "group_id"
        if is_null (at event' "anonymous")
            then (do sender ← log_sender event'; ok event')
            else ok event')
      else ok event

  -- `go(...)` behind a test.
  abbrev pub run_if : Bool → Ref → Json → List (Run lib)
  run_if test service event = if test then (service, event) ∷ [] else []

  -- The searches of a trie write the size of the command to the event.
  unfoldable pub with_size : Option Match → Json → Json
  with_size none event = event
  with_size (some (service, size)) event = put event "__command_size__" (of_number size)

  module _ (engine : RegexLib) (heap : Heap) (h : EventHandler engine)
      (command_guard : Json → Service → Bool) (guard : Service → Bool) where
    -- `if (service && …) go(…)`
    unfoldable pub matched_runs : Option Match → Json → List (Run lib)
    matched_runs none event = []
    matched_runs (some (service, size)) event =
        run_if (command_guard event (heap service)) service event

    unfoldable pub fullmatch_runs : Bytes → Json → List (Run lib)
    fullmatch_runs message event = elim (lookup message h.command_fullmatch) [
      | none ↦ []
      | some service ↦ run_if (command_guard event (heap service)) service event
    ]

    unfoldable pub regex_runs : Bytes → Json → List (RegexMatcher engine) → List (Run lib)
    regex_runs message event [] = []
    regex_runs message event (m ∷ ms) =
        run_if (check engine m message && guard (heap m.service)) m.service event
        ++ regex_runs message event ms

    unfoldable pub all_runs : Json → List Ref → List (Run lib)
    all_runs event [] = []
    all_runs event (s ∷ ss) = run_if (guard (heap s)) s event ++ all_runs event ss

    -- The five matches on a message, in order; the guards differ between groups and private chats.
    unfoldable pub message_runs : Bytes → Json → List (Run lib)
    unfolding with_size matched_runs fullmatch_runs regex_runs all_runs
    message_runs message event =
        let by_prefix = longest_prefix message h.command_prefix in
        let by_suffix = longest_suffix message h.command_suffix in
        let event' = with_size by_prefix event in
        let event'' = with_size by_suffix event' in
        fullmatch_runs message event
        ++ (matched_runs by_prefix event'
            ++ (matched_runs by_suffix event''
                ++ (regex_runs message event'' h.command_regex
                    ++ all_runs event'' h.all_msg_handler)))

  -- The guards of a command, and of the other handlers, in a group.
  abbrev pub group_guard : ℕ → ℕ → Service → Bool
  group_guard group permission s = check_is_enable group s && check_perm permission s

  abbrev pub group_command_guard : ℕ → ℕ → Json → Service → Bool
  group_command_guard group permission event s =
      check_is_enable group s
      && check_perm permission s
      && check_to_me (contains event "__to_me__") s

  abbrev pub private_command_guard : ℕ → Json → Service → Bool
  private_command_guard permission event s = check_perm permission s

  module _ (engine : RegexLib) where
    -- `handler.at(type).at(sub_type)`, nothing if either key is missing.
    unfoldable pub handlers_for : Bytes → Bytes → Handlers engine → List Ref
    handlers_for type sub_type m = elim (lookup type m) [
      | none ↦ []
      | some subs ↦ elim (lookup sub_type subs) [ none ↦ [] | some services ↦ services ]
    ]

    module _ (heap : Heap) where
      -- The loop over the services of a notice or a request.
      unfoldable pub gated_runs : Json → List Ref → Result (List (Run lib))
      gated_runs event [] = ok []
      gated_runs event (s ∷ ss) = do
        enabled ←
            (if contains event "group_id"
              then (do group ← number_at lib event "group_id"; ok (check_is_enable group (heap s)))
              else ok true)
        rest ← gated_runs event ss
        ok (run_if enabled s event ++ rest)

      unfoldable pub handle_notice : EventHandler engine → Json → Result (List (Run lib))
      unfolding handlers_for gated_runs
      handle_notice h event = do
        notice_type ← value_string lib event "notice_type" []
        sub_type ← value_string lib event "sub_type" []
        self_id ← number_at lib event "self_id"
        exact ← gated_runs event (handlers_for notice_type sub_type h.notice_handler)
        if is_empty sub_type then ok exact else (do
          general ← gated_runs event (handlers_for notice_type [] h.notice_handler)
          ok (exact ++ general))

      unfoldable pub handle_request : EventHandler engine → Json → Result (List (Run lib))
      unfolding handlers_for gated_runs
      handle_request h event = do
        request_type ← value_string lib event "request_type" []
        sub_type ← value_string lib event "sub_type" []
        self_id ← number_at lib event "self_id"
        gated_runs event (handlers_for request_type sub_type h.request_handler)

  -- A meta event is only logged.
  unfoldable pub handle_meta : Json → Result (List (Run lib))
  handle_meta event = do
    meta_event_type ← string_at lib event "meta_event_type"
    if nat_beq (first_char meta_event_type) b'l'
        then (do
          sub_type ← string_at lib event "sub_type"
          let kind = first_char sub_type
          if nat_beq kind b'e' || nat_beq kind b'c' || nat_beq kind b'd'
              then (do self_id ← number_at lib event "self_id"; ok [])
              else ok [])
        else (do self_id ← number_at lib event "self_id"; time ← number_at lib event "time"; ok [])

module _ (lib : JsonLib) (config : BotConfig) (engine : RegexLib) (stale : Bytes → Bytes)
    (heap : Heap) (h : EventHandler engine) where
  open lib use {Json, contains}

  -- The second switch on `message_type`.
  unfoldable pub route_message : ℕ → ℕ → Bytes → Json → Result (List (Run lib))
  unfolding message_runs
  route_message kind permission message event =
      if nat_beq kind b'g'
      then (do
        group ← number_at lib event "group_id"
        ok (
            message_runs lib engine heap h (group_command_guard lib group permission)
              (group_guard lib group permission) message event))
      else if nat_beq kind b'p'
      then ok (
          message_runs lib engine heap h (private_command_guard lib permission)
            (check_perm permission) message event)
      else ok []

  unfoldable pub handle_message : Json → Result (List (Run lib))
  unfolding log_message preprocess route_message
  handle_message event = do
    msg ← string_at lib event "message"
    message_type ← string_at lib event "message_type"
    let kind = first_char message_type
    permission ← get_user_permission lib config event
    logged ← log_message lib kind event
    (message, addressed) ← preprocess lib config stale msg logged
    route_message kind permission message addressed

  -- The switch on `post_type[3]`.
  unfoldable pub handle_post : ℕ → Json → Result (List (Run lib))
  unfolding handle_message handle_notice handle_request handle_meta
  handle_post c event =
      if nat_beq c b's'
      then handle_message event
      else if nat_beq c b'i'
      then handle_notice lib engine heap h event
      else if nat_beq c b'u'
      then handle_request lib engine heap h event
      else if nat_beq c b'a'
      then handle_meta lib event
      else ok []

  -- `Handle`: its answer, and the coroutines that it starts.
  unfoldable pub handle : Json → Result (Bool × List (Run lib))
  unfolding filter handle_post char_at
  handle event = do
    accepted ← filter lib event
    if accepted
        then (if contains event "post_type"
            then (do
              post_type ← string_at lib event "post_type"
              c ← char_at 3 post_type
              runs ← handle_post c event
              ok (true, runs))
            else ok (true, []))
        else ok (false, [])
