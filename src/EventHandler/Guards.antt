-- ===== src/EventHandler/Guards.antt =====
-- source/event/event_handler.h, `Handle` on messages: which services it starts.
use migang_bot_cpp.Base.{
  ℕ, ◌≡◌, refl, ◌∙◌, Bool, true, false, ◌&&◌, Option, none, some, List, [], ◌∷◌, ◌++◌, Bytes, arith,
  All, All-append, Bool-cases, inl, inr, ok, string_eq, lookup, bytes_eq, Option-cases,
}
use migang_bot_cpp.Json.{JsonLib, touch}
use migang_bot_cpp.Permission.{BotConfig, first_char, get_user_permission}
use migang_bot_cpp.Service.{Service, check_is_enable, check_perm}
use migang_bot_cpp.Trie.{Ref, Match, longest_prefix, longest_suffix}
use migang_bot_cpp.EventHandler.{RegexLib, RegexMatcher, EventHandler, Heap, Run, check, char_at}
use migang_bot_cpp.EventHandler.Preprocess.{address, preprocess}
use migang_bot_cpp.EventHandler.Dispatch.{
  run_if, with_size, matched_runs, fullmatch_runs, regex_runs, all_runs, message_runs, group_guard,
  group_command_guard, log_message, route_message, handle_message, handle_post, handle,
}

module _ (lib : JsonLib) (engine : RegexLib) (heap : Heap) (h : EventHandler engine)
    (command_guard : lib.Json → Service → Bool) (guard : Service → Bool)
    (stronger : (event : lib.Json) (s : Service)
      → command_guard event s ≡ true
      → guard s ≡ true) where
  open lib use {Json}

  abbrev Guarded : Run lib → Type 0
  Guarded run = guard (heap run.0) ≡ true

  run_if-Guarded :
      (test : Bool) (s : Ref) (event : Json)
      → (test ≡ true → guard (heap s) ≡ true)
      → All Guarded (run_if lib test s event)
  run_if-Guarded true s event g = (g refl, tt)
  run_if-Guarded false s event g = tt

  matched_runs-Guarded :
      (m : Option Match) (event : Json)
      → All Guarded (matched_runs lib engine heap h command_guard guard m event)
  unfolding matched_runs
  matched_runs-Guarded none event = tt
  matched_runs-Guarded (some (s, size)) event =
      run_if-Guarded (command_guard event (heap s)) s event (stronger event (heap s))

  fullmatch_runs-Guarded :
      (message : Bytes) (event : Json)
      → All Guarded (fullmatch_runs lib engine heap h command_guard guard message event)
  unfolding fullmatch_runs
  fullmatch_runs-Guarded message event = elim (Option-cases (lookup message h.command_fullmatch)) [
    | inl e ↦ rw (e, fullmatch_runs) tt
    | inr (s, e) ↦
        rw (e, fullmatch_runs)
          (run_if-Guarded (command_guard event (heap s)) s event (stronger event (heap s)))
  ]

  regex_runs-Guarded :
      (message : Bytes) (event : Json) (ms : List (RegexMatcher engine))
      → All Guarded (regex_runs lib engine heap h command_guard guard message event ms)
  unfolding regex_runs
  regex_runs-Guarded message event [] = tt
  regex_runs-Guarded message event (m ∷ ms) =
      All-append Guarded _ _
        (run_if-Guarded (check engine m message && guard (heap m.service)) m.service event
          (λ e. ground arith))
        (regex_runs-Guarded message event ms)

  all_runs-Guarded :
      (event : Json) (ss : List Ref)
      → All Guarded (all_runs lib engine heap h command_guard guard event ss)
  unfolding all_runs
  all_runs-Guarded event [] = tt
  all_runs-Guarded event (s ∷ ss) =
      All-append Guarded _ _ (run_if-Guarded (guard (heap s)) s event (λ e. e))
        (all_runs-Guarded event ss)

  pub message_runs-Guarded :
      (message : Bytes) (event : Json)
      → All Guarded (message_runs lib engine heap h command_guard guard message event)
  unfolding message_runs
  message_runs-Guarded message event =
      let by_prefix = longest_prefix message h.command_prefix in
      let by_suffix = longest_suffix message h.command_suffix in
      let event' = with_size lib by_prefix event in
      let event'' = with_size lib by_suffix event' in
      let fulls = fullmatch_runs lib engine heap h command_guard guard message event in
      let prefixes = matched_runs lib engine heap h command_guard guard by_prefix event' in
      let suffixes = matched_runs lib engine heap h command_guard guard by_suffix event'' in
      let regexes =
        regex_runs lib engine heap h command_guard guard message event'' h.command_regex in
      let alls = all_runs lib engine heap h command_guard guard event'' h.all_msg_handler in
      All-append Guarded fulls (prefixes ++ (suffixes ++ (regexes ++ alls)))
        (fullmatch_runs-Guarded message event)
        (All-append Guarded prefixes (suffixes ++ (regexes ++ alls))
          (matched_runs-Guarded by_prefix event')
          (All-append Guarded suffixes (regexes ++ alls) (matched_runs-Guarded by_suffix event'') (
            All-append Guarded regexes alls (regex_runs-Guarded message event'' h.command_regex)
              (all_runs-Guarded event'' h.all_msg_handler))))

module _ (lib : JsonLib) (config : BotConfig) (stale : Bytes → Bytes) where
  open lib use {Json, at, put, get_number, get_string, contains, at-put}

  address_keeps :
      (msg : Bytes) (event : Json) → at (address lib msg event) "group_id" ≡ at event "group_id"
  unfolding address
  address_keeps msg event =
      at-put (put event "__to_me__" (lib.of_bool true)) "message" "group_id" (lib.of_string msg)
      ∙ at-put event "__to_me__" "group_id" (lib.of_bool true)

  touch_keeps : (event : Json) → at (touch lib event "anonymous") "group_id" ≡ at event "group_id"
  touch_keeps event = elim (Bool-cases (contains event "anonymous")) [
    | inl has ↦ rw has refl
    | inr new ↦ rw new (at-put event "anonymous" "group_id" lib.null)
  ]

  preprocess_keeps :
      (msg message : Bytes) (event event' : Json)
      → preprocess lib config stale msg event ≡ ok (message, event')
      → at event' "group_id" ≡ at event "group_id"
  unfolding preprocess
  preprocess_keeps msg message event event' h = grind (arith, address_keeps)

  log_message_keeps :
      (kind : ℕ) (event event' : Json)
      → log_message lib kind event ≡ ok event'
      → at event' "group_id" ≡ at event "group_id"
  unfolding log_message
  log_message_keeps kind event event' h = ground (arith, touch_keeps event)

All-imp {ℓ κ μ} :
    {A : Type ℓ} {P : A → Type κ} {Q : A → Type μ}
    → ((a : A) → P a → Q a)
    → (xs : List A) → All P xs
    → All Q xs
All-imp f [] h = tt
All-imp f (x ∷ xs) h = (f x h.0, All-imp f xs h.1)

module _ (lib : JsonLib) (config : BotConfig) (engine : RegexLib) (stale : Bytes → Bytes)
    (heap : Heap) (h : EventHandler engine) where
  open lib use {Json, at, get_number, get_string}

  -- The service of the run is enabled for the group, and the permission suffices to use it.
  abbrev pub IsAllowed : ℕ → ℕ → Run lib → Type 0
  IsAllowed group permission run =
      (check_is_enable group (heap run.0) ≡ true) × (check_perm permission (heap run.0) ≡ true)

  route_message-IsAllowed :
      (group permission : ℕ) (message : Bytes) (event : Json) (runs : List (Run lib))
      → get_number (at event "group_id") ≡ some group
      → route_message lib config engine stale heap h b'g' permission message event ≡ ok runs
      → All (IsAllowed group permission) runs
  unfolding route_message
  route_message-IsAllowed group permission message event runs g e =
      let guard = group_guard lib group permission in
      let command_guard = group_command_guard lib group permission in
      let all = message_runs lib engine heap h command_guard guard message event in
      let same : all ≡ runs = ground arith in
      rw (← same) (
        All-imp (λ run p. ground arith) all
          (message_runs-Guarded lib engine heap h command_guard guard (λ ev s p. ground arith)
            message event))

  handle_message-IsAllowed :
      (group permission : ℕ) (message_type : Bytes) (event : Json) (runs : List (Run lib))
      → get_string (at event "message_type") ≡ some message_type
      → first_char message_type ≡ b'g'
      → get_number (at event "group_id") ≡ some group
      → get_user_permission lib config event ≡ ok permission
      → handle_message lib config engine stale heap h event ≡ ok runs
      → All (IsAllowed group permission) runs
  unfolding handle_message
  handle_message-IsAllowed group permission message_type event runs t f g p e = grind (
    arith,
    log_message_keeps lib config stale,
    preprocess_keeps lib config stale,
    route_message-IsAllowed group permission,
  )

  -- When a group message is handled without a fault, every service that is started is enabled for
  -- the group, and the user's permission suffices to use it.
  pub handle-IsAllowed :
      (group permission : ℕ) (post_type message_type : Bytes) (event : Json) (answer : Bool)
      (runs : List (Run lib))
      → get_string (at event "post_type") ≡ some post_type
      → char_at 3 post_type ≡ ok b's'
      → get_string (at event "message_type") ≡ some message_type
      → first_char message_type ≡ b'g'
      → get_number (at event "group_id") ≡ some group
      → get_user_permission lib config event ≡ ok permission
      → handle lib config engine stale heap h event ≡ ok (answer, runs)
      → All (IsAllowed group permission) runs
  unfolding handle handle_post
  handle-IsAllowed group permission post_type message_type event answer runs pt c t f g p e =
      ground (arith, handle_message-IsAllowed group permission message_type event runs t f g p)
