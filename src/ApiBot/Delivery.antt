-- ===== src/ApiBot/Delivery.antt =====
-- source/bot/bot.h and source/bot/onebot_11/api_bot.h: a coroutine that waits for the next message of
-- a member of a group gets it.
use migang_bot_cpp.Base.{
  ℕ, ◌≡◌, refl, ap, ◌∙◌, Bool, true, false, ◌&&◌, ◌||◌, not, some, List, [], ◌∷◌, ◌++◌, Bytes,
  arith, all, nat_beq_iff, nat_eq, ltb, lookup, insert, erase, lookup-insert_self,
  lookup-erase_self, member, emplace, member-emplace, is_some, is_empty, Bool-cases, inl, inr, ok,
}
use migang_bot_cpp.Json.{JsonLib}
use migang_bot_cpp.ApiBot.{ApiBot, GroupQueues, Reply, Answer}
use migang_bot_cpp.ApiBot.Calls.{update, make_promise, set_value}
use migang_bot_cpp.ApiBot.Sessions.{
  or_empty, group_queue, pop_alive, give, wait_in, finish, is_need_message,
  is_some_one_need_message, feed_message, put_left,
}
use migang_bot_cpp.ApiBot.Process.{feed_in, feed_from, feed_event, event_process}

-- Expired promises in front of one that is awaited are passed.
pop_alive-last :
    (alive : ℕ → Bool) (p : ℕ) (expired : List ℕ)
    → all (λ q. not (alive q)) expired ≡ true
    → alive p ≡ true
    → pop_alive alive (expired ++ p ∷ []) ≡ (some p, [])
unfolding pop_alive
pop_alive-last alive p [] gone here = rw here refl
pop_alive-last alive p (q ∷ qs) gone here = ground (arith, pop_alive-last alive p qs)

-- A new promise revives none of the older ones.
still_expired :
    (alive : ℕ → Bool) (p : ℕ) (qs : List ℕ)
    → all (λ q. not (alive q) && ltb q p) qs ≡ true
    → all (λ q. not (update alive p true q)) qs ≡ true
still_expired alive p [] gone = refl
still_expired alive p (q ∷ qs) gone = ground (arith, still_expired alive p qs)

-- No queue is left for the member.
need-put_left :
    (group user : ℕ) (m : GroupQueues)
    → is_some (lookup user (or_empty (lookup group (put_left group user [] m)))) ≡ false
unfolding put_left lookup
need-put_left group user m =
    let users = erase user (or_empty (lookup group m)) in
    let gone = lookup-erase_self user (or_empty (lookup group m)) in
    elim (Bool-cases (is_empty users)) [
      | inl none_left ↦ rw none_left (rw (lookup-erase_self group m) refl)
      | inr others ↦ rw others (rw (lookup-insert_self group users m) (rw gone refl))
    ]

module _ (lib : JsonLib) where
  open lib use {Json, contains, at, get_number, get_string}

  -- The event is a message with this text from that member of that group.
  pub record IsGroupMessage (event : Json) (group user : ℕ) (message : Bytes) : Type 0 where
    pub no_answer : contains event "retcode" ≡ false
    pub has_message : contains event "message" ≡ true
    pub in_group : contains event "group_id" ≡ true
    pub from_user : get_number (at event "user_id") ≡ some user
    pub from_group : get_number (at event "group_id") ≡ some group
    pub says : get_string (at event "message") ≡ some message

  event_process-group :
      (event : Json) (group user : ℕ) (message : Bytes) (b b' b'' : ApiBot lib)
      → IsGroupMessage event group user message
      → feed_in lib group user event b ≡ ok b'
      → feed_from lib user event b' ≡ ok b''
      → event_process lib event b ≡ ok (true, b'')
  unfolding event_process feed_event
  event_process-group event group user message b b' b'' e fed fed' =
      rw (e.no_answer, e.has_message, e.from_user, e.in_group)
        (rw e.from_group (rw fed (rw fed' refl)))

  feed_message-last :
      (group user : ℕ) (message : Bytes) (expired : List ℕ) (users : List (ℕ × List ℕ)) (p : ℕ)
      (b : ApiBot lib)
      → member user (or_empty (lookup group b.someone_group_message_mutex)) ≡ true
      → lookup group b.someone_group_message ≡ some users
      → lookup user users ≡ some (expired ++ p ∷ [])
      → all (λ q. not (b.alive q)) expired ≡ true
      → b.alive p ≡ true
      → feed_message lib group user message b
        ≡ ok (record (set_value lib p (Answer.text message) b) {
          someone_group_message = put_left group user [] b.someone_group_message;
        })
  unfolding feed_message give
  feed_message-last group user message expired users p b guarded g u gone here =
      rw (guarded, g) (rw u (rw (pop_alive-last b.alive p expired gone here) refl))

  -- The coroutine that has just begun to wait, in the state before it.
  abbrev pub waiting : ℕ → ℕ → ApiBot lib → ApiBot lib
  waiting group user b = (wait_in lib group user b).0

  feed_in-needed :
      (group user : ℕ) (event : Json) (message : Bytes) (b : ApiBot lib)
      → IsGroupMessage event group user message
      → is_need_message lib group user b ≡ true
      → feed_in lib group user event b ≡ feed_message lib group user message b
  unfolding feed_in
  feed_in-needed group user event message b e need = rw need (rw e.says refl)

  -- The first message that is fed after the wait
  pub feed_message-waiting :
      (group user : ℕ) (message : Bytes) (b : ApiBot lib)
      → all (λ q. not (b.alive q) && ltb q b.next) (group_queue group user b.someone_group_message)
        ≡ true
      → (b' : ApiBot lib) × (is_need_message lib group user (waiting group user b) ≡ true)
        × (feed_message lib group user message (waiting group user b) ≡ ok b')
        × (b'.value b.next ≡ some (Answer.text message))
        × (is_need_message lib group user b' ≡ false)
        × (b'.someone_need_message ≡ b.someone_need_message)
  unfolding wait_in make_promise is_need_message set_value
  feed_message-waiting group user message b gone =
      let w = waiting group user b in
      let queue = group_queue group user b.someone_group_message in
      let users =
        insert user (queue ++ b.next ∷ []) (or_empty (lookup group b.someone_group_message)) in
      let g : lookup group w.someone_group_message ≡ some users =
        lookup-insert_self group users b.someone_group_message in
      let u : lookup user users ≡ some (queue ++ b.next ∷ []) = lookup-insert_self user _ _ in
      let locks = emplace user (or_empty (lookup group b.someone_group_message_mutex)) in
      let guarded : member user (or_empty (lookup group w.someone_group_message_mutex)) ≡ true =
        ap (λ o. member user (or_empty o))
          (lookup-insert_self group locks b.someone_group_message_mutex)
        ∙ member-emplace user user (or_empty (lookup group b.someone_group_message_mutex))
        ∙ ap (λ x. x || member user (or_empty (lookup group b.someone_group_message_mutex)))
            ((nat_beq_iff user user).1 refl) in
      let need : is_need_message lib group user w ≡ true =
        ap (λ o. is_some (lookup user (or_empty o))) g ∙ ap is_some u in
      let here : w.alive b.next ≡ true = ground (arith, nat_beq_iff b.next b.next) in
      let fed =
        feed_message-last group user message queue users b.next w guarded g u
          (still_expired b.alive b.next queue gone) here in
      (
        record (set_value lib b.next (Answer.text message) w) {
          someone_group_message = put_left group user [] w.someone_group_message;
        },
        need,
        fed,
        ground (arith, nat_beq_iff b.next b.next),
        need-put_left group user w.someone_group_message,
        refl,
      )

  feed_in-waiting :
      (group user : ℕ) (event : Json) (message : Bytes) (b : ApiBot lib)
      → IsGroupMessage event group user message
      → all (λ q. not (b.alive q) && ltb q b.next) (group_queue group user b.someone_group_message)
        ≡ true
      → (b' : ApiBot lib) × (feed_in lib group user event (waiting group user b) ≡ ok b')
        × (b'.value b.next ≡ some (Answer.text message))
        × (is_need_message lib group user b' ≡ false)
        × (b'.someone_need_message ≡ b.someone_need_message)
  feed_in-waiting group user event message b e gone =
      let (b', need, fed, got, over, same) = feed_message-waiting group user message b gone in
      (
        b',
        feed_in-needed group user event message (waiting group user b) e need ∙ fed,
        got,
        over,
        same,
      )

  -- A coroutine waits for the next message of a member of a group for whom nobody else waits any
  -- more, neither in the group nor anywhere. If that member's message then comes in the group, and
  -- no other frame at the same time, it is processed without a fault and passed on to the event
  -- handler, the coroutine gets its text, and the session is over: no queue is left for the member.
  pub wait_then_message :
      (group user : ℕ) (event : Json) (message : Bytes) (b : ApiBot lib)
      → IsGroupMessage event group user message
      → all (λ q. not (b.alive q) && ltb q b.next) (group_queue group user b.someone_group_message)
        ≡ true
      → is_some_one_need_message lib user b ≡ false
      → (b' : ApiBot lib) × (event_process lib event (wait_in lib group user b).0 ≡ ok (true, b'))
        × ((finish lib Reply.text (wait_in lib group user b).1 b').1 ≡ Answer.text message)
        × (is_need_message lib group user b' ≡ false)
  unfolding feed_from wait_in make_promise finish is_some_one_need_message
  wait_then_message group user event message b e gone alone =
      let (b', fed, got, over, same) = feed_in-waiting group user event message b e gone in
      let unneeded : is_some_one_need_message lib user b' ≡ false =
        ap (λ m. is_some (lookup user m)) same ∙ alone in
      (
        b',
        event_process-group event group user message (waiting group user b) b' b' e fed
            (rw unneeded refl),
        rw (got, finish) refl,
        over,
      )
