-- ===== src/ApiBot/Waiting.antt =====
-- source/bot/onebot_11/api_bot.h: the sessions over the life of a bot: whoever has a queue has a mutex,
-- and feeding somebody who has a queue keeps that so.
use migang_bot_cpp.Base.{
  ℕ, ◌≡◌, refl, sym, ap, ◌∙◌, true, ◌||◌, Option, none, some, List, [], ◌∷◌, ◌++◌, Bytes, nat_eq,
  nat_beq, nat_beq_iff, lookup, insert, erase, member, is_some, is_empty, lookup-erase,
  member-emplace, Option-cases, Bool-cases, inl, inr, ok, arith, if◌then◌else◌, subst,
}
use migang_bot_cpp.Json.{JsonLib}
use migang_bot_cpp.ApiBot.{ApiBot}
use migang_bot_cpp.ApiBot.Calls.{make_promise, set_value}
use migang_bot_cpp.ApiBot.Queues.{
  has_queue, has_mutex, is_pair, has_queue-put, has_mutex-put, has_queue-left, is_some-insert,
  with_mutex, covered_by,
}
use migang_bot_cpp.ApiBot.Sessions.{
  or_empty, group_queue, put_left, pop_alive, give, wait_in, wait_for_next_message_from,
  is_need_message, is_some_one_need_message, feed_message, feed_message_to,
}

module _ (lib : JsonLib) where
  -- Whoever has a queue has a mutex.
  pub record IsSafe (b : ApiBot lib) : Type 0 where
    pub in_groups :
        (g u : ℕ)
        → has_queue g u b.someone_group_message ≡ true
        → has_mutex g u b.someone_group_message_mutex ≡ true
    pub in_private :
        (u : ℕ)
        → is_some (lookup u b.someone_need_message) ≡ true
        → member u b.someone_need_message_mutex ≡ true

  pub wait_in-IsSafe :
      (group user : ℕ) (b : ApiBot lib) → IsSafe b → IsSafe (wait_in lib group user b).0
  unfolding wait_in make_promise
  wait_in-IsSafe group user b safe = record {
    in_groups = λ g u.
        with_mutex (is_pair group user g u) _ _ _ _
          (has_queue-put group user g u
            (group_queue group user b.someone_group_message ++ b.next ∷ []) b.someone_group_message)
          (has_mutex-put group user g u b.someone_group_message_mutex) (safe.in_groups g u);
    in_private = safe.in_private;
  }

  pub wait_for_next_message_from-IsSafe :
      (person : ℕ) (b : ApiBot lib) → IsSafe b → IsSafe (wait_for_next_message_from lib person b).0
  unfolding wait_for_next_message_from make_promise
  wait_for_next_message_from-IsSafe person b safe = record {
    in_groups = safe.in_groups;
    in_private = λ u.
        with_mutex (nat_beq person u) _ _ _ _
          (is_some-insert person u (or_empty (lookup person b.someone_need_message) ++ b.next ∷ [])
            b.someone_need_message)
          (member-emplace person u b.someone_need_message_mutex) (safe.in_private u);
  }

  give-IsSafe :
      (found : Option ℕ) (message : Bytes) (b : ApiBot lib)
      → IsSafe b
      → IsSafe (give lib found message b)
  unfolding give set_value
  give-IsSafe none message b safe = safe
  give-IsSafe (some p) message b safe = record {
    in_groups = safe.in_groups;
    in_private = safe.in_private;
  }

  -- What feeding a queue leaves, of a group and in private.
  abbrev fed : ℕ → ℕ → List ℕ → Bytes → ApiBot lib → ApiBot lib
  fed group user queue message b = record (give lib (pop_alive b.alive queue).0 message b) {
    someone_group_message = put_left group user (pop_alive b.alive queue).1 b.someone_group_message;
  }

  abbrev fed_to : ℕ → List ℕ → Bytes → ApiBot lib → ApiBot lib
  fed_to user queue message b =
      let left = (pop_alive b.alive queue).1 in
      let m = b.someone_need_message in
      record (give lib (pop_alive b.alive queue).0 message b) {
        someone_need_message = if is_empty left then erase user m else insert user left m;
      }

  give-mutex :
      (found : Option ℕ) (message : Bytes) (b : ApiBot lib)
      → (give lib found message b).someone_group_message_mutex ≡ b.someone_group_message_mutex
  unfolding give set_value
  give-mutex none message b = refl
  give-mutex (some p) message b = refl

  give-need_mutex :
      (found : Option ℕ) (message : Bytes) (b : ApiBot lib)
      → (give lib found message b).someone_need_message_mutex ≡ b.someone_need_message_mutex
  unfolding give set_value
  give-need_mutex none message b = refl
  give-need_mutex (some p) message b = refl

  fed-IsSafe :
      (group user : ℕ) (queue : List ℕ) (message : Bytes) (b : ApiBot lib)
      → has_mutex group user b.someone_group_message_mutex ≡ true
      → IsSafe b
      → IsSafe (fed group user queue message b)
  fed-IsSafe group user queue message b known safe =
      let found = (pop_alive b.alive queue).0 in
      record {
        in_groups = λ g u queued.
            ap (has_mutex g u) (give-mutex found message b)
            ∙ covered_by group user g u b.someone_group_message b.someone_group_message_mutex known
                (safe.in_groups g u)
                (has_queue-left group user g u _ b.someone_group_message queued);
        in_private = (give-IsSafe found message b safe).in_private;
      }

  same_user : (user u : ℕ) → nat_beq user u ≡ true → user ≡ u
  same_user user u same = ground (arith, nat_beq_iff user u, same)

  some-erase :
      (k u : ℕ) (m : List (ℕ × List ℕ))
      → is_some (lookup u (erase k m)) ≡ true
      → is_some (lookup u m) ≡ true
  some-erase k u m queued = ground (arith, lookup-erase k u m, queued)

  user_known :
      (user u : ℕ) (queue : List ℕ) (m : List (ℕ × List ℕ)) (mutexes : List ℕ)
      → member user mutexes ≡ true
      → (is_some (lookup u m) ≡ true → member u mutexes ≡ true)
      → is_some (lookup u (insert user queue m)) ≡ true
      → member u mutexes ≡ true
  user_known user u queue m mutexes known safe queued = elim (Bool-cases (nat_beq user u)) [
    | inl same ↦ subst (λ x. member x mutexes ≡ true) (same_user user u same) known
    | inr other ↦ safe (
        subst (λ x. x || is_some (lookup u m) ≡ true) other
          (sym (is_some-insert user u queue m) ∙ queued))
  ]

  still_known :
      (user : ℕ) (queue : List ℕ) (u : ℕ) (b : ApiBot lib)
      → IsSafe b
      → member user b.someone_need_message_mutex ≡ true
      → is_some (
          lookup u (
            if is_empty (pop_alive b.alive queue).1
            then erase user b.someone_need_message
            else insert user (pop_alive b.alive queue).1 b.someone_need_message))
        ≡ true
      → member u b.someone_need_message_mutex ≡ true
  still_known user queue u b safe known queued =
      let left = (pop_alive b.alive queue).1 in
      let m = b.someone_need_message in
      elim (Bool-cases (is_empty left)) [
        | inl none_left ↦ safe.in_private u (
            some-erase user u m
              (subst (λ q. is_some (lookup u q) ≡ true) (rw none_left refl) queued))
        | inr more ↦
            user_known user u left m b.someone_need_message_mutex known (safe.in_private u)
              (subst (λ q. is_some (lookup u q) ≡ true) (rw more refl) queued)
      ]

  fed_to-IsSafe :
      (user : ℕ) (queue : List ℕ) (message : Bytes) (b : ApiBot lib)
      → IsSafe b
      → member user b.someone_need_message_mutex ≡ true
      → IsSafe (fed_to user queue message b)
  fed_to-IsSafe user queue message b safe known =
      let found = (pop_alive b.alive queue).0 in
      record {
        in_groups = (give-IsSafe found message b safe).in_groups;
        in_private = λ u queued.
            ap (member u) (give-need_mutex found message b)
            ∙ still_known user queue u b safe known queued;
      }

  -- Feeding a message to somebody who has a queue
  pub feed_message_lem :
      (group user : ℕ) (message : Bytes) (b : ApiBot lib)
      → IsSafe b
      → is_need_message lib group user b ≡ true
      → (b' : ApiBot lib) × (feed_message lib group user message b ≡ ok b') × IsSafe b'
  unfolding feed_message is_need_message lookup
  feed_message_lem group user message b safe needed =
      let known = safe.in_groups group user needed in
      elim (Option-cases (lookup group b.someone_group_message)) [
        | inl nobody ↦ ground (arith, nobody, needed)
        | inr (users, here) ↦ elim (Option-cases (lookup user users)) [
          | inl absent ↦ ground (arith, here, absent, needed)
          | inr (queue, there) ↦ (
            fed group user queue message b,
            rw known (rw here (rw there refl)),
            fed-IsSafe group user queue message b known safe,
          )
        ]
      ]

  pub feed_message_to_lem :
      (user : ℕ) (message : Bytes) (b : ApiBot lib)
      → IsSafe b
      → is_some_one_need_message lib user b ≡ true
      → (b' : ApiBot lib) × (feed_message_to lib user message b ≡ ok b') × IsSafe b'
  unfolding feed_message_to is_some_one_need_message
  feed_message_to_lem user message b safe needed =
      let known = safe.in_private user needed in
      elim (Option-cases (lookup user b.someone_need_message)) [
        | inl absent ↦ ground (arith, absent, needed)
        | inr (queue, there) ↦ (
          fed_to user queue message b,
          rw known (rw there refl),
          fed_to-IsSafe user queue message b safe known,
        )
      ]
