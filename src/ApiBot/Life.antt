-- ===== src/ApiBot/Life.antt =====
-- source/bot/bot.h and source/bot/onebot_11/api_bot.h: the life of a bot, with coroutines that call
-- and wait, and frames that come in, each in a coroutine of its own (source/server.h). A step is what
-- one of them does between two points where others may run: in `EventProcess` the test of a queue
-- takes no lock and changes nothing, and the feeding under the mutex comes at any later time, so it is
-- a step in every state. Accesses of one table under the mutexes of different members, which C++
-- leaves undefined, are taken as happening one after the other.
use migang_bot_cpp.Base.{
  ℕ, ◌≡◌, refl, sym, ap, ◌∙◌, ◌⊎◌, true, false, [], Bytes, nat_eq, lookup, insert, emplace,
  Option-cases, Bool-cases, inl, inr, Result, ok, ok_inj, fault, Fault, is_some, member, erase,
  arith, subst, member-emplace,
}
use migang_bot_cpp.Json.{JsonLib}
use migang_bot_cpp.ApiBot.{ApiBot, Reply, Answer}
use migang_bot_cpp.ApiBot.Calls.{send_raw, echo, make_promise, run_echo, set_value}
use migang_bot_cpp.ApiBot.Values.{desired_value, default_value}
use migang_bot_cpp.ApiBot.Sessions.{
  or_empty, wait_in, wait_for_next_message_from, finish, is_need_message, is_some_one_need_message,
  feed_message, feed_message_to,
}
use migang_bot_cpp.ApiBot.Queues.{has_queue, has_mutex, has_mutex-put, or_right, is_pair}
use migang_bot_cpp.ApiBot.Waiting.{
  IsSafe, wait_in-IsSafe, wait_for_next_message_from-IsSafe, feed_message_lem, feed_message_to_lem,
}

module _ (lib : JsonLib) where
  open lib use {Json}

  -- `someone_group_message_mutex_[group][user]` and `someone_need_message_mutex_[person]`, before the
  -- lock is taken.
  abbrev pub touch_mutex : ℕ → ℕ → ApiBot lib → ApiBot lib
  touch_mutex group user b = record b {
    someone_group_message_mutex =
        insert group (emplace user (or_empty (lookup group b.someone_group_message_mutex)))
          b.someone_group_message_mutex;
  }

  abbrev pub touch_mutex_of : ℕ → ApiBot lib → ApiBot lib
  touch_mutex_of person b = record b {
    someone_need_message_mutex = emplace person b.someone_need_message_mutex;
  }

  -- What may happen to a bot. An answer is given to its promise, and the entry of its code erased
  -- later.
  pub data Step : ApiBot lib → ApiBot lib → Type 0 where
    sends : (msg : Json) (b : ApiBot lib) → Step b (send_raw lib msg b)
    calls :
        (code : ℕ) (kind : Reply) (msg : Json) (b : ApiBot lib)
        → Step b (echo lib code kind msg b).0
    locks_in : (group user : ℕ) (b : ApiBot lib) → Step b (touch_mutex group user b)
    waits_in : (group user : ℕ) (b : ApiBot lib) → Step b (wait_in lib group user b).0
    locks_from : (person : ℕ) (b : ApiBot lib) → Step b (touch_mutex_of person b)
    waits_from : (person : ℕ) (b : ApiBot lib) → Step b (wait_for_next_message_from lib person b).0
    finishes : (kind : Reply) (p : ℕ) (b : ApiBot lib) → Step b (finish lib kind p b).0
    answered :
        (p : ℕ) (kind : Reply) (value : Json) (b : ApiBot lib)
        → Step b (run_echo lib p kind value b)
    forgets :
        (code : ℕ) (b : ApiBot lib)
        → Step b (record b { echo_function = erase code b.echo_function })
    feeds :
        (group user : ℕ) (message : Bytes) (b b' : ApiBot lib)
        → feed_message lib group user message b ≡ ok b'
        → Step b b'
    feeds_to :
        (user : ℕ) (message : Bytes) (b b' : ApiBot lib)
        → feed_message_to lib user message b ≡ ok b'
        → Step b b'

  -- The states that a bot without sessions comes to.
  pub data Reachable : ApiBot lib → Type 0 where
    starts :
        (b : ApiBot lib) → b.someone_group_message ≡ [] → b.someone_need_message ≡ [] → Reachable b
    goes_on : (b b' : ApiBot lib) → Reachable b → Step b b' → Reachable b'

  same-IsSafe :
      (b b' : ApiBot lib)
      → b'.someone_group_message ≡ b.someone_group_message
      → b'.someone_group_message_mutex ≡ b.someone_group_message_mutex
      → b'.someone_need_message ≡ b.someone_need_message
      → b'.someone_need_message_mutex ≡ b.someone_need_message_mutex
      → IsSafe lib b
      → IsSafe lib b'
  same-IsSafe b b' q m q' m' safe = record {
    in_groups = λ g u queued.
        ap (has_mutex g u) m ∙ safe.in_groups g u (sym (ap (has_queue g u) q) ∙ queued);
    in_private = λ u queued.
        ap (member u) m' ∙ safe.in_private u (sym (ap (λ x. is_some (lookup u x)) q') ∙ queued);
  }

  set_value-IsSafe :
      (p : ℕ) (a : Answer) (b : ApiBot lib) → IsSafe lib b → IsSafe lib (set_value lib p a b)
  unfolding set_value
  set_value-IsSafe p a b safe = same-IsSafe b (set_value lib p a b) refl refl refl refl safe

  set_desired :
      (p : ℕ) (b : ApiBot lib) (desired : Result Answer)
      → IsSafe lib b
      → IsSafe lib (elim desired [ ok a ↦ set_value lib p a b | fault e ↦ b ])
  set_desired p b (ok a) safe = set_value-IsSafe p a b safe
  set_desired p b (fault e) safe = safe

  run_echo-IsSafe :
      (p : ℕ) (kind : Reply) (value : Json) (b : ApiBot lib)
      → IsSafe lib b
      → IsSafe lib (run_echo lib p kind value b)
  unfolding run_echo set_value
  run_echo-IsSafe p kind value b safe = elim (Bool-cases (b.alive p)) [
    | inr expired ↦ rw expired safe
    | inl here ↦ elim (Bool-cases (lib.is_null value)) [
      | inl nothing ↦ rw (here, nothing) (set_value-IsSafe p (default_value kind) b safe)
      | inr something ↦ rw (here, something) (set_desired p b (desired_value lib kind value) safe)
    ]
  ]

  pub no_queue :
      (group user : ℕ) (message : Bytes) (b : ApiBot lib)
      → is_need_message lib group user b ≡ false
      → feed_message lib group user message b ≡ fault Fault.out_of_range
  unfolding feed_message is_need_message lookup
  no_queue group user message b nobody =
      elim (Bool-cases (has_mutex group user b.someone_group_message_mutex)) [
        | inr unknown ↦ rw unknown refl
        | inl known ↦ elim (Option-cases (lookup group b.someone_group_message)) [
          | inl no_group ↦ rw known (rw no_group refl)
          | inr (users, here) ↦ elim (Option-cases (lookup user users)) [
            | inl absent ↦ rw known (rw here (rw absent refl))
            | inr (queue, there) ↦ ground (arith, here, there, nobody)
          ]
        ]
      ]

  no_queue_of :
      (user : ℕ) (message : Bytes) (b : ApiBot lib)
      → is_some_one_need_message lib user b ≡ false
      → feed_message_to lib user message b ≡ fault Fault.out_of_range
  unfolding feed_message_to is_some_one_need_message
  no_queue_of user message b nobody = elim (Bool-cases (member user b.someone_need_message_mutex)) [
    | inr unknown ↦ rw unknown refl
    | inl known ↦ elim (Option-cases (lookup user b.someone_need_message)) [
      | inl absent ↦ rw known (rw absent refl)
      | inr (queue, there) ↦ ground (arith, there, nobody)
    ]
  ]

  touch_mutex-IsSafe :
      (group user : ℕ) (b : ApiBot lib) → IsSafe lib b → IsSafe lib (touch_mutex group user b)
  touch_mutex-IsSafe group user b safe = record {
    in_groups = λ g u queued.
        has_mutex-put group user g u b.someone_group_message_mutex
        ∙ or_right (is_pair group user g u) (safe.in_groups g u queued);
    in_private = safe.in_private;
  }

  touch_mutex_of-IsSafe :
      (person : ℕ) (b : ApiBot lib) → IsSafe lib b → IsSafe lib (touch_mutex_of person b)
  touch_mutex_of-IsSafe person b safe = record {
    in_groups = safe.in_groups;
    in_private = λ u queued.
        member-emplace person u b.someone_need_message_mutex
        ∙ or_right _ (safe.in_private u queued);
  }

  Feeding-IsSafe :
      (group user : ℕ) (message : Bytes) (b b' : ApiBot lib)
      → feed_message lib group user message b ≡ ok b'
      → IsSafe lib b
      → IsSafe lib b'
  Feeding-IsSafe group user message b b' fed safe =
      elim (Bool-cases (is_need_message lib group user b)) [
        | inl needed ↦
            (let (b'', fed', safe') = feed_message_lem lib group user message b safe needed in
              subst (IsSafe lib) (ok_inj (sym fed' ∙ fed)) safe')
        | inr nobody ↦ (let never = sym (no_queue group user message b nobody) ∙ fed in cc)
      ]

  Feeding_of-IsSafe :
      (user : ℕ) (message : Bytes) (b b' : ApiBot lib)
      → feed_message_to lib user message b ≡ ok b'
      → IsSafe lib b
      → IsSafe lib b'
  Feeding_of-IsSafe user message b b' fed safe =
      elim (Bool-cases (is_some_one_need_message lib user b)) [
        | inl needed ↦
            (let (b'', fed', safe') = feed_message_to_lem lib user message b safe needed in
              subst (IsSafe lib) (ok_inj (sym fed' ∙ fed)) safe')
        | inr nobody ↦ (let never = sym (no_queue_of user message b nobody) ∙ fed in cc)
      ]

  Step-IsSafe : (b b' : ApiBot lib) → Step b b' → IsSafe lib b → IsSafe lib b'
  unfolding send_raw echo make_promise finish
  Step-IsSafe b b' (sends msg _) safe = same-IsSafe b b' refl refl refl refl safe
  Step-IsSafe b b' (calls code kind msg _) safe = same-IsSafe b b' refl refl refl refl safe
  Step-IsSafe b b' (locks_in group user _) safe = touch_mutex-IsSafe group user b safe
  Step-IsSafe b b' (waits_in group user _) safe = wait_in-IsSafe lib group user b safe
  Step-IsSafe b b' (locks_from person _) safe = touch_mutex_of-IsSafe person b safe
  Step-IsSafe b b' (waits_from person _) safe = wait_for_next_message_from-IsSafe lib person b safe
  Step-IsSafe b b' (finishes kind p _) safe = same-IsSafe b b' refl refl refl refl safe
  Step-IsSafe b b' (answered p kind value _) safe = run_echo-IsSafe p kind value b safe
  Step-IsSafe b b' (forgets code _) safe = same-IsSafe b b' refl refl refl refl safe
  Step-IsSafe b b' (feeds group user message _ _ fed) safe =
      Feeding-IsSafe group user message b b' fed safe
  Step-IsSafe b b' (feeds_to user message _ _ fed) safe =
      Feeding_of-IsSafe user message b b' fed safe

  Reachable-IsSafe : (b : ApiBot lib) → Reachable b → IsSafe lib b
  unfolding lookup
  Reachable-IsSafe b (starts _ no_groups nobody) = record {
    in_groups = λ g u queued. ground (arith, sym (ap (has_queue g u) no_groups) ∙ queued);
    in_private = λ u queued. ground (arith, sym (ap (λ x. is_some (lookup u x)) nobody) ∙ queued);
  }
  Reachable-IsSafe b (goes_on b' _ come step) = Step-IsSafe b' b step (Reachable-IsSafe b' come)

  -- In every state that a bot without sessions comes to, by sending, calling, waiting, waking up,
  -- taking answers and feeding messages in any order, `FeedMessage` works if the member has a queue
  -- when it runs, and leads to such a state again; it throws out_of_range if the member has none. So
  -- does `FeedMessageTo`.
  pub feed_message-throws :
      (b : ApiBot lib) (group user : ℕ) (message : Bytes)
      → Reachable b
      → (((is_need_message lib group user b ≡ true)
            × ((b' : ApiBot lib) × (feed_message lib group user message b ≡ ok b') × Reachable b'))
          ⊎ ((is_need_message lib group user b ≡ false)
              × (feed_message lib group user message b ≡ fault Fault.out_of_range)))
        × (((is_some_one_need_message lib user b ≡ true)
              × ((b' : ApiBot lib) × (feed_message_to lib user message b ≡ ok b') × Reachable b'))
            ⊎ ((is_some_one_need_message lib user b ≡ false)
                × (feed_message_to lib user message b ≡ fault Fault.out_of_range)))
  feed_message-throws b group user message come =
      let safe = Reachable-IsSafe b come in
      (
        elim (Bool-cases (is_need_message lib group user b)) [
          | inl needed ↦
              (let (b', fed, _) = feed_message_lem lib group user message b safe needed in
                inl (needed, (b', fed, goes_on b b' come (feeds group user message b b' fed))))
          | inr nobody ↦ inr (nobody, no_queue group user message b nobody)
        ],
        elim (Bool-cases (is_some_one_need_message lib user b)) [
          | inl needed ↦
              (let (b', fed, _) = feed_message_to_lem lib user message b safe needed in
                inl (needed, (b', fed, goes_on b b' come (feeds_to user message b b' fed))))
          | inr nobody ↦ inr (nobody, no_queue_of user message b nobody)
        ],
      )
