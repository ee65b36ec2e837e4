-- ===== src/ApiBot/Sessions.antt =====
-- source/bot/onebot_11/api_bot.h and future_wrapper.h: the coroutines that wait for the next message
-- of a user. Each mutex makes the code under it one step.
use migang_bot_cpp.Base.{
  ℕ, Bool, false, Option, none, some, List, [], ◌∷◌, ◌++◌, Bytes, nat_eq, lookup, insert, erase,
  member, emplace, is_some, is_empty, if◌then◌else◌, Result, ok, fault, Fault, or_fault, ◌>>=◌,
}
use migang_bot_cpp.Json.{JsonLib, number_at}
use migang_bot_cpp.ApiBot.{ApiBot, GroupQueues, Reply, Answer}
use migang_bot_cpp.ApiBot.Values.{default_value}
use migang_bot_cpp.ApiBot.Calls.{update, make_promise, set_value}

abbrev pub or_empty {ℓ} : {A : Type ℓ} → Option (List A) → List A
or_empty none = []
or_empty (some xs) = xs

-- The queue of a member of a group: empty if there is none.
abbrev pub group_queue : ℕ → ℕ → GroupQueues → List ℕ
group_queue group user m = or_empty (lookup user (or_empty (lookup group m)))

-- `m[group][user] = queue`
abbrev pub put_group : ℕ → ℕ → List ℕ → GroupQueues → GroupQueues
put_group group user queue m = insert group (insert user queue (or_empty (lookup group m))) m

-- The loop of the two `Feed…` functions: expired promises leave the queue until one is found that
-- somebody still waits on.
unfoldable pub pop_alive : (ℕ → Bool) → List ℕ → Option ℕ × List ℕ
pop_alive alive [] = (none, [])
pop_alive alive (p ∷ ps) = let rest = pop_alive alive ps in if alive p then (some p, ps) else rest

-- The two erasures at the end of `FeedMessage`: of an empty queue, and of a group without queues.
unfoldable pub put_left : ℕ → ℕ → List ℕ → GroupQueues → GroupQueues
put_left group user left m =
    if is_empty left
    then (let users = erase user (or_empty (lookup group m)) in
        if is_empty users then erase group m else insert group users m)
    else put_group group user left m

module _ (lib : JsonLib) where
  open lib use {Json, contains}

  -- `shared_p->set_value(message)` if a promise was found
  unfoldable pub give : Option ℕ → Bytes → ApiBot lib → ApiBot lib
  unfolding set_value
  give none message b = b
  give (some p) message b = set_value lib p (Answer.text message) b

  unfoldable pub wait_in : ℕ → ℕ → ApiBot lib → ApiBot lib × ℕ
  unfolding make_promise
  wait_in group user b =
      let (b', p) = make_promise lib b in
      (
        record b' {
          someone_group_message_mutex =
              insert group (emplace user (or_empty (lookup group b'.someone_group_message_mutex)))
                b'.someone_group_message_mutex;
          someone_group_message =
              put_group group user (group_queue group user b'.someone_group_message ++ p ∷ [])
                b'.someone_group_message;
        },
        p,
      )

  -- `WaitForNextMessage` up to the wait
  unfoldable pub wait_for_next_message : Json → ApiBot lib → Result (ApiBot lib × ℕ)
  unfolding wait_in
  wait_for_next_message event b = do
    user_id ← number_at lib event "user_id"
    if contains event "group_id"
        then (do group_id ← number_at lib event "group_id"; ok (wait_in group_id user_id b))
        else ok (wait_in 0 user_id b)

  -- `WaitForNextMessageFrom` up to the wait
  unfoldable pub wait_for_next_message_from : ℕ → ApiBot lib → ApiBot lib × ℕ
  unfolding make_promise
  wait_for_next_message_from person b =
      let (b', p) = make_promise lib b in
      (
        record b' {
          someone_need_message_mutex = emplace person b'.someone_need_message_mutex;
          someone_need_message =
              insert person (or_empty (lookup person b'.someone_need_message) ++ p ∷ [])
                b'.someone_need_message;
        },
        p,
      )

  -- `CoFutureWrapper::get`, once it wakes: the value, or the default if there is none in time. The
  -- wrapper, and the promise with it, is then destroyed.
  unfoldable pub finish : Reply → ℕ → ApiBot lib → ApiBot lib × Answer
  finish kind p b = (
    record b { alive = update b.alive p false },
    elim (b.value p) [ some a ↦ a | none ↦ default_value kind ],
  )

  -- `IsSomeOneNeedMessage`
  unfoldable pub is_some_one_need_message : ℕ → ApiBot lib → Bool
  is_some_one_need_message user_id b = is_some (lookup user_id b.someone_need_message)

  -- `IsNeedMessage`
  unfoldable pub is_need_message : ℕ → ℕ → ApiBot lib → Bool
  is_need_message group_id user_id b =
      is_some (lookup user_id (or_empty (lookup group_id b.someone_group_message)))

  -- `FeedMessageTo`
  unfoldable pub feed_message_to : ℕ → Bytes → ApiBot lib → Result (ApiBot lib)
  unfolding pop_alive give
  feed_message_to user_id message b =
      if member user_id b.someone_need_message_mutex
      then (do
        queue ← or_fault (lookup user_id b.someone_need_message) Fault.out_of_range
        let (found, left) = pop_alive b.alive queue
        let m = b.someone_need_message
        ok (record (give found message b) {
          someone_need_message = if is_empty left then erase user_id m else insert user_id left m;
        }))
      else fault Fault.out_of_range

  -- `FeedMessage`
  unfoldable pub feed_message : ℕ → ℕ → Bytes → ApiBot lib → Result (ApiBot lib)
  unfolding pop_alive give put_left
  feed_message group_id user_id message b =
      if member user_id (or_empty (lookup group_id b.someone_group_message_mutex))
      then (do
        users ← or_fault (lookup group_id b.someone_group_message) Fault.out_of_range
        queue ← or_fault (lookup user_id users) Fault.out_of_range
        let (found, left) = pop_alive b.alive queue
        ok (record (give found message b) {
          someone_group_message = put_left group_id user_id left b.someone_group_message;
        }))
      else fault Fault.out_of_range
