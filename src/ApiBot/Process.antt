-- ===== src/ApiBot/Process.antt =====
-- source/bot/bot.h: `EventProcess`, which gives answers and awaited messages to those who wait. This
-- is one frame with no other between its parts; Life has the parts as steps among those of others.
-- `EventProcess` is noexcept, so that a fault ends the process.
use migang_bot_cpp.Base.{
  ℕ, Bool, true, false, none, some, List, [], ◌∷◌, Bytes, nat_eq, lookup, erase, if◌then◌else◌,
  Result, ok, ◌>>=◌,
}
use migang_bot_cpp.Json.{JsonLib, string_at, number_at}
use migang_bot_cpp.ApiBot.{ApiBot}
use migang_bot_cpp.ApiBot.Calls.{run_echo, send_private_msg}
use migang_bot_cpp.ApiBot.Sessions.{
  is_need_message, is_some_one_need_message, feed_message, feed_message_to,
}

module _ (lib : JsonLib) where
  open lib use {Json, contains, at}

  -- The answer to the call of that code
  unfoldable pub take_answer : ℕ → Json → ApiBot lib → ApiBot lib
  unfolding run_echo
  take_answer code event b = elim (lookup code b.echo_function) [
    | none ↦ b
    | some (p, kind) ↦
        let b' = run_echo lib p kind (at event "data") b in
        record b' { echo_function = erase code b'.echo_function }
  ]

  -- `if (IsNeedMessage(…)) FeedMessage(…)`
  unfoldable pub feed_in : ℕ → ℕ → Json → ApiBot lib → Result (ApiBot lib)
  unfolding is_need_message feed_message
  feed_in group user event b =
      if is_need_message lib group user b
      then (do message ← string_at lib event "message"; feed_message lib group user message b)
      else ok b

  unfoldable pub feed_from : ℕ → Json → ApiBot lib → Result (ApiBot lib)
  unfolding is_some_one_need_message feed_message_to
  feed_from user event b =
      if is_some_one_need_message lib user b
      then (do message ← string_at lib event "message"; feed_message_to lib user message b)
      else ok b

  -- The part on a message
  unfoldable pub feed_event : Json → ApiBot lib → Result (ApiBot lib)
  unfolding feed_in feed_from
  feed_event event b = do
    user_id ← number_at lib event "user_id"
    group_id ← (if contains event "group_id" then number_at lib event "group_id" else ok 0)
    b' ← feed_in group_id user_id event b
    feed_from user_id event b'

  -- `EventProcess`: whether the event is to be handled, and the state after it.
  unfoldable pub event_process : Json → ApiBot lib → Result (Bool × ApiBot lib)
  unfolding take_answer feed_event
  event_process event b =
      if contains event "retcode"
      then (do
        code ← (if contains event "echo" then number_at lib event "echo" else ok 0)
        ok (false, take_answer code event b))
      else if contains event "message"
      then (do b' ← feed_event event b; ok (true, b'))
      else ok (true, b)

  -- `OnRun`: a message to each superuser.
  unfoldable pub greet : List (ℕ × ℕ) → Bytes → ApiBot lib → ApiBot lib
  unfolding send_private_msg
  greet [] text b = b
  greet ((code, superuser) ∷ rest) text b =
      greet rest text (send_private_msg lib code superuser text false b).0
