-- ===== src/ApiBot/Tests.antt =====
-- source/bot: a session and a call on concrete frames.
use migang_bot_cpp.Base.{
  ◌≡◌, refl, true, false, none, some, [], ◌∷◌, ◌++◌, codes, nat_eq, lookup, ok, fault, Fault, ◌⊎◌,
}
use migang_bot_cpp.Json.Example.{Value, text, number, object_of, example_lib}
use migang_bot_cpp.ApiBot.{ApiBot, Reply, Answer}
use migang_bot_cpp.ApiBot.Values.{desired_value}
use migang_bot_cpp.ApiBot.Calls.{send, send_raw_for}
use migang_bot_cpp.ApiBot.Sessions.{
  wait_in, finish, is_need_message, is_some_one_need_message, feed_message, feed_message_to,
}
use migang_bot_cpp.ApiBot.Process.{event_process}
use migang_bot_cpp.ApiBot.Life.{waits_in, Reachable, starts, goes_on, feed_message-throws}
use migang_bot_cpp.ApiBot.Races.{feed_message-twice}
use migang_bot_cpp.Api.Call.{IsCall}
use migang_bot_cpp.ApiBot.Answers.{IsAnswer, fields_of_reply, call_answered, send-mention}
use migang_bot_cpp.ApiBot.Delivery.{IsGroupMessage, wait_then_message}

abbrev answer : Value
answer = object_of (
    ("retcode", number 0)
    ∷ ("echo", number 5)
    ∷ ("data", object_of (("message_id", number 33) ∷ []))
    ∷ [])

-- The coroutine of promise 0 has stopped waiting.
abbrev bot : ApiBot example_lib
bot = record {
  sent = [];
  echo_function = [];
  someone_group_message = (70, (9, 0 ∷ []) ∷ []) ∷ [];
  someone_group_message_mutex = (70, 9 ∷ []) ∷ [];
  someone_need_message = [];
  someone_need_message_mutex = [];
  alive = λ p. false;
  value = λ p. none;
  next = 1;
}

abbrev group_message : Value
group_message = object_of (
    ("message_type", text (codes "group"))
    ∷ ("group_id", number 70)
    ∷ ("user_id", number 9)
    ∷ ("message", text (codes "yes"))
    ∷ [])

group_message-IsGroupMessage : IsGroupMessage example_lib group_message 70 9 (codes "yes")
group_message-IsGroupMessage = record {
  no_answer = refl;
  has_message = refl;
  in_group = refl;
  from_user = refl;
  from_group = refl;
  says = refl;
}

wait_then_message_example :
    (b' : ApiBot example_lib) × (event_process example_lib group_message
        (wait_in example_lib 70 9 bot).0
      ≡ ok (true, b'))
    × ((finish example_lib Reply.text (wait_in example_lib 70 9 bot).1 b').1
        ≡ Answer.text (codes "yes"))
    × (is_need_message example_lib 70 9 b' ≡ false)
unfolding lookup is_some_one_need_message
wait_then_message_example =
    wait_then_message example_lib 70 9 group_message (codes "yes") bot group_message-IsGroupMessage
      refl refl

answer-IsAnswer : IsAnswer example_lib answer 5 (object_of (("message_id", number 33) ∷ []))
answer-IsAnswer = record { returns = refl; has_echo = refl; has_code = refl; holds = refl }

call_answered_example :
    let (called, p) = send_raw_for example_lib 5 Reply.message_id (object_of []) bot in
    (b' : ApiBot example_lib) × (event_process example_lib answer called ≡ ok (false, b'))
    × (b'.value p ≡ some (Answer.message_id 33))
    × (lookup 5 b'.echo_function ≡ none)
unfolding desired_value
call_answered_example =
    call_answered example_lib 5 Reply.message_id (object_of []) answer
      (object_of (("message_id", number 33) ∷ [])) (Answer.message_id 33) bot answer-IsAnswer refl
      refl

send-mention_example :
    (b' : ApiBot example_lib) × (frame : Value) × (send example_lib 5 group_message
        (codes "hi")
        true
        false
        bot
      ≡ ok (b', 1))
    × (b'.sent ≡ [] ++ frame ∷ [])
    × IsCall example_lib "send_group_msg"
        (fields_of_reply example_lib 70 9 (codes "hi") false)
        frame
    × (example_lib.at frame "echo" ≡ number 5)
    × (lookup 5 b'.echo_function ≡ some (1, Reply.message_id))
send-mention_example =
    send-mention example_lib 5 70 9 group_message (codes "hi") false bot refl refl refl

-- A bot in which somebody has begun to wait.
abbrev fresh : ApiBot example_lib
fresh = record bot { someone_group_message = []; someone_group_message_mutex = [] }

abbrev waiting : ApiBot example_lib
waiting = (wait_in example_lib 70 9 fresh).0

waiting-Reachable : Reachable example_lib waiting
waiting-Reachable = goes_on fresh waiting (starts fresh refl refl) (waits_in 70 9 fresh)

feed_message-throws_example :
    (((is_need_message example_lib 70 9 waiting ≡ true)
        × ((b' : ApiBot example_lib) × (feed_message example_lib 70 9 (codes "yes") waiting ≡ ok b')
            × Reachable example_lib b'))
      ⊎ ((is_need_message example_lib 70 9 waiting ≡ false)
          × (feed_message example_lib 70 9 (codes "yes") waiting ≡ fault Fault.out_of_range)))
    × (((is_some_one_need_message example_lib 9 waiting ≡ true)
          × ((b' : ApiBot example_lib) × (feed_message_to example_lib 9 (codes "yes") waiting
                ≡ ok b')
              × Reachable example_lib b'))
        ⊎ ((is_some_one_need_message example_lib 9 waiting ≡ false)
            × (feed_message_to example_lib 9 (codes "yes") waiting ≡ fault Fault.out_of_range)))
feed_message-throws_example =
    feed_message-throws example_lib waiting 70 9 (codes "yes") waiting-Reachable

feed_message-twice_example :
    (b' : ApiBot example_lib) × (is_need_message example_lib 70 9 (wait_in example_lib 70 9 bot).0
      ≡ true)
    × (feed_message example_lib 70 9 (codes "yes") (wait_in example_lib 70 9 bot).0 ≡ ok b')
    × (feed_message example_lib 70 9 (codes "no") b' ≡ fault Fault.out_of_range)
unfolding lookup
feed_message-twice_example = feed_message-twice example_lib 70 9 (codes "yes") (codes "no") bot refl
