-- ===== src/ApiBot/Answers.antt =====
-- source/bot/onebot_11/api_bot.h and source/bot/bot.h: a call and the answer that carries its code.
use migang_bot_cpp.Base.{
  ℕ, ◌≡◌, refl, ap, ◌∙◌, true, false, none, some, List, [], ◌∷◌, ◌++◌, Bytes, String, codes,
  bytes_beq, arith, nat_beq_iff, nat_eq, lookup, erase, lookup-insert_self, lookup-erase_self, Bool,
  ok,
}
use migang_bot_cpp.Json.{JsonLib, value_string}
use migang_bot_cpp.Api.Call.{IsCall, call_api-IsCall}
use migang_bot_cpp.Api.Messages as Messages
use migang_bot_cpp.ApiBot.{ApiBot, Reply, Answer}
use migang_bot_cpp.ApiBot.Values.{desired_value}
use migang_bot_cpp.ApiBot.Calls.{
  make_promise, set_value, run_echo, send_raw_for, send_group_msg, at_message, send,
}
use migang_bot_cpp.ApiBot.Process.{take_answer, event_process}

module _ (lib : JsonLib) where
  open lib use {Json, put, at, contains, is_null, of_number, of_string, of_bool, get_number, at-put}

  -- The frame is an answer that carries that code and these data.
  pub record IsAnswer (event : Json) (code : ℕ) (content : Json) : Type 0 where
    pub returns : contains event "retcode" ≡ true
    pub has_echo : contains event "echo" ≡ true
    pub has_code : get_number (at event "echo") ≡ some code
    pub holds : at event "data" ≡ content

  run_echo-desired :
      (p : ℕ) (kind : Reply) (content : Json) (a : Answer) (b : ApiBot lib)
      → b.alive p ≡ true
      → is_null content ≡ false
      → desired_value lib kind content ≡ ok a
      → run_echo lib p kind content b ≡ set_value lib p a b
  unfolding run_echo
  run_echo-desired p kind content a b here given wanted =
      rw here (rw given (rw (wanted, run_echo) refl))

  take_answer-known :
      (code p : ℕ) (kind : Reply) (event content : Json) (b : ApiBot lib)
      → lookup code b.echo_function ≡ some (p, kind)
      → at event "data" ≡ content
      → let b' = run_echo lib p kind content b in
        take_answer lib code event b ≡ record b' { echo_function = erase code b'.echo_function }
  unfolding take_answer
  take_answer-known code p kind event content b known holds =
      rw (known, take_answer) (rw holds refl)

  -- After a call whose answer is awaited, the answer with its code is taken and not passed on: the
  -- coroutine gets the value that the answer holds, and the code is free again.
  pub call_answered :
      (code : ℕ) (kind : Reply) (msg event content : Json) (a : Answer) (b : ApiBot lib)
      → IsAnswer event code content
      → is_null content ≡ false
      → desired_value lib kind content ≡ ok a
      → let (called, p) = send_raw_for lib code kind msg b in
        (b' : ApiBot lib) × (event_process lib event called ≡ ok (false, b'))
        × (b'.value p ≡ some a)
        × (lookup code b'.echo_function ≡ none)
  unfolding event_process send_raw_for make_promise set_value
  call_answered code kind msg event content a b e given wanted =
      let called = (send_raw_for lib code kind msg b).0 in
      let known : lookup code called.echo_function ≡ some (b.next, kind) =
        lookup-insert_self code (b.next, kind) b.echo_function in
      let here : called.alive b.next ≡ true = ground (arith, nat_beq_iff b.next b.next) in
      let b' = set_value lib b.next a called in
      let taken =
        take_answer-known code b.next kind event content called known e.holds
        ∙ ap (λ (x : ApiBot lib). record x { echo_function = erase code x.echo_function })
            (run_echo-desired b.next kind content a called here given wanted) in
      (
        record b' { echo_function = erase code b'.echo_function },
        rw (e.returns, e.has_echo) (rw (e.has_code, taken) refl),
        ground (arith, nat_beq_iff b.next b.next),
        lookup-erase_self code called.echo_function,
      )

  abbrev pub fields_of_reply : ℕ → ℕ → Bytes → Bool → List (String × Json)
  fields_of_reply group user message auto_escape =
      ("group_id", of_number group)
      ∷ ("message", of_string (at_message user message))
      ∷ ("auto_escape", of_bool auto_escape)
      ∷ []

  IsCall-echo :
      (action : String) (fields : List (String × Json)) (msg : Json) (code : ℕ)
      → IsCall lib action fields msg
      → IsCall lib action fields (put msg "echo" (of_number code))
  IsCall-echo action fields msg code c = record {
    names = at-put msg "echo" "action" (of_number code) ∙ c.names;
    carries =
        λ k v h. ap (λ j. at j k) (at-put msg "echo" "params" (of_number code)) ∙ c.carries k v h;
  }

  -- Replying to a message of a group with a mention sends one frame more, the call of
  -- `send_group_msg` for that group with the mention of the sender before the text, and the code of
  -- the frame is the one under which the answer is awaited.
  pub send-mention :
      (code group user : ℕ) (event : Json) (message : Bytes) (auto_escape : Bool) (b : ApiBot lib)
      → value_string lib event "message_type" (codes "private") ≡ ok (codes "group")
      → get_number (at event "group_id") ≡ some group
      → get_number (at event "user_id") ≡ some user
      → (b' : ApiBot lib) × (frame : Json) × (send lib code event message true auto_escape b
          ≡ ok (b', b.next))
        × (b'.sent ≡ b.sent ++ frame ∷ [])
        × IsCall lib "send_group_msg" (fields_of_reply group user message auto_escape) frame
        × (at frame "echo" ≡ of_number code)
        × (lookup code b'.echo_function ≡ some (b.next, Reply.message_id))
  unfolding send bytes_beq Messages.send_group_msg
  send-mention code group user event message auto_escape b t g u = (
    (send_group_msg lib code group (at_message user message) auto_escape b).0,
    put (Messages.send_group_msg lib group (at_message user message) auto_escape) "echo"
        (of_number code),
    rw t (rw g (rw u refl)),
    refl,
    IsCall-echo "send_group_msg" (fields_of_reply group user message auto_escape) _ code
        (call_api-IsCall lib "send_group_msg" (fields_of_reply group user message auto_escape)),
    at-put _ "echo" "echo" (of_number code),
    lookup-insert_self code (b.next, Reply.message_id) b.echo_function,
  )
