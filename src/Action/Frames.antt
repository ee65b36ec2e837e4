-- ===== src/Action/Frames.antt =====
-- What the calls of a handler send, source/bot/onebot_11/api_bot.h: calls that cannot throw send at
-- most one frame each, and none of them answers a request.
use migang_bot_cpp.Base.{
  ℕ, ◌+◌, ◌≡◌, refl, ap, ◌∙◌, sym, Bool, true, false, ◌||◌, Option, none, some, List, [], ◌∷◌, ◌++◌,
  append-nil, append_assoc, String, Bytes, codes, bytes_beq, All, All-append, ok, arith, string_eq,
  all,
}
use migang_bot_cpp.Json.{JsonLib}
use migang_bot_cpp.Api.Call.{object_of, call_api}
use migang_bot_cpp.Api.Messages as Messages
use migang_bot_cpp.Api.Groups as Groups
use migang_bot_cpp.Api.Queries as Queries
use migang_bot_cpp.ApiBot.{ApiBot}
use migang_bot_cpp.ApiBot.Calls as Calls
use migang_bot_cpp.Action.{Action, tell, perform, perform_all}

-- The calls that read nothing of the event.
abbrev pub is_plain : Action → Bool
is_plain (Action.send message at_sender auto_escape) = false
is_plain (Action.reject reason) = false
is_plain Action.approve = false
is_plain _ = true

abbrev names_answer : Option Bytes → Bool
names_answer none = false
names_answer (some n) =
    bytes_beq n (codes "set_group_add_request") || bytes_beq n (codes "set_friend_add_request")

module _ (lib : JsonLib) where
  open lib use {Json, at, put, of_number, of_string, get_string, at-put, get_string-of_string}

  -- The frame answers a request to join a group or to be a friend.
  unfoldable pub is_request_answer : Json → Bool
  is_request_answer frame = names_answer (get_string (at frame "action"))

  pub is_request_answer-named :
      (frame : Json) (name : String)
      → at frame "action" ≡ of_string (codes name)
      → is_request_answer frame ≡ names_answer (some (codes name))
  unfolding is_request_answer
  is_request_answer-named frame name named =
      ap (λ j. names_answer (get_string j)) named
      ∙ ap names_answer (get_string-of_string (codes name))

  pub echo-names :
      (name : String) (params : Json) (code : ℕ)
      → at (put (call_api lib name params) "echo" (of_number code)) "action"
        ≡ of_string (codes name)
  unfolding call_api object_of
  echo-names name params code =
      at-put _ "echo" "action" (of_number code)
      ∙ at-put _ "action" "action" (of_string (codes name))

  -- What a call adds to the frames: none of them answers a request.
  abbrev pub SendsNoAnswer : ApiBot lib → ApiBot lib → Type 0
  SendsNoAnswer b b' =
      (frames : List Json) × (b'.sent ≡ b.sent ++ frames)
      × (All (λ f. is_request_answer f ≡ false) frames)

  -- A call with an answer, which is not itself one.
  call_frame :
      (name : String) (params : Json) (code : ℕ)
      → names_answer (some (codes name)) ≡ false
      → is_request_answer (put (call_api lib name params) "echo" (of_number code)) ≡ false
  call_frame name params code other =
      is_request_answer-named _ name (echo-names name params code) ∙ other

  pub perform-plain :
      (event : Json) (a : Action) (code : ℕ) (b : ApiBot lib)
      → is_plain a ≡ true
      → (b' : ApiBot lib) × (perform lib event a code b ≡ ok b') × SendsNoAnswer b b'
  unfolding perform bytes_beq Messages.send_private_msg Messages.send_group_msg
      Groups.set_group_leave Queries.get_stranger_info Queries.get_group_info Queries.get_group_list
      Queries.get_group_member_info Calls.send_private_msg Calls.send_group_msg
      Calls.set_group_leave Calls.get_stranger_info Calls.get_group_info Calls.get_group_list
      Calls.get_group_member_info Calls.send_raw object_of call_api
  perform-plain event (Action.send message at_sender auto_escape) code b plain = cc
  perform-plain event (Action.reject reason) code b plain = cc
  perform-plain event Action.approve code b plain = cc
  perform-plain event (Action.send_private_msg user message) code b plain =
      (_, refl, (_ ∷ [], refl, (call_frame "send_private_msg" _ code refl, tt)))
  perform-plain event (Action.send_group_msg group message) code b plain =
      (_, refl, (_ ∷ [], refl, (call_frame "send_group_msg" _ code refl, tt)))
  perform-plain event (Action.set_group_leave group) code b plain = (
    _,
    refl,
    (
      _ ∷ [],
      refl,
      (
        is_request_answer-named _ "set_group_leave"
            (at-put _ "action" "action" (of_string (codes "set_group_leave"))),
        tt,
      ),
    ),
  )
  perform-plain event (Action.get_stranger_info user) code b plain =
      (_, refl, (_ ∷ [], refl, (call_frame "get_stranger_info" _ code refl, tt)))
  perform-plain event (Action.get_group_info group) code b plain =
      (_, refl, (_ ∷ [], refl, (call_frame "get_group_info" _ code refl, tt)))
  perform-plain event Action.get_group_list code b plain =
      (_, refl, (_ ∷ [], refl, (call_frame "get_group_list" _ code refl, tt)))
  perform-plain event (Action.get_group_member_info group user) code b plain =
      (_, refl, (_ ∷ [], refl, (call_frame "get_group_member_info" _ code refl, tt)))
  perform-plain event (Action.sleep ms) code b plain = (b, refl, ([], sym (append-nil b.sent), tt))

  pub perform_all-plain :
      (event : Json) (number : ℕ → ℕ) (i : ℕ) (actions : List Action) (b : ApiBot lib)
      → all is_plain actions ≡ true
      → (b' : ApiBot lib) × (perform_all lib event number i actions b ≡ ok b') × SendsNoAnswer b b'
  unfolding perform_all
  perform_all-plain event number i [] b plain = (b, refl, ([], sym (append-nil b.sent), tt))
  perform_all-plain event number i (a ∷ actions) b plain =
      let here : is_plain a ≡ true = ground (arith, plain) in
      let behind : all is_plain actions ≡ true = ground (arith, plain) in
      let (b1, now, (frames1, sent1, no1)) = perform-plain event a (number i) b here in
      let (b2, later, (frames2, sent2, no2)) =
        perform_all-plain event number (i + 1) actions b1 behind in
      (
        b2,
        rw now later,
        (
          frames1 ++ frames2,
          sent2 ∙ ap (λ fs. fs ++ frames2) sent1 ∙ append_assoc b.sent frames1 frames2,
          All-append _ frames1 frames2 no1 no2,
        ),
      )

pub tell-plain : (whites : List ℕ) (message : ℕ → Bytes) → all is_plain (tell whites message) ≡ true
unfolding tell
tell-plain [] message = refl
tell-plain (user ∷ whites) message = tell-plain whites message
