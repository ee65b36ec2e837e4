-- ===== src/ApiBot/Calls.antt =====
-- source/bot/onebot_11/api_bot.h: the calls of an `ApiBot`, and the answers that come back. The code
-- of an answer, a time stamp with a random part, is an argument.
use migang_bot_cpp.Base.{
  ℕ, ◌+◌, Bool, true, false, none, some, [], ◌∷◌, ◌++◌, Bytes, codes, nat_beq, nat_eq, bytes_beq,
  insert, if◌then◌else◌, Result, ok, fault, ◌>>=◌,
}
use migang_bot_cpp.Json.{JsonLib, string_at, number_at, value_string}
use migang_bot_cpp.Strings.{to_string}
use migang_bot_cpp.Api.Messages as Messages
use migang_bot_cpp.Api.Groups as Groups
use migang_bot_cpp.Api.Queries as Queries
use migang_bot_cpp.ApiBot.{ApiBot, Reply, Answer}
use migang_bot_cpp.ApiBot.Values.{desired_value, default_value}

abbrev pub update {ℓ} : {A : Type ℓ} → (ℕ → A) → ℕ → A → ℕ → A
update f p a x = if nat_beq p x then a else f x

-- `fmt::format("[CQ:at,qq={}] {}", user_id, message)`
abbrev pub at_message : ℕ → Bytes → Bytes
at_message user_id message = codes "[CQ:at,qq=" ++ (to_string user_id ++ (codes "] " ++ message))

module _ (lib : JsonLib) where
  open lib use {Json, put, of_number, is_null}

  -- `std::make_shared<co_promise<T>>()`
  unfoldable pub make_promise : ApiBot lib → ApiBot lib × ℕ
  make_promise b = (
    record b {
      alive = update b.alive b.next true;
      value = update b.value b.next none;
      next = b.next + 1;
    },
    b.next,
  )

  -- `co_promise::set_value`
  unfoldable pub set_value : ℕ → Answer → ApiBot lib → ApiBot lib
  set_value p a b = record b { value = update b.value p (some a) }

  -- `EchoFunction`: an exception is logged.
  unfoldable pub run_echo : ℕ → Reply → Json → ApiBot lib → ApiBot lib
  unfolding set_value
  run_echo p kind value b =
      if b.alive p
      then (if is_null value
          then set_value p (default_value kind) b
          else elim (desired_value lib kind value) [ ok a ↦ set_value p a b | fault e ↦ b ])
      else b

  -- `Echo`: the message with its code, and the promise of the answer.
  unfoldable pub echo : ℕ → Reply → Json → ApiBot lib → ApiBot lib × Json × ℕ
  unfolding make_promise
  echo code kind msg b =
      let (b', p) = make_promise b in
      (
        record b' { echo_function = insert code (p, kind) b'.echo_function },
        put msg "echo" (of_number code),
        p,
      )

  -- `SendRaw` of a message without and with an answer
  unfoldable pub send_raw : Json → ApiBot lib → ApiBot lib
  send_raw msg b = record b { sent = b.sent ++ msg ∷ [] }

  unfoldable pub send_raw_for : ℕ → Reply → Json → ApiBot lib → ApiBot lib × ℕ
  unfolding echo send_raw
  send_raw_for code kind msg b = let (b', msg', p) = echo code kind msg b in (send_raw msg' b', p)

  unfoldable pub send_private_msg : ℕ → ℕ → Bytes → Bool → ApiBot lib → ApiBot lib × ℕ
  unfolding send_raw_for
  send_private_msg code user_id message auto_escape b =
      send_raw_for code Reply.message_id (Messages.send_private_msg lib user_id message auto_escape)
        b

  unfoldable pub send_group_msg : ℕ → ℕ → Bytes → Bool → ApiBot lib → ApiBot lib × ℕ
  unfolding send_raw_for
  send_group_msg code group_id message auto_escape b =
      send_raw_for code Reply.message_id (Messages.send_group_msg lib group_id message auto_escape)
        b

  unfoldable pub send_msg : ℕ → Bytes → Bytes → ℕ → Bool → ApiBot lib → ApiBot lib × ℕ
  unfolding send_raw_for
  send_msg code type message id auto_escape b =
      send_raw_for code Reply.message_id (Messages.send_msg lib type message id auto_escape) b

  -- `send`; in a private chat `auto_escape` keeps the default of `send_private_msg`.
  unfoldable pub send : ℕ → Json → Bytes → Bool → Bool → ApiBot lib → Result (ApiBot lib × ℕ)
  unfolding send_private_msg send_group_msg
  send code event message at_sender auto_escape b = do
    message_type ← value_string lib event "message_type" (codes "private")
    if bytes_beq message_type (codes "group")
        then (if at_sender
            then (do
              group_id ← number_at lib event "group_id"
              user_id ← number_at lib event "user_id"
              ok (send_group_msg code group_id (at_message user_id message) auto_escape b))
            else (do
              group_id ← number_at lib event "group_id"
              ok (send_group_msg code group_id message auto_escape b)))
        else (do
          user_id ← number_at lib event "user_id"
          ok (send_private_msg code user_id message false b))

  unfoldable pub get_group_info : ℕ → ℕ → Bool → ApiBot lib → ApiBot lib × ℕ
  unfolding send_raw_for
  get_group_info code group_id no_cache b =
      send_raw_for code Reply.group_info (Queries.get_group_info lib group_id no_cache) b

  unfoldable pub get_group_list : ℕ → Bool → ApiBot lib → ApiBot lib × ℕ
  unfolding send_raw_for
  get_group_list code no_cache b =
      send_raw_for code Reply.group_list (Queries.get_group_list lib no_cache) b

  unfoldable pub get_group_member_info : ℕ → ℕ → ℕ → Bool → ApiBot lib → ApiBot lib × ℕ
  unfolding send_raw_for
  get_group_member_info code gid uid no_cache b =
      send_raw_for code Reply.member_info (Queries.get_group_member_info lib gid uid no_cache) b

  unfoldable pub get_stranger_info : ℕ → ℕ → Bool → ApiBot lib → ApiBot lib × ℕ
  unfolding send_raw_for
  get_stranger_info code user_id no_cache b =
      send_raw_for code Reply.user_info (Queries.get_stranger_info lib user_id) b

  unfoldable pub delete_msg : ℕ → ApiBot lib → ApiBot lib
  unfolding send_raw
  delete_msg msg_id b = send_raw (Messages.delete_msg lib msg_id) b

  -- `HandleAddRequestImpl`
  unfoldable pub handle_add_request : Bool → Json → Bytes → ApiBot lib → Result (ApiBot lib)
  unfolding send_raw
  handle_add_request is_approve event reason b = do
    flag ← string_at lib event "flag"
    request_type ← string_at lib event "request_type"
    if bytes_beq request_type (codes "friend")
        then ok (send_raw (Groups.set_friend_add_request lib flag is_approve) b)
        else if bytes_beq request_type (codes "group")
        then (do
          sub_type ← string_at lib event "sub_type"
          if bytes_beq sub_type (codes "invite")
              then ok (
                  send_raw
                    (Groups.set_group_add_request lib flag (codes "invite") reason is_approve) b)
              else ok b)
        else ok b

  unfoldable pub reject : Json → Bytes → ApiBot lib → Result (ApiBot lib)
  unfolding handle_add_request
  reject event reason b = handle_add_request false event reason b

  unfoldable pub approve : Json → ApiBot lib → Result (ApiBot lib)
  unfolding handle_add_request
  approve event b = handle_add_request true event [] b

  unfoldable pub set_group_leave : ℕ → Bool → ApiBot lib → ApiBot lib
  unfolding send_raw
  set_group_leave group_id is_dismiss b =
      send_raw (Groups.set_group_leave lib group_id is_dismiss) b
