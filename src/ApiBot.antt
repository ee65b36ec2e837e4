-- ===== src/ApiBot.antt =====
-- source/bot/onebot_11: api_bot.h, desired_value.h, default_value.h, and the parts of source/bot/bot.h
-- and source/co_future.h that they meet. The bot's answers and sessions wait on promises: a promise
-- is a number, held by the waiting coroutine and by nobody else, so that a `std::weak_ptr` to it
-- expires when the coroutine drops it. A frame that is sent is the JSON value before `dump()`.
pub mod Values
pub mod Calls
pub mod Sessions
pub mod Process
pub mod Delivery
pub mod Queues
pub mod Waiting
pub mod Life
pub mod Races
pub mod Answers
mod Tests
use migang_bot_cpp.Base.{ℕ, Bool, Option, List, Bytes}
use migang_bot_cpp.Json.{JsonLib}

-- source/type.h
pub record GroupInfo : Type 0 where
  pub group_id : ℕ
  pub group_name : Bytes
  pub member_count : ℕ
  pub max_member_count : ℕ

pub record UserInfo : Type 0 where
  pub user_id : ℕ
  pub nickname : Bytes
  pub sex : Bytes
  pub age : ℕ

pub record GroupMemberInfo : Type 0 where
  pub group_id : ℕ
  pub user_id : ℕ
  pub nickname : Bytes
  pub card : Bytes
  pub sex : Bytes
  pub age : ℕ
  pub area : Bytes
  pub join_time : ℕ
  pub last_sent_time : ℕ
  pub level : Bytes
  pub role : Bytes
  pub unfriendly : Bool
  pub title : Bytes
  pub title_expire_time : ℕ
  pub card_changeable : Bool

-- The type that a promise is for, and its values.
pub data Reply : Type 0 where
  message_id group_info user_info group_list member_info text : Reply

pub data Answer : Type 0 where
  message_id : ℕ → Answer
  group_info : GroupInfo → Answer
  user_info : UserInfo → Answer
  group_list : List GroupInfo → Answer
  member_info : GroupMemberInfo → Answer
  text : Bytes → Answer

-- A queue for each member of each group, `someone_group_message_`.
abbrev pub GroupQueues : Type 0
GroupQueues = List (ℕ × List (ℕ × List ℕ))

-- The state of an `ApiBot` with the `echo_function_` of its `Bot`, the frames that it has sent, the
-- promises (`alive` while a coroutine waits on it, `value` once it is set), and the number of the
-- next one. A mutex is made when its key is first used.
pub record ApiBot (lib : JsonLib) : Type 0 where
  pub sent : List lib.Json
  pub echo_function : List (ℕ × (ℕ × Reply))
  pub someone_group_message : GroupQueues
  pub someone_group_message_mutex : List (ℕ × List ℕ)
  pub someone_need_message : List (ℕ × List ℕ)
  pub someone_need_message_mutex : List ℕ
  pub alive : ℕ → Bool
  pub value : ℕ → Option Answer
  pub next : ℕ
