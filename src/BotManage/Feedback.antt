-- ===== src/BotManage/Feedback.antt =====
-- source/modules/module/botmanage/feedback.h and feedback_recorder.h: messages to the superusers and
-- the replies to them. The rows of the table `Feedbacks` are a list; the database gives each new row
-- the next number. UID and GID are INT columns: `store` is what such a column of the database keeps
-- of a number, `none` if the statement throws.
use migang_bot_cpp.Base.{
  ℕ, ◌+◌, Bool, true, false, not, ◌&&◌, Option, none, some, List, [], ◌∷◌, ◌++◌, Bytes, codes, utf8,
  bytes_beq, nat_beq, ltb, length, is_empty, get_elem?, if◌then◌else◌, Result, ok, Fault, or_fault,
  ◌>>=◌,
}
use migang_bot_cpp.Json.{JsonLib, number_at}
use migang_bot_cpp.Strings.{npos, substr, to_string, format}
use migang_bot_cpp.Strings.Numbers.{is_digit_str, stoll, stoull}
use migang_bot_cpp.Message.{split, strip}
use migang_bot_cpp.Permission.{BotConfig}
use migang_bot_cpp.ApiBot.{GroupInfo}
use migang_bot_cpp.Action.{Action, tell}
use migang_bot_cpp.BotManage.Commands.{say, say_to, plain_text}

pub record Row : Type 0 where
  pub id : ℕ
  pub time : Bytes
  pub uid : ℕ
  pub gid : ℕ
  pub content : Bytes

-- The rows, and the number of the next one.
pub record Feedbacks : Type 0 where
  pub rows : List Row
  pub next_id : ℕ

abbrev larger : ℕ → ℕ → ℕ
larger a b = if ltb a b then b else a

abbrev pub max_id : List Row → ℕ
max_id [] = 0
max_id (r ∷ rows) = larger r.id (max_id rows)

-- `GetLastID`: 0 for an empty table, whose maximum is null.
unfoldable pub get_last_id : Feedbacks → ℕ
get_last_id f = max_id f.rows

-- The insertion of a row, once its numbers are what the columns keep.
abbrev insert_row : Bytes → Option ℕ → Option ℕ → Bytes → Feedbacks → Feedbacks × Bool
insert_row time none gid content f = (f, false)
insert_row time (some uid) none content f = (f, false)
insert_row time (some uid) (some gid) content f = (
  record {
    rows =
        f.rows
        ++ record { id = f.next_id; time = time; uid = uid; gid = gid; content = content } ∷ [];
    next_id = f.next_id + 1;
  },
  true,
)

-- `RecordFeedBack`: `works` says whether the statement succeeds on numbers that are kept.
unfoldable pub record_feedback :
    Bool → (ℕ → Option ℕ) → Bytes → ℕ → ℕ → Bytes → Feedbacks → Feedbacks × Bool
record_feedback works store time uid gid content f =
    if works then insert_row time (store uid) (store gid) content f else (f, false)

unfoldable pub select_row : ℕ → List Row → Option Row
select_row id [] = none
select_row id (r ∷ rows) = if nat_beq r.id id then some r else select_row id rows

abbrev pub fields_of : Row → List Bytes
fields_of r = r.time ∷ r.content ∷ to_string r.gid ∷ to_string r.uid ∷ []

-- `GetFeedback`; `empty` is what `front()` of an empty result reads as.
unfoldable pub get_feedback : Row → ℕ → Feedbacks → List Bytes
unfolding select_row
get_feedback empty id f = elim (select_row id f.rows) [
  | some r ↦ fields_of r
  | none ↦ fields_of empty
]

-- `v[i]` of a vector
abbrev field : List Bytes → ℕ → Result Bytes
field fields i = or_fault (get_elem? fields i) Fault.undefined

abbrev rule : Bytes
rule = codes "====================\n"

-- The text that no feedback has the number.
abbrev no_such : Bytes → Feedbacks → Action
no_such id f = say_to (
    format (utf8 "不存在ID[" ∷ id ∷ utf8 "]的留言,请输入1-" ∷ to_string (get_last_id f) ∷ utf8 "之间的数字" ∷ []))

module _ (lib : JsonLib) where
  open lib use {Json, contains, at, get_string}

  abbrev pub nickname_of : Json → Result Bytes
  nickname_of event =
      if contains event "sender" && contains (at event "sender") "nickname"
      then or_fault (get_string (at (at event "sender") "nickname")) Fault.type_error
      else ok (utf8 "#未知昵称#")

  abbrev pub sent_to : Bytes → Bytes → Bytes
  sent_to id text = format (utf8 "您ID为[" ∷ id ∷ utf8 "]的留言已发送至维护者\n" ∷ rule ∷ text ∷ [])

  -- What a superuser is told about a feedback from a group.
  abbrev pub notice_in : Bytes → Bytes → Bytes → ℕ → GroupInfo → ℕ → Bytes → Bytes
  notice_in id time_now nickname user group_info group text = format (
      utf8 "留言ID["
      ∷ id
      ∷ utf8 "]|"
      ∷ time_now
      ∷ utf8 "|@(Q)"
      ∷ nickname
      ∷ codes "("
      ∷ to_string user
      ∷ utf8 ")@(群)"
      ∷ (if nat_beq group_info.group_id 0 then utf8 "#未知群名#" else group_info.group_name)
      ∷ codes "("
      ∷ to_string group
      ∷ codes ")\n"
      ∷ rule
      ∷ text
      ∷ [])

  -- What `Send` does in a group once the feedback has its number.
  abbrev pub told_in : BotConfig → Bytes → Bytes → Bytes → ℕ → GroupInfo → ℕ → Bytes → List Action
  told_in config id time_now nickname user group_info group text =
      Action.get_group_info group
        ∷ tell config.superusers
            (λ white. notice_in id time_now nickname user group_info group text)
      ++ say_to (sent_to id text) ∷ []

  -- `Send`; `group_info` is the answer of `get_group_info`, `time_now` the time.
  unfoldable pub feedback_send :
      BotConfig
      → Bytes
      → GroupInfo
      → Bool
      → (ℕ → Option ℕ)
      → Json
      → Feedbacks
      → Result (Feedbacks × List Action)
  unfolding record_feedback get_last_id tell
  feedback_send config time_now group_info works store event f = do
    nickname ← nickname_of event
    user ← number_at lib event "user_id"
    text ← plain_text lib event
    if is_empty text
        then ok (f, say_to (utf8 "格式错误，请发送[.send + 您的留言]") ∷ [])
        else if contains event "group_id"
        then (do
          group ← number_at lib event "group_id"
          let f' = (record_feedback works store time_now user group text f).0
          let id = to_string (get_last_id f')
          ok (f', told_in config id time_now nickname user group_info group text))
        else (let f' = (record_feedback works store time_now user 0 text f).0 in
            let id = to_string (get_last_id f') in
            ok (
              f',
              tell config.superusers (λ white. format (
                    utf8 "留言ID["
                    ∷ id
                    ∷ utf8 "]|"
                    ∷ time_now
                    ∷ utf8 "|@(Q)"
                    ∷ nickname
                    ∷ codes "("
                    ∷ to_string user
                    ∷ codes ")\n"
                    ∷ rule
                    ∷ text
                    ∷ []))
                  ++ say (sent_to id text) ∷ [],
            ))

  -- `Reply` for a number that is made of digits: `first` is the piece that holds it.
  unfoldable pub reply_to : Row → Bytes → Bytes → Bytes → Feedbacks → Result (List Action)
  unfolding get_feedback stoll stoull substr
  reply_to empty msg first feedback_id f = do
    n ← stoll feedback_id
    let found = get_feedback empty n f
    if is_empty found then ok (no_such feedback_id f ∷ []) else (do
      behind ← substr msg (length first) npos
      reply_text ← strip b' ' behind
      content ← field found 1
      target ← field found 3
      let msg_re = format (
          utf8 "关于留言ID["
          ∷ feedback_id
          ∷ utf8 "]的回复\n========原文========\n"
          ∷ content
          ∷ utf8 "\n========回复========\n"
          ∷ reply_text
          ∷ [])
      let done = say_to (utf8 "留言ID[" ++ feedback_id ++ utf8 "]的回复已发送成功")
      if not (bytes_beq target (codes "0"))
          then (do group ← stoull target; ok (Action.send_group_msg group msg_re ∷ done ∷ []))
          else (do
            other ← field found 2
            user ← stoull other
            ok (Action.send_private_msg user msg_re ∷ done ∷ [])))

  -- `Reply`
  unfoldable pub feedback_reply : Row → Json → Feedbacks → Result (List Action)
  unfolding reply_to is_digit_str
  feedback_reply empty event f = do
    msg ← plain_text lib event
    pieces ← split msg (codes " ")
    if ltb (length pieces) 2 then ok (say_to (utf8 "参数有误，请按照[.reply id text]格式重新发送") ∷ []) else (do
      first ← field pieces 0
      feedback_id ← strip b' ' first
      if not (is_digit_str feedback_id)
          then ok (say_to (utf8 "输入的留言ID有误,请输入数字") ∷ [])
          else reply_to empty msg first feedback_id f)

  -- `List`
  unfoldable pub feedback_list : Row → Json → Feedbacks → Result (List Action)
  unfolding get_feedback stoll is_digit_str
  feedback_list empty event f = do
    feedback_id ← plain_text lib event
    if is_empty feedback_id
        then ok (
            say_to (format (utf8 "留言ID不能为空，请输入1-" ∷ to_string (get_last_id f) ∷ utf8 "之间的数字" ∷ []))
            ∷ [])
        else if not (is_digit_str feedback_id)
        then ok (say_to (utf8 "输入的留言ID有误,请输入数字") ∷ [])
        else (do
          n ← stoll feedback_id
          let found = get_feedback empty n f
          if is_empty found then ok (no_such feedback_id f ∷ []) else (do
            time ← field found 0
            content ← field found 1
            ok (
                say
                  (format (time ∷ utf8 "|留言ID[" ∷ feedback_id ∷ codes "]\n" ∷ rule ∷ content ∷ []))
                ∷ [])))
