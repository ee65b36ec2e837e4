-- ===== src/BotManage/Commands.antt =====
-- source/modules/module/botmanage: manage_bot.h, white_black.h, dismiss.h and auto_clean_group.h.
-- `ManageBot::Handle`, `HandleWhite` and `HandleBlack` read a view of a string that is destroyed
-- already; `memory` gives the bytes that they find in place of those of the string.
use migang_bot_cpp.Base.{
  ℕ, ◌+◌, ◌%◌, ◌^◌, min, Bool, true, false, not, Option, none, some, List, [], ◌∷◌, ◌++◌, String,
  Bytes, codes, utf8, bytes_beq, nat_eq, length, drop, is_empty, if◌then◌else◌, Result, ok, ◌>>=◌,
}
use migang_bot_cpp.Json.{JsonLib, number_at}
use migang_bot_cpp.Strings.{
  npos, find_index, is_not, find_first_of, starts_with, substr, remove_prefix, to_string, format,
}
use migang_bot_cpp.Strings.Numbers.{is_digit_str, atoll}
use migang_bot_cpp.Message.{extra_plain_text, strip, lstrip}
use migang_bot_cpp.Permission.{BotConfig}
use migang_bot_cpp.Action.{Action, tell}
use migang_bot_cpp.BotManage.{Manage, BlackList, add_to_black_list, del_from_black_list}

-- `bot.send(event, message)` and `bot.send(event, message, true)`
abbrev pub say : Bytes → Action
say message = Action.send message false false

abbrev pub say_to : Bytes → Action
say_to message = Action.send message true false

abbrev from_index : ℕ → Option ℕ → ℕ
from_index pos none = npos
from_index pos (some i) = pos + i

-- `key.remove_prefix(std::min(key.size(), key.find_first_not_of(' ', pos)))`
unfoldable pub skip_spaces : ℕ → Bytes → Result Bytes
unfolding find_index remove_prefix
skip_spaces pos key =
    remove_prefix (min (length key) (from_index pos (find_index (is_not b' ') (drop pos key)))) key

-- One branch of `HandleWhite`: the prefix is skipped, and the id taken off its list.
unfoldable pub white_from :
    Bool → Bytes → String → ℕ → Bytes → BlackList → Result (BlackList × Action)
unfolding skip_spaces is_digit_str atoll del_from_black_list
white_from works kind invalid pos key list = do
  id ← skip_spaces pos key
  if not (is_digit_str id) then ok (list, say_to (codes "[" ++ id ++ utf8 invalid)) else (do
    n ← atoll id
    let (list', gone) = del_from_black_list works n list
    ok (
      list',
      if gone
          then say (utf8 "已将" ++ kind ++ id ++ utf8 "从黑名单移除")
          else say (kind ++ id ++ utf8 "未在黑名单中"),
    ))

-- One branch of `HandleBlack`. Without a space `find_first_of(' ') + 1` is 0.
unfoldable pub black_from :
    Bool → Bytes → String → String → ℕ → Bytes → BlackList → Result (BlackList × Action)
unfolding skip_spaces is_digit_str atoll add_to_black_list
black_from works kind invalid no_id pos text list = do
  key ← skip_spaces pos text
  behind ← substr key (min (length key) ((find_first_of b' ' key + 1) % 2 ^ 64)) npos
  reason ← lstrip b' ' behind
  id ← substr key 0 (min (length key) (find_first_of b' ' key))
  if is_empty id
      then ok (list, say (utf8 no_id))
      else if is_empty reason
      then ok (list, say (utf8 "请输入黑名单原因"))
      else if not (is_digit_str id)
      then ok (list, say_to (codes "[" ++ id ++ utf8 invalid))
      else (do
        n ← atoll id
        ok (add_to_black_list works n reason list, say (utf8 "已将" ++ kind ++ id ++ utf8 "加入黑名单")))

abbrev group_kind : Bytes
group_kind = utf8 "(群)"

abbrev with_qid : Manage → BlackList × Action → Result (Manage × List Action)
with_qid m (list, a) = ok (record m { qid_blacklist = list }, a ∷ [])

abbrev with_gid : Manage → BlackList × Action → Result (Manage × List Action)
with_gid m (list, a) = ok (record m { gid_blacklist = list }, a ∷ [])

module _ (lib : JsonLib) where
  open lib use {Json, contains}

  -- `message::Strip(message::ExtraPlainText(event))`
  abbrev pub plain_text : Json → Result Bytes
  plain_text event = extra_plain_text lib event >>= λ text. strip b' ' text

  -- `HandleWhite`
  unfoldable pub handle_white :
      (Bytes → Bytes) → Bool → Json → Manage → Result (Manage × List Action)
  unfolding white_from
  handle_white memory works event m = do
    text ← plain_text event
    let key = memory text
    if starts_with (codes "qq") key
        then white_from works (codes "(Q)") "]不是一个合法QQ号" 2 key m.qid_blacklist >>= with_qid m
        else if starts_with (codes "group") key
        then white_from works group_kind "]不是一个合法群号" 5 key m.gid_blacklist >>= with_gid m
        else ok (m, say (utf8 "参数错误:.white qq/group id") ∷ [])

  -- `HandleBlack`
  unfoldable pub handle_black :
      (Bytes → Bytes) → Bool → Json → Manage → Result (Manage × List Action)
  unfolding black_from
  handle_black memory works event m = do
    text ← plain_text event
    let key = memory text
    if starts_with (codes "qq") key
        then black_from works (codes "(Q)") "]不是一个合法QQ号" "请输入所需拉黑的qq号" 2 key m.qid_blacklist
          >>= with_qid m
        else if starts_with (codes "group") key
        then black_from works group_kind "]不是一个合法群号" "请输入所需拉黑的群号" 5 key m.gid_blacklist
          >>= with_gid m
        else ok (m, say (utf8 "参数错误:.black qq/group id reason") ∷ [])

  -- `HandleDismiss`
  unfoldable pub handle_dismiss : (ℕ → Bytes) → BotConfig → Json → Result (List Action)
  unfolding tell
  handle_dismiss now config event =
      if contains event "group_id"
      then (do
        qid ← plain_text event
        if bytes_beq qid (codes "2215")
            then (do
              group ← number_at lib event "group_id"
              ok (
                  Action.send_group_msg group (utf8 "哼!走了")
                  ∷ Action.set_group_leave group
                  ∷ tell config.superusers (λ white. format (
                      now white
                      ∷ codes "|"
                      ∷ config.bot_name
                      ∷ utf8 "已因dismiss命令退出群"
                      ∷ to_string group
                      ∷ []))))
            else ok [])
      else ok []
