-- ===== src/BotManage/Options.antt =====
-- source/modules/module/botmanage: manage_bot.h and auto_clean_group.h. `memory` is as in Commands.
-- The time is an argument, and so are the answers of the calls.
use migang_bot_cpp.Base.{
  ℕ, ◌+◌, ◌-◌, ◌*◌, ◌%◌, ◌^◌, Bool, true, false, not, List, [], ◌∷◌, ◌++◌, Bytes, codes, utf8, ltb,
  leb, length, take, is_empty, if◌then◌else◌, Result, ok, fault, Fault, ◌>>=◌,
}
use migang_bot_cpp.Json.{JsonLib, number_at}
use migang_bot_cpp.Strings.{starts_with, to_string, format}
use migang_bot_cpp.Strings.Numbers.{is_digit_str, atoll}
use migang_bot_cpp.Permission.{BotConfig}
use migang_bot_cpp.ApiBot.{GroupInfo, GroupMemberInfo}
use migang_bot_cpp.Action.{Action, tell}
use migang_bot_cpp.BotManage.{Manage}
use migang_bot_cpp.BotManage.Commands.{say, skip_spaces, plain_text}

-- `hint` of `ManageBot::Handle`; a backslash at the end of a line continues the literal, and the
-- space before each stays.
abbrev hint : Bytes
hint = format (
    codes "Usage:\n "
    ∷ utf8 "-l   退出群聊\n "
    ∷ utf8 "-blq 列举黑名单qq\n "
    ∷ utf8 "-blg 列举黑名单群\n "
    ∷ utf8 "-caf 改变允许加好友状态\n "
    ∷ utf8 "-cag 改变允许入群状态\n "
    ∷ utf8 "-gf  禁止一切群邀请(严格)\n"
    ∷ [])

-- The lines of the loops over a black list.
unfoldable pub black_lines : List (ℕ × Bytes) → Bytes
black_lines [] = []
black_lines ((id, reason) ∷ l) =
    format (to_string id ∷ codes ":" ∷ reason ∷ codes "\n" ∷ []) ++ black_lines l

-- `msg.pop_back()`
unfoldable pub pop_back : Bytes → Bytes
pop_back s = take (length s - 1) s

abbrev turned : Bool → Bytes
turned on = if on then utf8 "启用" else utf8 "关闭"

-- The branch for `-l`
unfoldable pub leave_option : Bytes → Result (List Action)
unfolding skip_spaces is_digit_str atoll
leave_option option = do
  id ← skip_spaces 2 option
  if not (is_digit_str id) then ok (say (utf8 "请输入合法群号") ∷ []) else (do
    group ← atoll id
    ok (Action.set_group_leave group ∷ say (utf8 "已退出群[" ++ id ++ utf8 "](如果在群里的话)") ∷ []))

-- `ManageBot::Handle` from its option on; `-l` is tested before the options that it starts.
unfoldable pub manage_option : Bytes → Manage → Result (Manage × List Action)
unfolding leave_option black_lines pop_back
manage_option option m =
    if is_empty option
    then ok (m, say hint ∷ [])
    else if starts_with (codes "-l") option
    then (leave_option option >>= λ actions. ok (m, actions))
    else if starts_with (codes "-blq") option
    then ok (m, say (pop_back (utf8 "以下为黑名单qq用户\n" ++ black_lines m.qid_blacklist.memory)) ∷ [])
    else if starts_with (codes "-blg") option
    then ok (m, say (pop_back (utf8 "以下为黑名单群\n" ++ black_lines m.gid_blacklist.memory)) ∷ [])
    else if starts_with (codes "-caf") option
    then (let on = not m.add_friend_flag in
        ok (record m { add_friend_flag = on }, say (utf8 "自动同意添加好友状态目前为:" ++ turned on) ∷ []))
    else if starts_with (codes "-cag") option
    then (let on = not m.add_group_flag in
        ok (record m { add_group_flag = on }, say (utf8 "自动同意入群邀请状态目前为:" ++ turned on) ∷ []))
    else if starts_with (codes "-gf") option
    then (if m.reject_group_force_flag
        then ok (
          record m { reject_group_force_flag = false },
          say (utf8 "已关闭严格模式,自动同意入群邀请状态目前为:" ++ turned m.add_group_flag) ∷ [],
        )
        else ok (
          record m { reject_group_force_flag = true; add_group_flag = false },
          say (utf8 "已启用严格模式") ∷ [],
        ))
    else ok (m, say hint ∷ [])

module _ (lib : JsonLib) where
  open lib use {Json}

  -- `ManageBot::Handle`
  unfoldable pub manage_handle : (Bytes → Bytes) → Json → Manage → Result (Manage × List Action)
  unfolding manage_option
  manage_handle memory event m = do text ← plain_text lib event; manage_option (memory text) m

-- `now - last_sent_time >= 3600 * 24 * days` on a signed 64-bit `now`; the two ints are read from
-- their 32 bits, and a product out of range is undefined.
unfoldable pub is_idle : ℕ → ℕ → ℕ → Result Bool
is_idle now last days =
    if ltb (3600 * 24 * days) (2 ^ 31)
    then ok (
        if ltb last (2 ^ 31)
        then leb (last + 3600 * 24 * days) now
        else leb (last + 3600 * 24 * days) (now + 2 ^ 32))
    else fault Fault.undefined

module _ (config : BotConfig) (days : ℕ) (clock : ℕ → ℕ) (info : ℕ → GroupMemberInfo) where
  -- What is done in a group that is left.
  unfoldable pub leave_idle : ℕ → List Action
  unfolding tell
  leave_idle group =
      Action.send_group_msg group (
        format (
          utf8 "本群已超过"
          ∷ to_string days
          ∷ utf8 "未使用"
          ∷ config.bot_name
          ∷ utf8 "，即将自动退群，如有误请联系维护者"
          ∷ []))
      ∷ Action.sleep 2000
      ∷ Action.set_group_leave group
      ∷ tell config.superusers (λ white.
        format (utf8 "已自动退出群" ∷ to_string group ∷ utf8 "(超过" ∷ to_string days ∷ utf8 "天未使用)" ∷ []))

  -- The loop of `DoClean` with its count.
  unfoldable pub clean_groups : ℕ → List GroupInfo → ℕ → Result (List Action × ℕ)
  unfolding is_idle leave_idle
  clean_groups self [] count = ok ([], count)
  clean_groups self (g ∷ groups) count = do
    idle ← is_idle (clock g.group_id) (info g.group_id).last_sent_time days
    (rest, total) ← clean_groups self groups (if idle then (count + 1) % 2 ^ 32 else count)
    ok (
      Action.get_group_member_info g.group_id self
          ∷ (if idle then leave_idle g.group_id ++ rest else rest),
      total,
    )

  -- `DoClean`
  unfoldable pub do_clean : (lib : JsonLib) → List GroupInfo → lib.Json → Result (List Action)
  unfolding clean_groups tell
  do_clean lib groups event = do
    self ← number_at lib event "self_id"
    (actions, count) ← clean_groups self groups 0
    ok (
        Action.get_group_list ∷ tell config.superusers (λ white. utf8 "已开始自动清理")
        ++ actions
        ++ tell config.superusers
            (λ white. format (utf8 "清理结束，共清理" ∷ to_string count ∷ utf8 "个群" ∷ [])))
