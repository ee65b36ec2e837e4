-- ===== src/BotManage/Invite.antt =====
-- source/modules/module/botmanage: group_invite.h, friend_invite.h and baned_kicked.h.
-- `datetime::GetCurrentTime()` is an argument, by the superuser who is told; the answer of
-- `get_stranger_info` is one too.
use migang_bot_cpp.Base.{
  ℕ, String, Bool, ◌||◌, List, [], ◌∷◌, ◌++◌, Bytes, codes, utf8, nat_beq, if◌then◌else◌, Result,
  ok, ◌>>=◌,
}
use migang_bot_cpp.Json.{JsonLib, number_at}
use migang_bot_cpp.Strings.{to_string, format}
use migang_bot_cpp.Permission.{BotConfig}
use migang_bot_cpp.ApiBot.{UserInfo}
use migang_bot_cpp.Action.{Action, tell}
use migang_bot_cpp.BotManage.{Manage, is_black, add_to_black_list}

-- The members `reason_` and `auto_leave_reason_` of `GroupInvite`.
pub record GroupInvite : Type 0 where
  pub reason : Bytes
  pub auto_leave_reason : Bytes

-- The messages to the superusers.
abbrev group_news : (ℕ → Bytes) → BotConfig → String → ℕ → UserInfo → ℕ → String → ℕ → Bytes
group_news now config did group info user tail white = format (
    now white
    ∷ codes "|"
    ∷ config.bot_name
    ∷ utf8 did
    ∷ to_string group
    ∷ utf8 "，邀请人"
    ∷ info.nickname
    ∷ codes "("
    ∷ to_string user
    ∷ utf8 tail
    ∷ [])

abbrev friend_news : (ℕ → Bytes) → UserInfo → ℕ → String → ℕ → Bytes
friend_news now info user tail white =
    format
      (now white ∷ utf8 "|好友添加请求，来自" ∷ info.nickname ∷ codes "(" ∷ to_string user ∷ utf8 tail ∷ [])

abbrev leave_news : (ℕ → Bytes) → BotConfig → String → ℕ → String → ℕ → Bytes
leave_news now config did group tail white =
    format (now white ∷ codes "|" ∷ config.bot_name ∷ utf8 did ∷ to_string group ∷ utf8 tail ∷ [])

module _ (lib : JsonLib) (now : ℕ → Bytes) (config : BotConfig) where
  open lib use {Json}

  -- `Handle_group_invite`
  unfoldable pub handle_group_invite : GroupInvite → Manage → UserInfo → Json → Result (List Action)
  unfolding is_black tell
  handle_group_invite self m info event = do
    user ← number_at lib event "user_id"
    group ← number_at lib event "group_id"
    let news = group_news now config
    let ask = Action.get_stranger_info user
    if m.add_group_flag
        then (if is_black user m.qid_blacklist || is_black group m.gid_blacklist
            then ok (
                Action.reject
                  (utf8 "黑名单:" ++ to_string (if is_black user m.qid_blacklist then user else group))
                ∷ ask
                ∷ tell config.superusers (news "已拒绝加入(群)" group info user ")(黑名单)"))
            else ok
                (Action.approve ∷ ask ∷ tell config.superusers (news "新加入(群)" group info user ")")))
        else ok (
            Action.reject self.reason
            ∷ ask
            ∷ tell config.superusers (news "已拒绝加入(群)" group info user ")(暂停自动入群)"))

  -- `Handle_group_increase`
  unfoldable pub handle_group_increase : GroupInvite → Manage → Json → Result (List Action)
  unfolding tell
  handle_group_increase self m event = do
    user ← number_at lib event "user_id"
    group ← number_at lib event "group_id"
    self_id ← number_at lib event "self_id"
    if nat_beq user self_id
        then (if m.reject_group_force_flag
            then ok (
                Action.send_group_msg group self.auto_leave_reason
                ∷ Action.sleep 2000
                ∷ Action.set_group_leave group
                ∷ tell config.superusers (leave_news now config "已自动退出(群)" group "(严格模式)"))
            else ok (
                Action.sleep 1000
                ∷ Action.send_group_msg group m.help_msg_group
                ∷ tell config.superusers (leave_news now config "新加入(群)" group "，邀请人未知")))
        else ok []

  -- `Handle_friend_invite`
  unfoldable pub handle_friend_invite : Manage → UserInfo → Json → Result (List Action)
  unfolding is_black tell
  handle_friend_invite m info event = do
    user ← number_at lib event "user_id"
    let ask = Action.get_stranger_info user
    if m.add_friend_flag
        then (if is_black user m.qid_blacklist
            then ok (ask ∷ tell config.superusers (friend_news now info user "):已拒绝(黑名单)"))
            else ok (
                Action.approve
                ∷ Action.sleep 2000
                ∷ Action.send_private_msg user m.help_msg_friend
                ∷ ask
                ∷ tell config.superusers (friend_news now info user "):已同意")))
        else ok (
            Action.reject (utf8 "抱歉，目前暂停加好友了~")
            ∷ ask
            ∷ tell config.superusers (friend_news now info user "):已拒绝(暂停自动加好友)"))

  -- `Handlekicked`; `works` says whether the statements on the tables of groups and of users
  -- succeed. The lists are those at the time of the addition, behind the answer of
  -- `get_stranger_info`.
  unfoldable pub handlekicked :
      Bool → Bool → Bytes → UserInfo → Json → Manage → Result (Manage × List Action)
  unfolding add_to_black_list tell
  handlekicked group_works user_works time info event m = do
    group ← number_at lib event "group_id"
    operator_id ← number_at lib event "operator_id"
    let who = info.nickname ++ codes "(" ++ to_string operator_id
    let reason = utf8 "直接踢出群而未使用.dismiss"
    ok (
      record m {
        gid_blacklist = add_to_black_list group_works group reason m.gid_blacklist;
        qid_blacklist = add_to_black_list user_works operator_id reason m.qid_blacklist;
      },
      Action.get_stranger_info operator_id
            ∷ tell config.superusers (λ white.
              format (time ∷ utf8 "|已被(Q)" ∷ who ∷ utf8 ")踢出(群)" ∷ to_string group ∷ []))
          ++ tell config.superusers (λ white.
            format
              (time ∷ utf8 "|已将(Q)" ∷ who ∷ utf8 ")&(群)" ∷ to_string group ∷ utf8 "加入黑名单" ∷ [])),
    )
