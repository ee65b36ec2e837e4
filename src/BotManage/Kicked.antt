-- ===== src/BotManage/Kicked.antt =====
-- source/modules/module/botmanage/baned_kicked.h with group_invite.h: what being kicked does to later
-- invitations.
use migang_bot_cpp.Base.{
  ℕ, ◌≡◌, refl, ◌⊎◌, Bool, true, false, List, Bytes, ok, arith, nat_eq, lookup-insert_self, some,
  codes, utf8, subst, ◌||◌,
}
use migang_bot_cpp.Json.{JsonLib}
use migang_bot_cpp.Permission.{BotConfig}
use migang_bot_cpp.Api.Groups as Groups
use migang_bot_cpp.ApiBot.{ApiBot, UserInfo}
use migang_bot_cpp.Action.{Action, perform_all}
use migang_bot_cpp.BotManage.{Manage, BlackList, is_black, add_to_black_list}
use migang_bot_cpp.BotManage.Invite.{GroupInvite, handle_group_invite, handlekicked}
use migang_bot_cpp.BotManage.Refusals.{IsGroupInvite, AnswersWith, handle_group_invite_lem, accepts}

is_black-add_to_black_list :
    (works : Bool) (id : ℕ) (reason : Bytes) (l : BlackList)
    → is_black id (add_to_black_list works id reason l) ≡ true
unfolding is_black add_to_black_list
is_black-add_to_black_list works id reason l = ground (arith, lookup-insert_self id reason l.memory)

-- What `Handlekicked` leaves.
abbrev after_kick : Bool → Bool → ℕ → ℕ → Manage → Manage
after_kick group_works user_works group operator_id m =
    let reason = utf8 "直接踢出群而未使用.dismiss" in
    record m {
      gid_blacklist = add_to_black_list group_works group reason m.gid_blacklist;
      qid_blacklist = add_to_black_list user_works operator_id reason m.qid_blacklist;
    }

not_accepted :
    (m : Manage) (from to : ℕ)
    → is_black from m.qid_blacklist || is_black to m.gid_blacklist ≡ true
    → accepts m from to ≡ false
not_accepted m from to black = ground (arith, black)

black_hit :
    (group_works user_works : Bool) (group operator_id from to : ℕ) (reason : Bytes)
    (users groups : BlackList)
    → (from ≡ operator_id) ⊎ (to ≡ group)
    → is_black from (add_to_black_list user_works operator_id reason users)
        || is_black to (add_to_black_list group_works group reason groups)
      ≡ true
black_hit group_works user_works group operator_id from to reason users groups hits = ground (
  arith,
  is_black-add_to_black_list user_works operator_id reason users,
  is_black-add_to_black_list group_works group reason groups,
)

module _ (lib : JsonLib) where
  open lib use {Json, at, get_string, get_number}

  -- After the bot was kicked from `group` by `operator_id`, `Handlekicked` leaves both on their black
  -- lists, whether or not the database works, and an invitation by the one or to the other that is
  -- handled next is answered by a refusal as the first frame and by nothing else.
  pub kicked_then_refused :
      (now : ℕ → Bytes) (config : BotConfig) (group_works user_works : Bool) (time : Bytes)
      (operator_info info : UserInfo) (kick event : Json) (m : Manage) (self : GroupInvite)
      (group operator_id from to : ℕ) (flag : Bytes) (number : ℕ → ℕ) (b : ApiBot lib)
      → get_number (at kick "group_id") ≡ some group
      → get_number (at kick "operator_id") ≡ some operator_id
      → IsGroupInvite lib event from to flag
      → (from ≡ operator_id) ⊎ (to ≡ group)
      → (m' : Manage) × (told : List Action) × (reason : Bytes) × (actions : List Action)
        × (b' : ApiBot lib) × (handlekicked lib now config group_works user_works time operator_info
              kick m
            ≡ ok (m', told))
        × (is_black group m'.gid_blacklist ≡ true)
        × (is_black operator_id m'.qid_blacklist ≡ true)
        × (handle_group_invite lib now config self m' info event ≡ ok actions)
        × (perform_all lib event number 0 actions b ≡ ok b')
        × AnswersWith lib (Groups.set_group_add_request lib flag (codes "invite") reason false) b b'
  unfolding handlekicked
  kicked_then_refused now config group_works user_works time operator_info info kick event m self
        group operator_id from to flag number b in_group by_user invite hits =
      rw in_group (
        rw by_user (
          let m' = after_kick group_works user_works group operator_id m in
          let kept =
            handle_group_invite_lem lib now config self m' info event from to flag number b
              invite in
          let refused = not_accepted m' from to (
            black_hit group_works user_works group operator_id from to _ m.qid_blacklist
              m.gid_blacklist hits) in
          let (reason, actions, b', handled, done, answered) = kept in
          (
            m',
            _,
            reason,
            actions,
            b',
            refl,
            is_black-add_to_black_list group_works group _ m.gid_blacklist,
            is_black-add_to_black_list user_works operator_id _ m.qid_blacklist,
            handled,
            done,
            subst
                (λ x.
                  AnswersWith lib (Groups.set_group_add_request lib flag (codes "invite") reason x)
                    b b')
                refused answered,
          )))
