-- ===== src/BotManage/Tests.antt =====
-- source/modules/module/botmanage: the handlers on concrete events.
use migang_bot_cpp.Base.{
  ℕ, ◌≡◌, refl, inl, inr, true, false, none, [], ◌∷◌, List, Bytes, codes, nat_eq, lookup, ok,
}
use migang_bot_cpp.Json.Example.{Value, text, number, object_of, example_lib}
use migang_bot_cpp.Strings.{starts_with}
use migang_bot_cpp.Permission.{BotConfig}
use migang_bot_cpp.Api.Groups as Groups
use migang_bot_cpp.ApiBot.{ApiBot, UserInfo}
use migang_bot_cpp.Action.{Action, perform_all}
use migang_bot_cpp.BotManage.{Manage, BlackList, is_black, init}
use migang_bot_cpp.BotManage.Restart.{Change, change_all, restart_keeps_black}
use migang_bot_cpp.BotManage.Invite.{
  GroupInvite, handle_group_invite, handle_friend_invite, handlekicked,
}
use migang_bot_cpp.BotManage.Refusals.{
  IsGroupInvite, IsFriendInvite, AnswersWith, FriendOutcome, accepts, handle_group_invite_lem,
  handle_friend_invite_lem,
}
use migang_bot_cpp.BotManage.Kicked.{kicked_then_refused}
use migang_bot_cpp.BotManage.Options.{manage_option}

abbrev stored : BlackList
stored = record { memory = []; table = (4, codes "old") ∷ [] }

abbrev changes : List Change
changes = Change.add true 5 (codes "spam") ∷ Change.del false 9 ∷ Change.del true 4 ∷ []

restart_keeps_black_example :
    let ended = change_all changes (init stored) in
    (lookup 5 (init ended).memory ≡ lookup 5 ended.memory)
    × (is_black 5 (init ended) ≡ is_black 5 ended)
restart_keeps_black_example =
    restart_keeps_black 5 changes stored (inl refl, (inr refl, (inl refl, tt)))

abbrev bot : ApiBot example_lib
bot = record {
  sent = [];
  echo_function = [];
  someone_group_message = [];
  someone_group_message_mutex = [];
  someone_need_message = [];
  someone_need_message_mutex = [];
  alive = λ p. false;
  value = λ p. none;
  next = 1;
}

abbrev config : BotConfig
config = record { bot_name = codes "bot"; superusers = 1 ∷ []; white_list = [] }

abbrev invite : Value
invite = object_of (
    ("user_id", number 5)
    ∷ ("group_id", number 70)
    ∷ ("flag", text (codes "f"))
    ∷ ("request_type", text (codes "group"))
    ∷ ("sub_type", text (codes "invite"))
    ∷ [])

abbrev self : GroupInvite
self = record { reason = codes "closed"; auto_leave_reason = codes "bye" }

abbrev manage : Manage
manage = record {
  add_friend_flag = true;
  add_group_flag = true;
  reject_group_force_flag = false;
  help_msg_group = codes "help";
  help_msg_friend = codes "help";
  auto_clean_after = 30;
  qid_blacklist = record { memory = (5, codes "spam") ∷ []; table = [] };
  gid_blacklist = record { memory = []; table = [] };
}

abbrev user_info : UserInfo
user_info = record { user_id = 5; nickname = codes "eve"; sex = []; age = 0 }

abbrev now : ℕ → Bytes
now white = codes "today"

invite-IsGroupInvite : IsGroupInvite example_lib invite 5 70 (codes "f")
invite-IsGroupInvite = record {
  from_user = refl;
  to_group = refl;
  marked = refl;
  is_group = refl;
  is_invite = refl;
}

handle_group_invite_lem_example :
    (reason : Bytes) × (actions : List Action) × (b' : ApiBot example_lib) × (handle_group_invite
        example_lib now config self manage user_info invite
      ≡ ok actions)
    × (perform_all example_lib invite (λ i. i) 0 actions bot ≡ ok b')
    × AnswersWith example_lib
        (Groups.set_group_add_request example_lib
          (codes "f")
          (codes "invite")
          reason
          (accepts manage 5 70))
        bot
        b'
handle_group_invite_lem_example =
    handle_group_invite_lem example_lib now config self manage user_info invite 5 70 (codes "f")
      (λ i. i) bot invite-IsGroupInvite

abbrev friend : Value
friend = object_of (
    ("user_id", number 5)
    ∷ ("flag", text (codes "f"))
    ∷ ("request_type", text (codes "friend"))
    ∷ [])

friend-IsFriendInvite : IsFriendInvite example_lib friend 5 (codes "f")
friend-IsFriendInvite = record { from_user = refl; marked = refl; is_friend = refl }

handle_friend_invite_lem_example :
    (actions : List Action) × (b' : ApiBot example_lib) × (handle_friend_invite example_lib now
        config manage user_info friend
      ≡ ok actions)
    × (perform_all example_lib friend (λ i. i) 0 actions bot ≡ ok b')
    × FriendOutcome example_lib manage 5 (codes "f") bot b'
handle_friend_invite_lem_example =
    handle_friend_invite_lem example_lib now config manage user_info friend 5 (codes "f") (λ i. i)
      bot friend-IsFriendInvite

abbrev kick : Value
kick = object_of (("group_id", number 70) ∷ ("operator_id", number 8) ∷ [])

kicked_then_refused_example :
    (m' : Manage) × (told : List Action) × (reason : Bytes) × (actions : List Action) × (b' : ApiBot
      example_lib)
    × (handlekicked example_lib now config true false (codes "today") user_info kick manage
        ≡ ok (m', told))
    × (is_black 70 m'.gid_blacklist ≡ true)
    × (is_black 8 m'.qid_blacklist ≡ true)
    × (handle_group_invite example_lib now config self m' user_info invite ≡ ok actions)
    × (perform_all example_lib invite (λ i. i) 0 actions bot ≡ ok b')
    × AnswersWith example_lib
        (Groups.set_group_add_request example_lib (codes "f") (codes "invite") reason false)
        bot
        b'
kicked_then_refused_example =
    kicked_then_refused example_lib now config true false (codes "today") user_info user_info kick
      invite manage self 70 8 5 70 (codes "f") (λ i. i) bot refl refl invite-IsGroupInvite
      (inr refl)

abbrev strict : Manage
strict = record manage { reject_group_force_flag = true; add_group_flag = false }

strict_run : (a : Action) × (manage_option (codes "-gf") manage ≡ ok (strict, a ∷ []))
unfolding manage_option starts_with
strict_run = (_, refl)
