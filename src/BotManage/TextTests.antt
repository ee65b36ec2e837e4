-- ===== src/BotManage/TextTests.antt =====
-- source/modules/module/botmanage: commands with a text, on concrete events.
use migang_bot_cpp.Base.{
  ℕ, ◌+◌, ◌<◌, ◌≡◌, refl, inl, inr, true, false, none, some, [], ◌∷◌, ◌++◌, List, Bytes, codes,
  utf8, nat_eq, arith, lookup, length, map, retain, member, leb, all, Result, ok, ◌⊎◌, bytes_beq,
  Option, ltb, ◌^◌, if◌then◌else◌,
}
use migang_bot_cpp.Json.Example.{Value, text, number, object_of, example_lib}
use migang_bot_cpp.Strings.{
  npos, starts_with, substr, to_string, find_first_not_of, find_last_not_of, find_index,
  find_first_of, find_last_index, remove_prefix, remove_suffix, replace_from,
}
use migang_bot_cpp.Strings.Numbers.{is_digit_str, atoll, parse_digits}
use migang_bot_cpp.Permission.{BotConfig, get_user_permission}
use migang_bot_cpp.Trie.{Ref}
use migang_bot_cpp.Service.{Service}
use migang_bot_cpp.ServiceManager.{World, ServiceManager, check_service, equal_range}
use migang_bot_cpp.ServiceManager.Switches.{Effect}
use migang_bot_cpp.ApiBot.{GroupInfo, GroupMemberInfo}
use migang_bot_cpp.Message.{strip, lstrip, rstrip, extra_plain_text, unescape}
use migang_bot_cpp.Action.{Action, tell}
use migang_bot_cpp.BotManage.{BlackList, add_to_black_list}
use migang_bot_cpp.BotManage.Commands.{say_to, plain_text, black_from, skip_spaces}
use migang_bot_cpp.BotManage.Options.{do_clean}
use migang_bot_cpp.BotManage.Cleaning.{left_groups, silent, do_clean_lem}
use migang_bot_cpp.BotManage.Feedback.{
  Feedbacks, Row, select_row, notice_in, sent_to, feedback_send, reply_to,
}
use migang_bot_cpp.BotManage.Replies.{IsIntColumn, send_then_reply}
use migang_bot_cpp.BotManage.Sv.{success, handle_enable_sv}
use migang_bot_cpp.BotManage.Switching.{handle_enable_sv-Effect}

abbrev config : BotConfig
config = record { bot_name = codes "bot"; superusers = 1 ∷ []; white_list = [] }

-- A message of the user 5 in the group 70.
abbrev saying : Bytes → Value
saying said = object_of (
    ("user_id", number 5)
    ∷ ("self_id", number 2)
    ∷ ("group_id", number 70)
    ∷ ("message_type", text (codes "group"))
    ∷ ("message", text said)
    ∷ [])

says : plain_text example_lib (saying (codes "echo")) ≡ ok (codes "echo")
unfolding extra_plain_text unescape replace_from strip lstrip rstrip find_first_not_of
    find_last_not_of find_index find_last_index remove_prefix remove_suffix starts_with
says = refl

abbrev group : GroupInfo
group = record { group_id = 70; group_name = codes "team"; member_count = 3; max_member_count = 9 }

abbrev empty_row : Row
empty_row = record { id = 0; time = []; uid = 0; gid = 0; content = [] }

abbrev feedbacks : Feedbacks
feedbacks = record { rows = record empty_row { id = 3; uid = 8 } ∷ []; next_id = 4 }

abbrev answer : Bytes
answer = codes "4 ok"

cut : substr answer 1 npos ≡ ok (codes " ok")
unfolding substr
cut = refl

stripped : strip b' ' (codes " ok") ≡ ok (codes "ok")
unfolding strip lstrip rstrip find_first_not_of find_last_not_of find_index find_last_index
    remove_prefix remove_suffix
stripped = refl

-- In strict mode the columns refuse what they cannot hold.
abbrev strict_column : ℕ → Option ℕ
strict_column n = if ltb n (2 ^ 31) then some n else none

strict_column-IsIntColumn : IsIntColumn strict_column
strict_column-IsIntColumn n small = ground (arith, small)

abbrev kept : Row
kept = record { id = 4; time = codes "today"; uid = 5; gid = 70; content = codes "echo" }

send_then_reply_example :
    (f' : Feedbacks) × (message : Bytes) × (done : Bytes) × (feedback_send example_lib config
        (codes "today")
        group
        true
        strict_column
        (saying (codes "echo"))
        feedbacks
      ≡ ok (
        f',
        Action.get_group_info 70
              ∷ tell config.superusers (λ white.
                notice_in example_lib
                  (to_string 4)
                  (codes "today")
                  (utf8 "#未知昵称#")
                  5
                  group
                  70
                  (codes "echo"))
            ++ say_to (sent_to example_lib (to_string 4) (codes "echo")) ∷ [],
      ))
    × (select_row 4 f'.rows ≡ some kept)
    × (reply_to example_lib empty_row answer (codes "4") (to_string 4) f'
        ≡ ok (Action.send_group_msg 5 message ∷ Action.send done true false ∷ []))
send_then_reply_example =
    send_then_reply example_lib config strict_column (codes "today") (utf8 "#未知昵称#") (codes "echo")
      group (saying (codes "echo")) 5 70 feedbacks empty_row answer (codes "4") (codes " ok")
      (codes "ok") strict_column-IsIntColumn (omega arith, tt) (omega arith) refl refl (omega arith)
      (omega arith) says refl refl refl (omega arith) cut stripped

abbrev member_info : GroupMemberInfo
member_info = record {
  group_id = 70;
  user_id = 2;
  nickname = [];
  card = [];
  sex = [];
  age = 0;
  area = [];
  join_time = 0;
  last_sent_time = 1000;
  level = [];
  role = [];
  unfriendly = false;
  title = [];
  title_expire_time = 0;
  card_changeable = false;
}

do_clean_lem_example :
    (actions : List Action) × (do_clean config 30
        (λ g. 3000000)
        (λ g. member_info)
        example_lib
        (group ∷ [])
        (saying [])
      ≡ ok actions)
    × (left_groups actions
        ≡ map (λ g. g.group_id) (retain (silent 30 (λ g. 3000000) (λ g. member_info)) (group ∷ [])))
do_clean_lem_example =
    do_clean_lem config 30 (λ g. 3000000) (λ g. member_info) example_lib (group ∷ []) (saying []) 2
      refl (omega arith) (omega arith, tt)

abbrev echo : Service
echo = record {
  service_name = codes "echo";
  description = [];
  manage_permission = 3;
  enable_on_default = false;
  groups = [];
  config = record { enable_on_default = some false; groups = [] };
  use_permission = 1;
  only_to_me = false;
}

abbrev world : World
world = record { heap = λ r. echo; disk = [] }

abbrev manager : ServiceManager
manager = record { service_name_map = (codes "echo", 6) ∷ []; bundle_service_map = [] }

level : get_user_permission example_lib config (saying (codes "echo")) ≡ ok 3
unfolding get_user_permission migang_bot_cpp.Permission.sender_permission member
level = refl

known : check_service (codes "echo") manager ≡ true
unfolding check_service lookup bytes_beq
known = refl

handle_enable_sv-Effect_example :
    let rs = equal_range (codes "echo") manager.service_name_map in
    (w' : World) × (message : Bytes) × (handle_enable_sv example_lib config
        (saying (codes "echo"))
        manager
        world
      ≡ ok (w', Action.send_group_msg 70 message ∷ []))
    × ((x : Ref)
        → Effect true 70
            (member x rs)
            (leb (world.heap x).manage_permission 3)
            (world.heap x)
            (w'.heap x))
    × (((all (λ r. leb (world.heap r).manage_permission 3) rs ≡ true)
          × (message ≡ success "启用" (codes "echo")))
        ⊎ (all (λ r. leb (world.heap r).manage_permission 3) rs ≡ false))
handle_enable_sv-Effect_example =
    handle_enable_sv-Effect example_lib config (saying (codes "echo")) manager world 70 3
      (codes "echo") refl refl says refl level known (λ x. omega arith)

-- Without a reason the number itself becomes the reason.
black_without_reason :
    (a : Action) × (black_from true
        (codes "(Q)")
        ""
        ""
        2
        (codes "qq 123")
        (record { memory = []; table = [] })
      ≡ ok (record { memory = (123, codes "123") ∷ []; table = (123, codes "123") ∷ [] }, a))
unfolding black_from skip_spaces find_index remove_prefix substr find_first_of lstrip
    find_first_not_of is_digit_str atoll parse_digits add_to_black_list
    migang_bot_cpp.BotManage.add_to_table lookup migang_bot_cpp.Base.insert
black_without_reason = (_, refl)
