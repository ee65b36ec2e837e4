-- ===== src/ApiBot/Values.antt =====
-- source/bot/onebot_11/desired_value.h and default_value.h: the answers of the API.
use migang_bot_cpp.Base.{ℕ, zero, suc, ◌+◌, false, List, [], ◌∷◌, Result, ok, ◌>>=◌, fault, Fault}
use migang_bot_cpp.Json.{JsonLib, string_at, number_at, int_at, bool_at}
use migang_bot_cpp.ApiBot.{GroupInfo, UserInfo, GroupMemberInfo, Reply, Answer}

module _ (lib : JsonLib) where
  open lib use {Json, size, elem}

  unfoldable pub group_info_of : Json → Result GroupInfo
  group_info_of j = do
    group_id ← number_at lib j "group_id"
    group_name ← string_at lib j "group_name"
    member_count ← int_at lib j "member_count"
    max_member_count ← int_at lib j "max_member_count"
    ok (record {
      group_id = group_id;
      group_name = group_name;
      member_count = member_count;
      max_member_count = max_member_count;
    })

  unfoldable pub user_info_of : Json → Result UserInfo
  user_info_of j = do
    user_id ← number_at lib j "user_id"
    nickname ← string_at lib j "nickname"
    sex ← string_at lib j "sex"
    age ← int_at lib j "age"
    ok (record { user_id = user_id; nickname = nickname; sex = sex; age = age })

  -- The loop over the elements from `i`.
  unfoldable pub group_list_from : ℕ → ℕ → Json → Result (List GroupInfo)
  unfolding group_info_of
  group_list_from zero i j = ok []
  group_list_from (suc left) i j = do
    info ← group_info_of (elem j i)
    rest ← group_list_from left (i + 1) j
    ok (info ∷ rest)

  unfoldable pub member_info_of : Json → Result GroupMemberInfo
  member_info_of j = do
    group_id ← number_at lib j "group_id"
    user_id ← number_at lib j "user_id"
    nickname ← string_at lib j "nickname"
    card ← string_at lib j "card"
    sex ← string_at lib j "sex"
    age ← int_at lib j "age"
    area ← string_at lib j "area"
    join_time ← int_at lib j "join_time"
    last_sent_time ← int_at lib j "last_sent_time"
    level ← string_at lib j "level"
    role ← string_at lib j "role"
    unfriendly ← bool_at lib j "unfriendly"
    title ← string_at lib j "title"
    title_expire_time ← int_at lib j "title_expire_time"
    card_changeable ← bool_at lib j "card_changeable"
    ok (record {
      group_id = group_id;
      user_id = user_id;
      nickname = nickname;
      card = card;
      sex = sex;
      age = age;
      area = area;
      join_time = join_time;
      last_sent_time = last_sent_time;
      level = level;
      role = role;
      unfriendly = unfriendly;
      title = title;
      title_expire_time = title_expire_time;
      card_changeable = card_changeable;
    })

  -- `DesiredValue`; it has no case for texts.
  unfoldable pub desired_value : Reply → Json → Result Answer
  unfolding group_info_of user_info_of group_list_from member_info_of
  desired_value Reply.message_id j = int_at lib j "message_id" >>= λ n. ok (Answer.message_id n)
  desired_value Reply.group_info j = group_info_of j >>= λ info. ok (Answer.group_info info)
  desired_value Reply.user_info j = user_info_of j >>= λ info. ok (Answer.user_info info)
  desired_value Reply.group_list j =
      group_list_from (size j) 0 j >>= λ infos. ok (Answer.group_list infos)
  desired_value Reply.member_info j = member_info_of j >>= λ info. ok (Answer.member_info info)
  desired_value Reply.text j = fault Fault.undefined

-- `DefaultValue`
unfoldable pub default_value : Reply → Answer
default_value Reply.message_id = Answer.message_id 0
default_value Reply.text = Answer.text []
default_value Reply.group_info =
    Answer.group_info
      (record { group_id = 0; group_name = []; member_count = 0; max_member_count = 0 })
default_value Reply.user_info =
    Answer.user_info (record { user_id = 0; nickname = []; sex = []; age = 0 })
default_value Reply.group_list = Answer.group_list []
default_value Reply.member_info = Answer.member_info (record {
  group_id = 0;
  user_id = 0;
  nickname = [];
  card = [];
  sex = [];
  age = 0;
  area = [];
  join_time = 0;
  last_sent_time = 0;
  level = [];
  role = [];
  unfriendly = false;
  title = [];
  title_expire_time = 0;
  card_changeable = false;
})
