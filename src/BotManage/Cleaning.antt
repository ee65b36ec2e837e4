-- ===== src/BotManage/Cleaning.antt =====
-- source/modules/module/botmanage: auto_clean_group.h, the groups that are left, and manage_bot.h, the
-- strict mode.
use migang_bot_cpp.Base.{
  ℕ, suc, ◌+◌, ◌*◌, ◌%◌, ◌^◌, ◌<◌, ◌≤◌, ◌≡◌, refl, sym, ap, ◌∙◌, Bool, true, false, ◌&&◌, List, [],
  append_assoc, append-nil, le→leb, ◌∷◌, ◌++◌, map, Bytes, codes, length, retain, leb, lt→ltb, All,
  Bool-cases, inl, inr, ok, arith,
}
use migang_bot_cpp.Json.{JsonLib, number_at}
use migang_bot_cpp.Strings.{starts_with}
use migang_bot_cpp.Permission.{BotConfig}
use migang_bot_cpp.ApiBot.{GroupInfo, GroupMemberInfo, Answer, Reply}
use migang_bot_cpp.ApiBot.Values.{default_value}
use migang_bot_cpp.Action.{Action, tell}
use migang_bot_cpp.BotManage.{Manage}
use migang_bot_cpp.BotManage.Options.{is_idle, leave_idle, clean_groups, do_clean, manage_option}

-- The groups that the calls leave.
abbrev left_by : Action → List ℕ
left_by (Action.set_group_leave group) = group ∷ []
left_by _ = []

abbrev pub left_groups : List Action → List ℕ
left_groups [] = []
left_groups (a ∷ actions) = left_by a ++ left_groups actions

-- The bot has sent nothing in the group for that many days, where the clock and the time of its last
-- message are below 2 ^ 31.
unfoldable pub silent : ℕ → (ℕ → ℕ) → (ℕ → GroupMemberInfo) → GroupInfo → Bool
silent days clock info g =
    leb ((info g.group_id).last_sent_time + 3600 * 24 * days) (clock g.group_id)

left_groups-append :
    (xs ys : List Action) → left_groups (xs ++ ys) ≡ left_groups xs ++ left_groups ys
left_groups-append [] ys = refl
left_groups-append (a ∷ xs) ys =
    ap (λ gs. left_by a ++ gs) (left_groups-append xs ys)
    ∙ sym (append_assoc (left_by a) (left_groups xs) (left_groups ys))

left_groups-around :
    (front middle back : List Action)
    → left_groups front ≡ []
    → left_groups back ≡ []
    → left_groups (front ++ middle ++ back) ≡ left_groups middle
left_groups-around front middle back none_first none_last =
    left_groups-append (front ++ middle) back
    ∙ ap (λ gs. left_groups (front ++ middle) ++ gs) none_last
    ∙ append-nil (left_groups (front ++ middle))
    ∙ left_groups-append front middle
    ∙ ap (λ gs. gs ++ left_groups middle) none_first

left_groups-tell : (whites : List ℕ) (message : ℕ → Bytes) → left_groups (tell whites message) ≡ []
unfolding tell
left_groups-tell [] message = refl
left_groups-tell (user ∷ whites) message = left_groups-tell whites message

abbrev time_of : Answer → ℕ
time_of (Answer.member_info info) = info.last_sent_time
time_of _ = 0

-- In strict mode no invitation is approved by itself.
abbrev pub IsStrict : Manage → Type 0
IsStrict m = m.reject_group_force_flag && m.add_group_flag ≡ false

-- `ManageBot::Handle` keeps the strict mode apart from the flag for invitations, and both black lists,
-- with every option but `-cag`.
pub manage_option-IsStrict :
    (option : Bytes) (m m' : Manage) (actions : List Action)
    → manage_option option m ≡ ok (m', actions)
    → starts_with (codes "-cag") option ≡ false
    → IsStrict m
    → IsStrict m' × (m'.qid_blacklist ≡ m.qid_blacklist) × (m'.gid_blacklist ≡ m.gid_blacklist)
unfolding manage_option
manage_option-IsStrict option m m' actions done other strict = ground arith

module _ (config : BotConfig) (days : ℕ) (clock : ℕ → ℕ) (info : ℕ → GroupMemberInfo) where
  left_groups-leave_idle :
      (group : ℕ) → left_groups (leave_idle config days clock info group) ≡ group ∷ []
  unfolding leave_idle
  left_groups-leave_idle group = ap (λ gs. group ∷ gs) (left_groups-tell config.superusers _)

  -- The answer about the bot in a group of the list has a time that an int holds.
  abbrev pub HasTime : GroupInfo → Type 0
  HasTime g = (info g.group_id).last_sent_time < 2 ^ 31

  is_idle-silent :
      (g : GroupInfo)
      → 3600 * 24 * days < 2 ^ 31
      → HasTime g
      → is_idle (clock g.group_id) (info g.group_id).last_sent_time days
        ≡ ok (silent days clock info g)
  unfolding is_idle silent
  is_idle-silent g few early =
      rw (lt→ltb (3600 * 24 * days) (2 ^ 31) few)
        (rw (lt→ltb (info g.group_id).last_sent_time (2 ^ 31) early) refl)

  count_one : (count n : ℕ) → ((count + 1) % 2 ^ 32 + n) % 2 ^ 32 ≡ (count + suc n) % 2 ^ 32
  count_one count n = omega arith

  left_groups-clean_groups :
      (self : ℕ) (groups : List GroupInfo) (count : ℕ)
      → 3600 * 24 * days < 2 ^ 31
      → All HasTime groups
      → count < 2 ^ 32
      → (actions : List Action) × (clean_groups config days clock info self groups count
          ≡ ok (actions, (count + length (retain (silent days clock info) groups)) % 2 ^ 32))
        × (left_groups actions ≡ map (λ g. g.group_id) (retain (silent days clock info) groups))
  unfolding clean_groups
  left_groups-clean_groups self [] count few early small =
      ([], ap (λ n. ok ([], n)) (omega arith), refl)
  left_groups-clean_groups self (g ∷ groups) count few (early, others) small =
      elim (Bool-cases (silent days clock info g)) [
        | inl idle ↦
            (let (actions, rest, gone) =
                left_groups-clean_groups self groups ((count + 1) % 2 ^ 32) few others
                  (omega arith) in
              rw (is_idle-silent g few early) (
                rw idle (
                  rw rest (
                    _,
                    ap
                        (λ n. ok (
                          Action.get_group_member_info g.group_id self
                                ∷ leave_idle config days clock info g.group_id
                              ++ actions,
                          n,
                        ))
                        (count_one count (length (retain (silent days clock info) groups))),
                    left_groups-append (leave_idle config days clock info g.group_id) actions
                        ∙ ap (λ gs. gs ++ left_groups actions) (left_groups-leave_idle g.group_id)
                        ∙ ap (λ gs. g.group_id ∷ gs) gone,
                  ))))
        | inr busy ↦
            (let (actions, rest, gone) =
                left_groups-clean_groups self groups count few others small in
              rw (is_idle-silent g few early) (rw busy (rw rest (_, refl, gone))))
      ]

  -- `DoClean`, with a limit of days whose seconds an int holds, ends without a fault: the groups that
  -- its calls leave are, in order, exactly those of the list in which the last message of the bot is
  -- that old by the answer about it.
  pub do_clean_lem :
      (lib : JsonLib) (groups : List GroupInfo) (event : lib.Json) (self : ℕ)
      → number_at lib event "self_id" ≡ ok self
      → 3600 * 24 * days < 2 ^ 31
      → All HasTime groups
      → (actions : List Action) × (do_clean config days clock info lib groups event ≡ ok actions)
        × (left_groups actions ≡ map (λ g. g.group_id) (retain (silent days clock info) groups))
  unfolding do_clean
  do_clean_lem lib groups event self from few early =
      let (actions, cleaned, gone) =
        left_groups-clean_groups self groups 0 few early (omega arith) in
      rw from (
        rw cleaned (
          _,
          refl,
          left_groups-around (Action.get_group_list ∷ tell config.superusers _) actions _
                (left_groups-tell config.superusers _) (left_groups-tell config.superusers _)
              ∙ gone,
        ))

-- Without an answer in time `get_group_member_info` gives the default, whose time is 0: the group then
-- counts as silent, once the clock is past the limit.
pub silent-default :
    (days : ℕ) (clock : ℕ → ℕ) (info : ℕ → GroupMemberInfo) (g : GroupInfo)
    → Answer.member_info (info g.group_id) ≡ default_value Reply.member_info
    → 3600 * 24 * days ≤ clock g.group_id
    → silent days clock info g ≡ true
unfolding silent default_value
silent-default days clock info g unanswered late =
    let never : (info g.group_id).last_sent_time ≡ 0 = ap time_of unanswered in
    rw never (le→leb (0 + 3600 * 24 * days) (clock g.group_id) (omega arith))
