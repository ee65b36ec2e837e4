-- ===== src/Zhanbu.antt =====
-- source/modules/module/eorzea_zhanbu: the fortune of a user for a day. This file has
-- eorzea_zhanbu.h and zhanbu_recorder.h. Random picks are arguments: `pick i n` is the index that the
-- i-th of them draws among n. So are the number of the day (MD5 and a generator), the time, and the
-- sentence that a web service gives. Times are nonnegative.
pub mod Slices
pub mod Columns
pub mod Days
pub mod Picks
mod Tests
use migang_bot_cpp.Base.{
  ℕ, zero, suc, ◌+◌, Bool, true, false, ◌&&◌, ◌||◌, Option, none, some, List, [], ◌∷◌, ◌++◌, Bytes,
  codes, utf8, bytes_beq, bytes_eq, nat_beq, nat_eq, ltb, leb, length, is_empty, is_some, lookup,
  insert, get_elem?, if◌then◌else◌, Result, ok, fault, Fault, or_fault, ◌>>=◌,
}
use migang_bot_cpp.Json.{JsonLib, number_at}
use migang_bot_cpp.Strings.{to_string, format}
use migang_bot_cpp.Action.{Action}
use migang_bot_cpp.BotManage.Commands.{say_to, plain_text}

pub record EorzeaZhanbu : Type 0 where
  pub occupations : List Bytes
  pub dye : List Bytes
  pub events : List Bytes
  pub luck_yi_reply : List (Bytes × List Bytes)
  pub luck_ji_reply : List (Bytes × List Bytes)
  pub exception_msg : List Bytes
  pub occupation_basemaps : List (Bytes × List Bytes)

-- The arguments of `Draw`.
pub record Drawing : Type 0 where
  pub luck : Bytes
  pub yi : Bytes
  pub ji : Bytes
  pub dye : Bytes
  pub append_msg : Bytes
  pub basemap : Bytes

-- A row of `ZhanbuResults`, without its key `UID`.
pub record Row : Type 0 where
  pub luck : Bytes
  pub yi : Bytes
  pub ji : Bytes
  pub dye : Bytes
  pub append_msg : Bytes
  pub basemap : Bytes
  pub expire_time : ℕ

-- `*select_randomly(begin, end)`; nothing can be picked of an empty range.
unfoldable pub select_randomly : (ℕ → ℕ → ℕ) → ℕ → List Bytes → Result Bytes
select_randomly pick i xs = or_fault (get_elem? xs (pick i (length xs))) Fault.undefined

-- The loop `while (luck_yi == luck_ji)`, from its i-th pick; `none` if the fuel does not reach its
-- end.
unfoldable pub pick_ji : ℕ → (ℕ → ℕ → ℕ) → ℕ → List Bytes → Bytes → Bytes → Result (Option Bytes)
unfolding select_randomly
pick_ji zero pick i events luck_yi luck_ji = ok none
pick_ji (suc fuel) pick i events luck_yi luck_ji =
    if bytes_beq luck_yi luck_ji
    then (do other ← select_randomly pick i events; pick_ji fuel pick (i + 1) events luck_yi other)
    else ok (some luck_ji)

abbrev pub all_good : Bytes
all_good = utf8 "诸事皆宜"

abbrev pub nothing : Bytes
nothing = utf8 "无"

-- The two fortunes of the day from the two events.
unfoldable pub settle : Bytes → Bytes → Bytes × Bytes
settle luck_yi luck_ji =
    if bytes_beq luck_yi all_good
    then (luck_yi, nothing)
    else if bytes_beq luck_ji all_good
    then (all_good, nothing)
    else (luck_yi, luck_ji)

-- `luck_yi_reply_.at(event)` where `count(event)` said that it is there
abbrev pub replies : Bytes → List (Bytes × List Bytes) → List Bytes
replies event m = elim (lookup event m) [ some l ↦ l | none ↦ [] ]

-- The choice of `append_msg`; `coin` is `GetRandomNum(0, 1)`, and pick 0 is the pick of the branch.
unfoldable pub append_message :
    EorzeaZhanbu → (ℕ → ℕ → ℕ) → ℕ → Bytes → ℕ → Bytes → Bytes → Bytes → Result Bytes
unfolding select_randomly
append_message z pick coin hitokoto luck occupation luck_yi luck_ji =
    if nat_beq luck 100
    then ok (utf8 "是欧皇中的欧皇！")
    else if nat_beq luck 0
    then ok (utf8 "非极必欧！")
    else if ltb 94 luck
    then ok (utf8 "是欧皇哦~")
    else if ltb luck 6
    then ok (utf8 "是非酋呢~")
    else if bytes_beq occupation (utf8 "舞者") && leb 50 luck
    then (do partner ← select_randomly pick 0 z.occupations; ok (utf8 "最佳舞伴->" ++ partner))
    else if is_some (lookup luck_yi z.luck_yi_reply) && is_some (lookup luck_ji z.luck_ji_reply)
    then (if nat_beq coin 0
        then select_randomly pick 0 (replies luck_yi z.luck_yi_reply)
        else select_randomly pick 0 (replies luck_ji z.luck_ji_reply))
    else if is_some (lookup luck_yi z.luck_yi_reply)
    then select_randomly pick 0 (replies luck_yi z.luck_yi_reply)
    else if is_some (lookup luck_ji z.luck_ji_reply)
    then select_randomly pick 0 (replies luck_ji z.luck_ji_reply)
    else ok (codes "\"" ++ hitokoto ++ codes "\"")

-- What the random parts of a call of `GetZhanbuResult` give.
pub record Chance : Type 0 where
  pub luck : ℕ
  pub pick : ℕ → ℕ → ℕ
  pub pick_reply : ℕ → ℕ → ℕ
  pub coin : ℕ
  pub hitokoto : Bytes

-- `GetZhanbuResult`: the picks 0 to 3 are those before the loop. `none` if the fuel does not reach
-- the end of the loop. The drawing has the occupation in place of the base map.
unfoldable pub get_zhanbu_result : ℕ → EorzeaZhanbu → Chance → Result (Option Drawing)
unfolding select_randomly pick_ji settle append_message
get_zhanbu_result fuel z chance = do
  luck_occupation ← select_randomly chance.pick 0 z.occupations
  luck_dye ← select_randomly chance.pick 1 z.dye
  first_yi ← select_randomly chance.pick 2 z.events
  first_ji ← select_randomly chance.pick 3 z.events
  picked ← pick_ji fuel chance.pick 4 z.events first_yi first_ji
  elim picked [
    | none ↦ ok none
    | some other_ji ↦
        (let (luck_yi, luck_ji) = settle first_yi other_ji in
          do
            append_msg ←
                append_message z chance.pick_reply chance.coin chance.hitokoto chance.luck
                  luck_occupation luck_yi luck_ji
            ok (
                some (record {
                  luck = to_string chance.luck ++ codes "%";
                  yi = utf8 "宜 " ++ luck_yi;
                  ji = utf8 "忌 " ++ luck_ji;
                  dye = luck_dye;
                  append_msg = append_msg;
                  basemap = luck_occupation;
                })))
  ]

-- `GetBasemap`: `at` throws for an occupation without base maps.
unfoldable pub get_basemap : EorzeaZhanbu → (ℕ → ℕ → ℕ) → Bytes → Result Bytes
unfolding select_randomly
get_basemap z pick occupation = do
  files ← or_fault (lookup occupation z.occupation_basemaps) Fault.out_of_range
  select_randomly pick 0 files

-- `RecordZhanbu`: an insertion or an update of the row of the user, if the statements work.
unfoldable pub record_zhanbu : Bool → ℕ → Row → List (ℕ × Row) → List (ℕ × Row)
record_zhanbu works uid row rows = if works then insert uid row rows else rows

-- `GetZhanbuRecord`: its seven components in their order, the message before the dye; empty texts
-- and 0 without a row.
abbrev pub Record : Type 0
Record = Bytes × Bytes × Bytes × Bytes × Bytes × Bytes × ℕ

unfoldable pub get_zhanbu_record : ℕ → List (ℕ × Row) → Record
get_zhanbu_record uid rows = elim (lookup uid rows) [
  | none ↦ ([], [], [], [], [], [], 0)
  | some row ↦ (row.luck, row.yi, row.ji, row.append_msg, row.dye, row.basemap, row.expire_time)
]

-- The row of a drawing.
abbrev pub row_of : ℕ → Drawing → Row
row_of last_second d = record {
  luck = d.luck;
  yi = d.yi;
  ji = d.ji;
  dye = d.dye;
  append_msg = d.append_msg;
  basemap = d.basemap;
  expire_time = last_second;
}

-- What `GetEorzeaZhanbu` does with a new result; the base path stands before each base map.
unfoldable pub keep_drawing :
    EorzeaZhanbu
    → (ℕ → ℕ → ℕ)
    → Bool
    → ℕ
    → ℕ
    → List (ℕ × Row)
    → Option Drawing
    → Result (Option (List (ℕ × Row) × Drawing))
unfolding get_basemap record_zhanbu
keep_drawing z pick_map works last_second uid rows none = ok none
keep_drawing z pick_map works last_second uid rows (some d) = do
  file ← get_basemap z pick_map d.basemap
  let drawn = record d { basemap = d.basemap ++ codes "/" ++ file }
  ok (some (record_zhanbu works uid (row_of last_second drawn) rows, drawn))

-- `GetEorzeaZhanbu` without a row of the day, up to the arguments of `Draw`
unfoldable pub new_zhanbu :
    ℕ
    → EorzeaZhanbu
    → Chance
    → (ℕ → ℕ → ℕ)
    → Bool
    → ℕ
    → ℕ
    → List (ℕ × Row)
    → Result (Option (List (ℕ × Row) × Drawing))
unfolding get_zhanbu_result keep_drawing
new_zhanbu fuel z chance pick_map works last_second uid rows =
    get_zhanbu_result fuel z chance >>= keep_drawing z pick_map works last_second uid rows

-- `GetEorzeaZhanbu` with the record; its components go to `Draw` in their order.
unfoldable pub zhanbu_with :
    Record
    → ℕ
    → EorzeaZhanbu
    → Chance
    → (ℕ → ℕ → ℕ)
    → Bool
    → ℕ
    → ℕ
    → ℕ
    → List (ℕ × Row)
    → Result (Option (List (ℕ × Row) × Drawing))
unfolding new_zhanbu
zhanbu_with (r0, r1, r2, r3, r4, r5, r6) fuel z chance pick_map works cur_time last_second uid
      rows =
    if nat_beq r6 0 || leb r6 cur_time
    then new_zhanbu fuel z chance pick_map works last_second uid rows
    else ok (
        some
          (rows, record { luck = r0; yi = r1; ji = r2; dye = r3; append_msg = r4; basemap = r5 }))

-- `GetEorzeaZhanbu`; `last_second` is `LastSecondOfToday()`.
unfoldable pub get_eorzea_zhanbu :
    ℕ
    → EorzeaZhanbu
    → Chance
    → (ℕ → ℕ → ℕ)
    → Bool
    → ℕ
    → ℕ
    → ℕ
    → List (ℕ × Row)
    → Result (Option (List (ℕ × Row) × Drawing))
unfolding zhanbu_with get_zhanbu_record
get_eorzea_zhanbu fuel z chance pick_map works cur_time last_second uid rows =
    zhanbu_with (get_zhanbu_record uid rows) fuel z chance pick_map works cur_time last_second uid
      rows

-- The comment of `GetEventZhanbu`
unfoldable pub luck_comment : ℕ → Bytes
luck_comment luck_today =
    if leb luck_today 20
    then utf8 "大凶"
    else if leb luck_today 40
    then utf8 "凶"
    else if leb luck_today 60
    then utf8 "小吉"
    else if leb luck_today 80
    then utf8 "中吉"
    else utf8 "大吉"

-- `GetEventZhanbu`, with its number.
unfoldable pub get_event_zhanbu : ℕ → Bytes → Bytes
unfolding luck_comment
get_event_zhanbu luck_today thing = format (
    utf8 "占卜["
    ∷ thing
    ∷ codes "]:\n    "
    ∷ luck_comment luck_today
    ∷ codes "("
    ∷ to_string luck_today
    ∷ codes ")"
    ∷ [])

module _ (lib : JsonLib) where
  open lib use {Json}

  -- `Zhanbu`; `picture` is what `Draw` gives for a user, and `msg_id` the answer to the message.
  unfoldable pub zhanbu :
      EorzeaZhanbu → (ℕ → ℕ → ℕ) → ℕ → (ℕ → Result Bytes) → ℕ → Json → Result (List Action)
  unfolding get_event_zhanbu select_randomly
  zhanbu z pick luck_today picture msg_id event = do
    text ← plain_text lib event
    user ← number_at lib event "user_id"
    message ← if is_empty text then picture user else ok (get_event_zhanbu luck_today text)
    if nat_beq msg_id 0
        then (do
          sorry ← select_randomly pick 0 z.exception_msg
          ok (say_to message ∷ say_to sorry ∷ []))
        else ok (say_to message ∷ [])
