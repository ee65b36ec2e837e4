-- ===== src/BotManage.antt =====
-- source/modules/module/botmanage: the modules by which the bot is managed. This file has the state
-- that they share, config.h and config.cpp: the flags and the two black lists, each kept in memory
-- and in a table of the database.
pub mod Invite
pub mod Restart
pub mod Refusals
pub mod Kicked
pub mod Commands
pub mod Options
pub mod Feedback
pub mod Replies
pub mod Sv
pub mod Switching
pub mod Cleaning
mod Tests
mod TextTests
use migang_bot_cpp.Base.{
  ℕ, Bool, true, false, List, [], ◌∷◌, ◌++◌, Bytes, nat_eq, lookup, insert, erase, is_some,
  if◌then◌else◌,
}

-- `Qid_blacklist` with `BlackListQQ`, or `Gid_blacklist` with `BlackListGroup`: reasons by id. `UID`
-- and `GID` are the primary keys of their tables.
pub record BlackList : Type 0 where
  pub memory : List (ℕ × Bytes)
  pub table : List (ℕ × Bytes)

pub record Manage : Type 0 where
  pub add_friend_flag : Bool
  pub add_group_flag : Bool
  pub reject_group_force_flag : Bool
  pub help_msg_group : Bytes
  pub help_msg_friend : Bytes
  pub auto_clean_after : ℕ
  pub qid_blacklist : BlackList
  pub gid_blacklist : BlackList

-- `std::unordered_map::emplace`: an entry that is there stays.
abbrev pub map_emplace : ℕ → Bytes → List (ℕ × Bytes) → List (ℕ × Bytes)
map_emplace id reason m = if is_some (lookup id m) then m else insert id reason m

-- `LoadFromQQTable`, `LoadFromGroupTable`: the rows of the table, each emplaced.
unfoldable pub load_from_table : List (ℕ × Bytes) → List (ℕ × Bytes) → List (ℕ × Bytes)
load_from_table [] m = m
load_from_table ((id, reason) ∷ rows) m = load_from_table rows (map_emplace id reason m)

-- `UPDATE ... SET reason WHERE id`
unfoldable pub update_rows : ℕ → Bytes → List (ℕ × Bytes) → List (ℕ × Bytes)
unfolding insert
update_rows id reason rows = insert id reason rows

-- `AddToQQTable`, `AddToGroupTable`; `works` says whether the statements succeed, `false` that one of
-- them throws.
unfoldable pub add_to_table : Bool → ℕ → Bytes → List (ℕ × Bytes) → List (ℕ × Bytes) × Bool
unfolding update_rows
add_to_table works id reason rows =
    if works
    then (if is_some (lookup id rows)
        then (update_rows id reason rows, true)
        else (rows ++ (id, reason) ∷ [], true))
    else (rows, false)

-- `DelFromQQTable`, `DelFromGroupTable`
unfoldable pub del_from_table : Bool → ℕ → List (ℕ × Bytes) → List (ℕ × Bytes) × Bool
del_from_table works id rows = if works then (erase id rows, true) else (rows, false)

-- `AddToQQBlackList`, `AddToGroupBlackList`
unfoldable pub add_to_black_list : Bool → ℕ → Bytes → BlackList → BlackList
unfolding add_to_table
add_to_black_list works id reason l = record {
  memory = insert id reason l.memory;
  table = (add_to_table works id reason l.table).0;
}

-- `DelFromQQBlackList`, `DelFromGroupBlackList`
unfoldable pub del_from_black_list : Bool → ℕ → BlackList → BlackList × Bool
unfolding del_from_table
del_from_black_list works id l =
    if is_some (lookup id l.memory)
    then (record { memory = erase id l.memory; table = (del_from_table works id l.table).0 }, true)
    else (l, false)

-- `IsBlackUser`, `IsBlackGroup`
unfoldable pub is_black : ℕ → BlackList → Bool
is_black id l = is_some (lookup id l.memory)

-- `Init` on the tables that are there: the black lists of a new process.
unfoldable pub init : BlackList → BlackList
unfolding load_from_table
init l = record { memory = load_from_table l.table []; table = l.table }
