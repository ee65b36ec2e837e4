-- ===== src/Utility.antt =====
-- source/utility.h: `Replace` and `ReplaceAll`, which change a string in place.
pub mod ReplaceAll
mod Tests
use migang_bot_cpp.Base.{
  ℕ, zero, suc, ◌+◌, Bool, true, false, Option, none, some, List, [], ◌∷◌, ◌++◌, Bytes, length,
  take, drop, is_empty, if◌then◌else◌, Result, ok, fault, Fault,
}
use migang_bot_cpp.Strings.{find_sub}
use migang_bot_cpp.Message.{find_from}

-- `str.replace(pos, count, to)` at a position of the string
unfoldable pub replace_at : ℕ → ℕ → Bytes → Bytes → Bytes
replace_at pos count to str = take pos str ++ (to ++ drop (pos + count) str)

-- `Replace`
unfoldable pub replace : Bytes → Bytes → Bytes → Bytes × Bool
unfolding find_sub replace_at
replace str from to = elim (find_sub from str) [
  | none ↦ (str, false)
  | some start_pos ↦ (replace_at start_pos (length from) to str, true)
]

-- The loop of `ReplaceAll` from `start_pos`; the fuel bounds its rounds.
unfoldable pub replace_all_from : ℕ → Bytes → Bytes → ℕ → Bytes → Option Bytes
unfolding find_from replace_at
replace_all_from zero from to start_pos str = none
replace_all_from (suc fuel) from to start_pos str = elim (find_from str from start_pos) [
  | none ↦ some str
  | some pos ↦ replace_all_from fuel from to (pos + length to) (replace_at pos (length from) to str)
]

-- `ReplaceAll`: each round takes a piece of the string that was there at first, so there are at most
-- `size() + 1` of them.
unfoldable pub replace_all : Bytes → Bytes → Bytes → Option Bytes
unfolding replace_all_from
replace_all str from to =
    if is_empty from then some str else replace_all_from (length str + 1) from to 0 str
