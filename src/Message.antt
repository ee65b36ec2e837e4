-- ===== src/Message.antt =====
-- source/message/utility.h, namespace message: unescaping CQ codes, the text of a command, splitting
-- and stripping. Every function is `noexcept`: a fault is the end of the process. A stripping
-- function that takes a view by reference is one that returns the new view.
pub mod Strip
pub mod Unescape
pub mod Split
pub mod PlainText
mod Tests
use migang_bot_cpp.Base.{
  ℕ, zero, suc, ◌+◌, ◌-◌, ◌%◌, ◌^◌, min, Bool, true, false, Option, none, some, List, [], ◌∷◌, ◌++◌,
  Bytes, codes, nat_beq, ltb, length, take, drop, if◌then◌else◌, Result, ok, fault, Fault, ◌>>=◌,
}
use migang_bot_cpp.Json.{JsonLib, string_at, number_at}
use migang_bot_cpp.Strings.{
  npos, to_size, sub_size, find_first_of, find_first_not_of, find_last_not_of, find_sub, substr,
  remove_prefix, remove_suffix, replace_from,
}

-- `std::regex_replace(s, std::regex(pattern), by)` for a pattern without special characters.
abbrev pub replace_all : Bytes → Bytes → Bytes → Bytes
replace_all pattern by s = replace_from pattern by 0 s

-- `Unescape`
unfoldable pub unescape : Bytes → Bytes
unfolding replace_from
unescape s = replace_all (codes "&amp;") (codes "&") (
    replace_all (codes "&#93;") (codes "]")
      (replace_all (codes "&#91;") (codes "[") (replace_all (codes "&#44;") (codes ",") s)))

-- `view.find(delimiter, pos)`
abbrev pub plus_index : ℕ → Option ℕ → Option ℕ
plus_index n none = none
plus_index n (some i) = some (n + i)

unfoldable pub find_from : Bytes → Bytes → ℕ → Option ℕ
unfolding find_sub
find_from view delimiter pos =
    if ltb (length view) pos then none else plus_index pos (find_sub delimiter (drop pos view))

-- The loop of `Split` from `pos`; the fuel bounds its rounds.
unfoldable pub split_from : ℕ → Bytes → Bytes → ℕ → Result (List Bytes)
unfolding find_from substr
split_from zero view delimiter pos = fault Fault.undefined
split_from (suc fuel) view delimiter pos = elim (find_from view delimiter pos) [
  | none ↦ do last ← substr view pos npos; ok (last ∷ [])
  | some new_pos ↦ do
    piece ← substr view pos (sub_size new_pos pos)
    rest ← split_from fuel view delimiter (new_pos + 1)
    ok (piece ∷ rest)
]

-- `Split`: the position grows in each round, so there are at most `size() + 2` of them.
unfoldable pub split : Bytes → Bytes → Result (List Bytes)
split view delimiter = split_from (length view + 2) view delimiter 0

-- `ExtraPlainText(std::string_view &)`
unfoldable pub extra_plain_text_view : Bytes → Result Bytes
extra_plain_text_view s = substr s (min ((find_first_of b' ' s + 1) % 2 ^ 64) (length s)) npos

module _ (lib : JsonLib) where
  open lib use {Json, contains}

  -- The cut of `ExtraPlainText` by `command_size`, the low 16 bits read as a `short`.
  unfoldable pub cut_command : ℕ → Bytes → Result Bytes
  cut_command command_size view =
      if nat_beq command_size 0
      then ok view
      else if ltb command_size (2 ^ 15)
      then remove_prefix command_size view
      else remove_suffix (2 ^ 16 - command_size) view

  -- `ExtraPlainText(const Event &)`
  unfoldable pub extra_plain_text : Json → Result Bytes
  extra_plain_text event = do
    raw ← string_at lib event "message"
    let view = unescape raw
    if contains event "__command_size__"
        then (do n ← number_at lib event "__command_size__"; cut_command (n % 2 ^ 16) view)
        else ok view

-- `LStrip`, on a view and on a string
unfoldable pub lstrip : ℕ → Bytes → Result Bytes
lstrip ch s = remove_prefix (min (find_first_not_of ch s) (length s)) s

-- `RStrip(std::string_view &, char)`
unfoldable pub rstrip_view : ℕ → Bytes → Result Bytes
rstrip_view ch s = remove_suffix (min (sub_size (length s) (find_last_not_of ch s)) (length s)) s

-- `RStrip(const std::string &, char)`
unfoldable pub rstrip : ℕ → Bytes → Result Bytes
rstrip ch s =
    remove_suffix (min (sub_size (sub_size (length s) (find_last_not_of ch s)) 1) (length s)) s

-- `Strip`, on a view and on a string
unfoldable pub strip : ℕ → Bytes → Result Bytes
unfolding lstrip rstrip
strip ch s = do view ← lstrip ch s; rstrip ch view
