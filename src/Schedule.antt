-- ===== src/Schedule.antt =====
-- source/service/schedule_service.h: the services that a timer runs, which send to the groups in
-- which they are enabled. The answer to `get_group_list` is an argument, as are the codes of the
-- messages; a message that is moved out of (an rvalue that is forwarded in a loop) is then `moved`.
pub mod Broadcast
use migang_bot_cpp.Base.{
  ℕ, zero, suc, ◌+◌, Bool, true, false, not, List, [], ◌∷◌, Bytes, nat_eq, member, length,
  if◌then◌else◌, Result,
}
use migang_bot_cpp.Json.{JsonLib}
use migang_bot_cpp.Permission.{always_on}
use migang_bot_cpp.Service.{Service, Disk, make_service, load_config}
use migang_bot_cpp.ApiBot.{ApiBot, GroupInfo}
use migang_bot_cpp.ApiBot.Calls.{send_group_msg}

-- The constructor: a `Service`, without the fields of a `TriggeredService`.
unfoldable pub make_schedule_service : Bytes → Bytes → ℕ → Bool → Disk → Result (Service × Disk)
make_schedule_service name description manage_permission enable_on_default disk =
    make_service name description 0 manage_permission enable_on_default false disk

-- `transform_if` with the two functions of `GetEnableGroup`
unfoldable pub transform_if : List ℕ → List GroupInfo → List ℕ
transform_if groups [] = []
transform_if groups (info ∷ infos) =
    let rest = transform_if groups infos in
    if not (member info.group_id groups) then info.group_id ∷ rest else rest

-- `GetEnableGroup`
unfoldable pub get_enable_group : List GroupInfo → Service → List ℕ
unfolding transform_if
get_enable_group infos s = if not s.enable_on_default then s.groups else transform_if s.groups infos

module _ (lib : JsonLib) (codes : ℕ → ℕ) where
  -- The loop over the groups; `i` counts the messages that were sent.
  unfoldable pub send_to : ℕ → Bytes → Bytes → List ℕ → ApiBot lib → ApiBot lib
  unfolding send_group_msg
  send_to i message after [] b = b
  send_to i message after (group ∷ groups) b =
      send_to (i + 1) after after groups (send_group_msg lib (codes i) group message false b).0

  -- `BroadCast(bot, message)`: of an lvalue with `moved` the message itself, of an rvalue with
  -- `moved` what is left of it.
  unfoldable pub broad_cast : Bytes → Bytes → List GroupInfo → Service → ApiBot lib → ApiBot lib
  unfolding send_to get_enable_group
  broad_cast message moved infos s b = send_to 0 message moved (get_enable_group infos s) b

  -- The loop of `BroadCast(bot, start, end)`: each message to every group, by reference.
  unfoldable pub broad_cast_all : ℕ → List Bytes → List ℕ → ApiBot lib → ApiBot lib
  unfolding send_to
  broad_cast_all i [] groups b = b
  broad_cast_all i (message ∷ messages) groups b =
      broad_cast_all (i + length groups) messages groups (send_to i message message groups b)

  unfoldable pub broad_cast_range : List Bytes → List GroupInfo → Service → ApiBot lib → ApiBot lib
  unfolding broad_cast_all get_enable_group
  broad_cast_range messages infos s b = broad_cast_all 0 messages (get_enable_group infos s) b
