-- ===== src/Permission.antt =====
-- source/permission/permission.h: the permission levels, and the level of an event's user.
-- `config::SUPERUSERS` and `config::WHITE_LIST` (source/global_config.h) are lists of user ids.
pub mod Levels
mod Tests
use migang_bot_cpp.Base.{
  ℕ, Bool, ◌&&◌, ◌||◌, not, List, [], ◌∷◌, Bytes, nat_beq, nat_eq, member, if◌then◌else◌, Result,
  ok, ◌>>=◌,
}
use migang_bot_cpp.Json.{JsonLib, string_at, number_at}

pub record BotConfig : Type 0 where
  pub bot_name : Bytes
  pub superusers : List ℕ
  pub white_list : List ℕ

abbrev pub black : ℕ
black = 0

abbrev pub normal : ℕ
normal = 1

abbrev pub from_private : ℕ
from_private = 2

abbrev pub group_member : ℕ
group_member = 3

abbrev pub group_admin : ℕ
group_admin = 4

abbrev pub group_owner : ℕ
group_owner = 5

abbrev pub white : ℕ
white = 6

abbrev pub superuser : ℕ
superuser = 7

abbrev pub always_on : ℕ
always_on = 8

-- `s[0]` of a `std::string`: the terminating zero if the string is empty.
abbrev pub first_char : Bytes → ℕ
first_char [] = 0
first_char (c ∷ s) = c

-- The switch on `role[0]`.
unfoldable pub role_permission : ℕ → ℕ
role_permission c =
    if nat_beq c b'm'
    then group_member
    else if nat_beq c b'a'
    then group_admin
    else if nat_beq c b'o'
    then group_owner
    else group_member

module _ (lib : JsonLib) (config : BotConfig) where
  open lib use {Json, contains, is_null, at}

  -- The part of `GetUserPermission` below the two lists.
  unfoldable pub sender_permission : Json → Result ℕ
  sender_permission event = do
    message_type ← string_at lib event "message_type"
    if nat_beq (first_char message_type) b'g'
        then (if not (contains event "anonymous") || is_null (at event "anonymous")
            then (if contains event "sender" && contains (at event "sender") "role"
                then (do
                  role ← string_at lib (at event "sender") "role"
                  ok (role_permission (first_char role)))
                else ok group_member)
            else ok normal)
        else ok from_private

  unfoldable pub get_user_permission : Json → Result ℕ
  get_user_permission event = do
    user_id ← number_at lib event "user_id"
    if member user_id config.superusers
        then ok superuser
        else if member user_id config.white_list
        then ok white
        else sender_permission event
