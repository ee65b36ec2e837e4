-- ===== src/Permission/Levels.antt =====
-- source/permission/permission.h, `GetUserPermission`: which users reach which level.
use migang_bot_cpp.Base.{ℕ, ◌≤◌, ◌≡◌, ◌↔◌, true, false, arith, member, nat_eq, ok, some}
use migang_bot_cpp.Json.{JsonLib}
use migang_bot_cpp.Permission.{
  BotConfig, normal, group_owner, white, superuser, role_permission, sender_permission,
  get_user_permission,
}

module _ (lib : JsonLib) (config : BotConfig) where
  open lib use {Json, at, get_number}

  sender_permission_bounds :
      (event : Json) (p : ℕ)
      → sender_permission lib config event ≡ ok p
      → (normal ≤ p) × (p ≤ group_owner)
  unfolding sender_permission role_permission
  sender_permission_bounds event p h = ground arith

  -- The level of a user, when it is computed, lies between NORMAL and SUPERUSER (so nobody has
  -- ALWAYS_ON and the code never assigns BLACK); it is SUPERUSER exactly for the superusers, and
  -- WHITE_LIST exactly for the white-listed users that are no superusers.
  pub get_user_permission_lem :
      (event : Json) (user_id p : ℕ)
      → get_number (at event "user_id") ≡ some user_id
      → get_user_permission lib config event ≡ ok p
      → (normal ≤ p)
        × (p ≤ superuser)
        × ((p ≡ superuser) ↔ (member user_id config.superusers ≡ true))
        × ((p ≡ white) ↔ (
            (member user_id config.superusers ≡ false) × (member user_id config.white_list ≡ true)))
  unfolding get_user_permission
  get_user_permission_lem event user_id p known h = ground (arith, sender_permission_bounds event p)
