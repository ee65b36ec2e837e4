-- ===== src/Permission/Tests.antt =====
-- source/permission/permission.h: levels of concrete users, and the theorem at one of them.
use migang_bot_cpp.Base.{◌≡◌, refl, [], ◌∷◌, codes, member, nat_eq, ok}
use migang_bot_cpp.Json.Example.{Value, text, number, object_of, example_lib}
use migang_bot_cpp.Permission.{
  BotConfig, group_admin, role_permission, sender_permission, get_user_permission,
}

abbrev bot_config : BotConfig
bot_config = record { bot_name = codes "bot"; superusers = 1 ∷ []; white_list = 1 ∷ 2 ∷ [] }

abbrev by_admin : Value
by_admin = object_of (
    ("user_id", number 9)
    ∷ ("message_type", text (codes "group"))
    ∷ ("sender", object_of (("role", text (codes "admin")) ∷ []))
    ∷ [])

by_admin_level : get_user_permission example_lib bot_config by_admin ≡ ok group_admin
unfolding get_user_permission sender_permission role_permission member
by_admin_level = refl
