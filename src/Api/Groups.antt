-- ===== src/Api/Groups.antt =====
-- source/api/onebot_11/api_impl.h: the calls that act on groups and requests.
use migang_bot_cpp.Base.{ℕ, Bool, [], ◌∷◌, Bytes}
use migang_bot_cpp.Json.{JsonLib}
use migang_bot_cpp.Api.Call.{object_of, call_api}

module _ (lib : JsonLib) where
  open lib use {Json, null, of_string, of_number, of_bool}

  unfoldable pub set_group_kick : ℕ → ℕ → Bytes → Bool → Json
  set_group_kick gid uid message reject_add_request = call_api lib "set_group_kick" (
      object_of lib (
        ("group_id", of_number gid)
        ∷ ("user_id", of_number uid)
        ∷ ("message", of_string message)
        ∷ ("reject_add_request", of_bool reject_add_request)
        ∷ []))

  unfoldable pub set_group_ban : ℕ → ℕ → ℕ → Json
  set_group_ban gid qid duration = call_api lib "set_group_ban" (
      object_of lib (
        ("group_id", of_number gid)
        ∷ ("user_id", of_number qid)
        ∷ ("duration", of_number duration)
        ∷ []))

  unfoldable pub set_group_anonymous_ban : ℕ → ℕ → Bytes → Json
  set_group_anonymous_ban gid duration anonymous_flag = call_api lib "set_group_anonymous_ban" (
      object_of lib (
        ("group_id", of_number gid)
        ∷ ("anonymous_flag", of_string anonymous_flag)
        ∷ ("duration", of_number duration)
        ∷ []))

  unfoldable pub set_group_whole_ban : ℕ → Bool → Json
  set_group_whole_ban gid enable =
      call_api lib "set_group_whole_ban"
        (object_of lib (("group_id", of_number gid) ∷ ("enable", of_bool enable) ∷ []))

  unfoldable pub set_group_admin : ℕ → ℕ → Bool → Json
  set_group_admin gid qid enable = call_api lib "set_group_admin" (
      object_of lib (
        ("group_id", of_number gid) ∷ ("user_id", of_number qid) ∷ ("enable", of_bool enable) ∷ []))

  unfoldable pub set_group_anonymous : ℕ → Bool → Json
  set_group_anonymous gid enable =
      call_api lib "set_group_anonymous"
        (object_of lib (("group_id", of_number gid) ∷ ("enable", of_bool enable) ∷ []))

  unfoldable pub set_group_card : ℕ → ℕ → Bytes → Json
  set_group_card gid qid card = call_api lib "set_group_card" (
      object_of lib
        (("group_id", of_number gid) ∷ ("user_id", of_number qid) ∷ ("card", of_string card) ∷ []))

  unfoldable pub set_group_name : ℕ → Bytes → Json
  set_group_name gid name =
      call_api lib "set_group_name"
        (object_of lib (("group_id", of_number gid) ∷ ("name", of_string name) ∷ []))

  unfoldable pub set_group_leave : ℕ → Bool → Json
  set_group_leave gid is_dismiss =
      call_api lib "set_group_leave"
        (object_of lib (("group_id", of_number gid) ∷ ("is_dismiss", of_bool is_dismiss) ∷ []))

  unfoldable pub set_group_special_title : ℕ → ℕ → Bytes → Json
  set_group_special_title gid qid special_title = call_api lib "set_group_special_title" (
      object_of lib (
        ("group_id", of_number gid)
        ∷ ("user_id", of_number qid)
        ∷ ("special_title", of_string special_title)
        ∷ []))

  unfoldable pub set_friend_add_request : Bytes → Bool → Json
  set_friend_add_request flag approve =
      call_api lib "set_friend_add_request"
        (object_of lib (("flag", of_string flag) ∷ ("approve", of_bool approve) ∷ []))

  unfoldable pub set_group_add_request : Bytes → Bytes → Bytes → Bool → Json
  set_group_add_request flag sub_type reason approve = call_api lib "set_group_add_request" (
      object_of lib (
        ("flag", of_string flag)
        ∷ ("sub_type", of_string sub_type)
        ∷ ("reason", of_string reason)
        ∷ ("approve", of_bool approve)
        ∷ []))
