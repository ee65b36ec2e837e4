-- ===== src/Api/Messages.antt =====
-- source/api/onebot_11/api_impl.h: the calls that send and fetch messages.
use migang_bot_cpp.Base.{ℕ, Bool, [], ◌∷◌, Bytes, codes, bytes_beq, if◌then◌else◌}
use migang_bot_cpp.Json.{JsonLib}
use migang_bot_cpp.Api.Call.{object_of, call_api}

module _ (lib : JsonLib) where
  open lib use {Json, null, of_string, of_number, of_bool}

  unfoldable pub send_private_msg : ℕ → Bytes → Bool → Json
  send_private_msg user_id message auto_escape = call_api lib "send_private_msg" (
      object_of lib (
        ("user_id", of_number user_id)
        ∷ ("message", of_string message)
        ∷ ("auto_escape", of_bool auto_escape)
        ∷ []))

  unfoldable pub send_group_msg : ℕ → Bytes → Bool → Json
  send_group_msg group_id message auto_escape = call_api lib "send_group_msg" (
      object_of lib (
        ("group_id", of_number group_id)
        ∷ ("message", of_string message)
        ∷ ("auto_escape", of_bool auto_escape)
        ∷ []))

  unfoldable pub delete_msg : ℕ → Json
  delete_msg msg_id =
      call_api lib "delete_msg" (object_of lib (("message_id", of_number msg_id) ∷ []))

  unfoldable pub get_msg : ℕ → Json
  get_msg msg_id = call_api lib "get_msg" (object_of lib (("message_id", of_number msg_id) ∷ []))

  unfoldable pub get_forward_msg : Bytes → Json
  get_forward_msg id = call_api lib "get_forward_msg" (object_of lib (("id", of_string id) ∷ []))

  unfoldable pub send_like : ℕ → ℕ → Json
  send_like qid time =
      call_api lib "send_like"
        (object_of lib (("user_id", of_number qid) ∷ ("time", of_number time) ∷ []))

  unfoldable pub send_msg : Bytes → Bytes → ℕ → Bool → Json
  send_msg type message id auto_escape =
      if bytes_beq type (codes "group")
      then call_api lib "send_msg" (
          object_of lib (
            ("message_type", of_string type)
            ∷ ("group_id", of_number id)
            ∷ ("message", of_string message)
            ∷ ("auto_escape", of_bool auto_escape)
            ∷ []))
      else call_api lib "send_msg" (
          object_of lib (
            ("message_type", of_string type)
            ∷ ("user_id", of_number id)
            ∷ ("message", of_string message)
            ∷ ("auto_escape", of_bool auto_escape)
            ∷ []))
