-- ===== src/Api/Queries.antt =====
-- source/api/onebot_11/api_impl.h: the calls that query and the rest.
use migang_bot_cpp.Base.{ℕ, Bool, [], ◌∷◌, Bytes}
use migang_bot_cpp.Json.{JsonLib}
use migang_bot_cpp.Api.Call.{object_of, call_api}

module _ (lib : JsonLib) where
  open lib use {Json, null, of_string, of_number, of_bool}

  unfoldable pub get_login_info : Json
  get_login_info = call_api lib "get_login_info" null

  unfoldable pub get_stranger_info : ℕ → Json
  get_stranger_info qid =
      call_api lib "get_stranger_info" (object_of lib (("user_id", of_number qid) ∷ []))

  unfoldable pub get_friend_list : Json
  get_friend_list = call_api lib "get_friend_list" null

  unfoldable pub get_group_info : ℕ → Bool → Json
  get_group_info gid no_cache =
      call_api lib "get_group_info"
        (object_of lib (("group_id", of_number gid) ∷ ("no_cache", of_bool no_cache) ∷ []))

  unfoldable pub get_group_list : Bool → Json
  get_group_list no_cache =
      call_api lib "get_group_list" (object_of lib (("no_cache", of_bool no_cache) ∷ []))

  unfoldable pub get_group_member_info : ℕ → ℕ → Bool → Json
  get_group_member_info gid uid no_cache = call_api lib "get_group_member_info" (
      object_of lib (
        ("group_id", of_number gid)
        ∷ ("user_id", of_number uid)
        ∷ ("no_cache", of_bool no_cache)
        ∷ []))

  unfoldable pub get_group_member_list : ℕ → Bool → Json
  get_group_member_list gid no_cache =
      call_api lib "get_group_member_list"
        (object_of lib (("group_id", of_number gid) ∷ ("no_cache", of_bool no_cache) ∷ []))

  unfoldable pub get_group_honor_info : ℕ → Bytes → Json
  get_group_honor_info gid type =
      call_api lib "get_group_honor_info"
        (object_of lib (("group_id", of_number gid) ∷ ("type", of_string type) ∷ []))

  unfoldable pub get_cookies : Bytes → Json
  get_cookies domain =
      call_api lib "get_cookies" (object_of lib (("domain", of_string domain) ∷ []))

  unfoldable pub get_csrf_token : Json
  get_csrf_token = call_api lib "get_csrf_token" null

  unfoldable pub get_credentials : Bytes → Json
  get_credentials domain =
      call_api lib "get_credentials" (object_of lib (("domain", of_string domain) ∷ []))

  unfoldable pub get_record : Bytes → Bytes → Json
  get_record file out_format =
      call_api lib "get_record"
        (object_of lib (("file", of_string file) ∷ ("out_format", of_string out_format) ∷ []))

  unfoldable pub get_image : Bytes → Json
  get_image file = call_api lib "get_image" (object_of lib (("file", of_string file) ∷ []))

  unfoldable pub can_send_image : Json
  can_send_image = call_api lib "can_send_image" null

  unfoldable pub can_send_record : Json
  can_send_record = call_api lib "can_send_record" null

  unfoldable pub get_status : Json
  get_status = call_api lib "get_status" null

  unfoldable pub get_version_info : Json
  get_version_info = call_api lib "get_version_info" null

  unfoldable pub set_restart : ℕ → Json
  set_restart delay = call_api lib "set_restart" (object_of lib (("delay", of_number delay) ∷ []))

  unfoldable pub clean_cache : Json
  clean_cache = call_api lib "clean_cache" null

  unfoldable pub get_word_slices : Bytes → Json
  get_word_slices content =
      call_api lib ".get_word_slices" (object_of lib (("content", of_string content) ∷ []))

  unfoldable pub ocr_image : Bytes → Json
  ocr_image image = call_api lib ".ocr_image" (object_of lib (("image", of_string image) ∷ []))

  unfoldable pub get_model_show : Bytes → Json
  get_model_show model =
      call_api lib "_get_model_show" (object_of lib (("model", of_string model) ∷ []))

  unfoldable pub get_vip_info : ℕ → Json
  get_vip_info qid = call_api lib "_get_vip_info" (object_of lib (("user_id", of_number qid) ∷ []))

  unfoldable pub send_group_notice : ℕ → Bytes → Bytes → Json
  send_group_notice gid content image = call_api lib "_send_group_notice" (
      object_of lib (
        ("group_id", of_number gid)
        ∷ ("content", of_string content)
        ∷ ("image", of_string image)
        ∷ []))

  unfoldable pub set_model_show : Bytes → Bytes → Json
  set_model_show model model_show =
      call_api lib "_set_model_show"
        (object_of lib (("model", of_string model) ∷ ("model_show", of_string model_show) ∷ []))

  unfoldable pub check_url_safely : Bytes → Json
  check_url_safely url =
      call_api lib "check_url_safely" (object_of lib (("url", of_string url) ∷ []))
