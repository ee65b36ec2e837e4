-- ===== src/BotManage/Sv.antt =====
-- source/modules/module/botmanage: sv.h and help.cpp: turning services on and off, listing them, and
-- the help texts. `render` is `TextToImg`, which draws with OpenCV.
use migang_bot_cpp.Base.{
  ℕ, Bool, not, ◌||◌, Option, List, [], ◌∷◌, ◌++◌, String, Bytes, codes, utf8, bytes_beq, bytes_eq,
  nat_beq, nat_eq, is_empty, any, member, get_elem?, if◌then◌else◌, Result, ok, Fault, or_fault,
  ◌>>=◌,
}
use migang_bot_cpp.Json.{JsonLib, number_at, string_at}
use migang_bot_cpp.Strings.{format}
use migang_bot_cpp.Permission.{BotConfig, get_user_permission, first_char}
use migang_bot_cpp.ServiceManager.{
  World, ServiceManager, check_service, check_permission, group_enable_named, group_disable_named,
  get_service_list, get_service_list_in, get_bundle_service, get_bundle_service_in, get_bundle_list,
  check_bundle,
}
use migang_bot_cpp.Action.{Action}
use migang_bot_cpp.BotManage.{Manage}
use migang_bot_cpp.BotManage.Commands.{say, say_to, plain_text}
use migang_bot_cpp.BotManage.Options.{pop_back}

abbrev pub permission_str : List Bytes
permission_str =
    utf8 "黑名单"
    ∷ utf8 "通常"
    ∷ utf8 "私聊"
    ∷ utf8 "群成员"
    ∷ utf8 "群管理员"
    ∷ utf8 "群主"
    ∷ utf8 "白名单"
    ∷ utf8 "白"
    ∷ utf8 "法外之地"
    ∷ []

-- The loop that adds the name of each level and a space.
unfoldable pub level_names : List ℕ → Result Bytes
level_names [] = ok []
level_names (perm ∷ perms) = do
  name ← or_fault (get_elem? permission_str perm) Fault.undefined
  rest ← level_names perms
  ok (name ++ codes " " ++ rest)

-- `hint_msg`, whose last byte becomes the bracket.
unfoldable pub hint_msg : List ℕ → Result Bytes
unfolding level_names pop_back
hint_msg perms = do
  names ← level_names perms
  ok (pop_back (utf8 "当前服务(们)所需管理权限(们)为:[" ++ names) ++ codes "]")

abbrev pub success : String → Bytes → Bytes
success verb name = format (utf8 "已成功" ∷ utf8 verb ∷ utf8 "服务[" ∷ name ∷ codes "]" ∷ [])

-- What `HandleEnableSv` and `HandleDisableSv` differ in: the call and its name.
abbrev pub Switch : Type 0
Switch = Bytes → ℕ → ℕ → ServiceManager → World → World × Bool

abbrev is_shown : Bytes → Bool
is_shown name = not (is_empty name || nat_beq (first_char name) b'_')

abbrev shown_description : Bytes → Bytes
shown_description description = if is_empty description then utf8 "无简介" else description

-- The loops over services, without and with the switch in a group.
unfoldable pub service_lines : List (Bytes × Bytes) → Bytes
service_lines [] = []
service_lines ((name, description) ∷ l) =
    (if is_shown name
      then format (name ∷ codes ": " ∷ shown_description description ∷ codes "\n\n" ∷ [])
      else [])
    ++ service_lines l

unfoldable pub service_lines_in : List (Bytes × Bytes × Bool) → Bytes
service_lines_in [] = []
service_lines_in ((name, description, status) ∷ l) =
    (if is_shown name
      then format (
          codes "["
          ∷ (if status then utf8 "✓" else utf8 "×")
          ∷ codes "] "
          ∷ name
          ∷ codes ": "
          ∷ shown_description description
          ∷ codes "\n\n"
          ∷ [])
      else [])
    ++ service_lines_in l

-- The loop over the bundles: one line for each that has a service to show.
unfoldable pub bundle_lines : ServiceManager → World → List Bytes → Bytes
bundle_lines m w [] = []
bundle_lines m w (bundle ∷ bundles) =
    (if any (λ e. is_shown e.0) (get_bundle_service bundle m w)
      then format (codes "[" ∷ bundle ∷ codes "]\n" ∷ [])
      else [])
    ++ bundle_lines m w bundles

abbrev line : Bytes
line = codes "\n=====================\n"

-- `bot.send(event, message_segment::image(TextToImg(msg)))`
abbrev pub say_image : (Bytes → Bytes) → Bytes → Action
say_image render msg = say (format (codes "[CQ:image,file=" ∷ render msg ∷ codes "]" ∷ []))

module _ (lib : JsonLib) where
  open lib use {Json, contains}

  unfoldable pub handle_switch :
      Switch → String → BotConfig → Json → ServiceManager → World → Result (World × List Action)
  unfolding check_service check_permission hint_msg
  handle_switch call verb config event m w =
      if not (contains event "group_id") then ok (w, []) else (do
        group ← number_at lib event "group_id"
        name ← plain_text lib event
        perm ← get_user_permission lib config event
        if is_empty name
            then ok (w, [])
            else if not (check_service name m)
            then ok (
              w,
              Action.send_group_msg group (format (utf8 "服务[" ∷ name ∷ utf8 "]不存在" ∷ [])) ∷ [],
            )
            else (let (w', ret) = call name group perm m w in
                if ret then ok (w', Action.send_group_msg group (success verb name) ∷ []) else (do
                  hint ← hint_msg (check_permission name m w')
                  ok (
                    w',
                    Action.send_group_msg group (
                          format (
                            utf8 "未能(完全)"
                            ∷ utf8 verb
                            ∷ utf8 "服务["
                            ∷ name
                            ∷ utf8 "]，权限不足。"
                            ∷ hint
                            ∷ []))
                        ∷ [],
                  ))))

  -- `HandleEnableSv`
  unfoldable pub handle_enable_sv :
      BotConfig → Json → ServiceManager → World → Result (World × List Action)
  unfolding handle_switch
  handle_enable_sv = handle_switch group_enable_named "启用"

  -- `HandleDisableSv`
  unfoldable pub handle_disable_sv :
      BotConfig → Json → ServiceManager → World → Result (World × List Action)
  unfolding handle_switch
  handle_disable_sv = handle_switch group_disable_named "禁用"

  -- `HandleListSv`
  unfoldable pub handle_list_sv :
      (Bytes → Bytes) → Json → ServiceManager → World → Result (List Action)
  unfolding service_lines service_lines_in pop_back
  handle_list_sv render event m w =
      if contains event "group_id"
      then (do
        group ← number_at lib event "group_id"
        let lines = service_lines_in (get_service_list_in group m w)
        let msg = utf8 "以下为可用服务列表以及本群启用情况" ++ line ++ lines
        ok (say_image render (pop_back (pop_back msg)) ∷ []))
      else (let msg = utf8 "以下为可用服务列表" ++ line ++ service_lines (get_service_list m w) in
          ok (say_image render (pop_back (pop_back msg)) ∷ []))

  -- `HandleListSvBundle`
  unfoldable pub handle_list_sv_bundle :
      (Bytes → Bytes) → Json → ServiceManager → World → Result (List Action)
  unfolding service_lines service_lines_in bundle_lines pop_back
  handle_list_sv_bundle render event m w = do
    option ← plain_text lib event
    let head = format (utf8 "以下为包[" ∷ option ∷ utf8 "]中可用服务以及启用情况" ∷ line ∷ [])
    if is_empty option
        then ok (
            say_image render (
              format (
                utf8 "以下为所有可用包"
                ∷ line
                ∷ bundle_lines m w (get_bundle_list m)
                ∷ utf8 "发送[lsb 包名]来查看包内的服务列表"
                ∷ []))
            ∷ [])
        else if not (check_bundle option m)
        then ok (say (format (utf8 "不存在名为[" ∷ option ∷ utf8 "]的服务包，请发送[lsb]查看可用包列表" ∷ [])) ∷ [])
        else if contains event "group_id"
        then (do
          group ← number_at lib event "group_id"
          let msg = head ++ service_lines_in (get_bundle_service_in option group m w)
          ok (say_image render (pop_back (pop_back msg)) ∷ []))
        else (let msg = head ++ service_lines (get_bundle_service option m w) in
            ok (say_image render (pop_back (pop_back msg)) ∷ []))

-- The members of `Help`; `custom` is the node 自定义 of its configuration, from a keyword to its text
-- and whether it is sent as an image, `none` where `as` throws.
pub record Help : Type 0 where
  pub help_msg_group_others : Bytes
  pub help_msg_friend_others : Bytes
  pub custom_help_keyword : List Bytes
  pub custom : Bytes → Option (Bytes × Bool)

module _ (lib : JsonLib) where
  open lib use {Json, contains}

  -- `HelpMsg`
  unfoldable pub help_msg :
      (Bytes → Bytes) → Help → Manage → Json → ServiceManager → World → Result (List Action)
  unfolding handle_list_sv_bundle check_bundle
  help_msg render self manage event m w = do
    text ← plain_text lib event
    message_type ← string_at lib event "message_type"
    let in_group = nat_beq (first_char message_type) b'g'
    if is_empty text
        then ok
            ((if in_group then say_to manage.help_msg_group else say manage.help_msg_friend) ∷ [])
        else if bytes_beq text (utf8 "其他")
        then ok (
            say_image render
              (if in_group then self.help_msg_group_others else self.help_msg_friend_others)
            ∷ [])
        else if check_bundle text m
        then handle_list_sv_bundle lib render event m w
        else if member text self.custom_help_keyword
        then (do
          (content, is_send_in_image) ← or_fault (self.custom text) Fault.type_error
          ok ((if is_send_in_image then say_image render content else say content) ∷ []))
        else ok []
