-- ===== src/Registrar.antt =====
-- source/event/Registrar.h: how a module constructs its services and registers them with the event
-- handler and the service manager. The two singletons are one state; a constructor may throw when the
-- file of the service is bad. The arguments forwarded to a constructor are a record.
pub mod Effects
mod Tests
use migang_bot_cpp.Base.{ℕ, ◌+◌, Bool, List, [], ◌∷◌, Bytes, Result, ok, ◌>>=◌}
use migang_bot_cpp.Trie.{Ref}
use migang_bot_cpp.Service.{Service, Disk, make_service}
use migang_bot_cpp.ServiceManager.{World, ServiceManager, update, register_service}
use migang_bot_cpp.Schedule.{make_schedule_service}
use migang_bot_cpp.EventHandler.{RegexLib, EventHandler}
use migang_bot_cpp.EventHandler.Register.{
  fullmatch, prefix, suffix, register_command, register_notice, register_request, register_regex,
}

pub record ServiceArgs : Type 0 where
  pub description : Bytes
  pub use_permission : ℕ
  pub manage_permission : ℕ
  pub enable_on_default : Bool
  pub only_to_me : Bool

-- `next` is the pointer to the next service.
pub record App (engine : RegexLib) : Type 0 where
  pub handler : EventHandler engine
  pub manager : ServiceManager
  pub world : World
  pub next : Ref

-- The names of the bundles for services without one, in UTF-8.
abbrev pub general : Bytes
general = 233 ∷ 128 ∷ 154 ∷ 231 ∷ 148 ∷ 168 ∷ []

abbrev pub general_regex : Bytes
general_regex = 233 ∷ 128 ∷ 154 ∷ 231 ∷ 148 ∷ 168 ∷ 230 ∷ 173 ∷ 163 ∷ 229 ∷ 136 ∷ 153 ∷ []

abbrev pub general_notice : Bytes
general_notice = 233 ∷ 128 ∷ 154 ∷ 231 ∷ 148 ∷ 168 ∷ 233 ∷ 128 ∷ 154 ∷ 231 ∷ 159 ∷ 165 ∷ []

abbrev pub general_request : Bytes
general_request = 233 ∷ 128 ∷ 154 ∷ 231 ∷ 148 ∷ 168 ∷ 232 ∷ 175 ∷ 183 ∷ 230 ∷ 177 ∷ 130 ∷ []

abbrev pub general_schedule : Bytes
general_schedule = 233 ∷ 128 ∷ 154 ∷ 231 ∷ 148 ∷ 168 ∷ 229 ∷ 174 ∷ 154 ∷ 230 ∷ 151 ∷ 182 ∷ []

module _ (engine : RegexLib) where
  -- A constructed service behind a new pointer
  abbrev pub adopt : Service → Disk → App engine → App engine
  adopt s disk app = record app {
    world = record { heap = update app.world.heap app.next s; disk = disk };
    next = app.next + 1;
  }

  -- `std::make_shared<TriggeredService>`
  unfoldable pub construct : Bytes → ServiceArgs → App engine → Result (App engine × Ref)
  construct name args app = do
    (s, disk) ←
        make_service name args.description args.use_permission args.manage_permission
          args.enable_on_default args.only_to_me app.world.disk
    ok (adopt s disk app, app.next)

  -- `ServiceManager::GetInstance().RegisterService`
  unfoldable pub enlist : Bytes → Ref → App engine → App engine
  enlist bundle r app = record app { manager = register_service bundle r app.world app.manager }

  -- The loop of `OnCommand`; a command that is refused is only logged.
  unfoldable pub register_commands :
      ℕ → List Bytes → Ref → EventHandler engine → EventHandler engine
  register_commands type [] r h = h
  register_commands type (command ∷ commands) r h =
      register_commands type commands r (register_command engine type command r h).0

  -- `OnCommand`
  unfoldable pub on_command :
      ℕ → List Bytes → Bytes × Bytes → ServiceArgs → App engine → Result (App engine)
  unfolding construct enlist register_commands
  on_command type commands (name, bundle) args app = do
    (app', r) ← construct name args app
    ok (enlist bundle r (record app' { handler = register_commands type commands r app'.handler }))

  unfoldable pub on_command_general :
      ℕ → List Bytes → Bytes → ServiceArgs → App engine → Result (App engine)
  on_command_general type commands name args app = on_command type commands (name, general) args app

  -- `OnFullmatch`, `OnPrefix` and `OnSuffix`, with a bundle and without
  unfoldable pub on_fullmatch :
      List Bytes → Bytes × Bytes → ServiceArgs → App engine → Result (App engine)
  on_fullmatch commands names args app = on_command fullmatch commands names args app

  unfoldable pub on_fullmatch_general :
      List Bytes → Bytes → ServiceArgs → App engine → Result (App engine)
  on_fullmatch_general commands name args app = on_command_general fullmatch commands name args app

  unfoldable pub on_prefix :
      List Bytes → Bytes × Bytes → ServiceArgs → App engine → Result (App engine)
  on_prefix commands names args app = on_command prefix commands names args app

  unfoldable pub on_prefix_general :
      List Bytes → Bytes → ServiceArgs → App engine → Result (App engine)
  on_prefix_general commands name args app = on_command_general prefix commands name args app

  unfoldable pub on_suffix :
      List Bytes → Bytes × Bytes → ServiceArgs → App engine → Result (App engine)
  on_suffix commands names args app = on_command suffix commands names args app

  unfoldable pub on_suffix_general :
      List Bytes → Bytes → ServiceArgs → App engine → Result (App engine)
  on_suffix_general commands name args app = on_command_general suffix commands name args app

  -- `OnRegex`
  unfoldable pub on_regex :
      List Bytes → Bytes × Bytes → ServiceArgs → App engine → Result (App engine)
  unfolding construct enlist
  on_regex patterns (name, bundle) args app = do
    (app', r) ← construct name args app
    ok (enlist bundle r (record app' { handler = register_regex engine patterns r app'.handler }))

  unfoldable pub on_regex_general :
      List Bytes → Bytes → ServiceArgs → App engine → Result (App engine)
  on_regex_general patterns name args app = on_regex patterns (name, general_regex) args app

  -- `OnNotice`
  unfoldable pub on_notice :
      Bytes → Bytes → Bytes × Bytes → ServiceArgs → App engine → Result (App engine)
  unfolding construct enlist
  on_notice notice_type sub_type (name, bundle) args app = do
    (app', r) ← construct name args app
    ok (
        enlist bundle r
          (record app' { handler = register_notice engine notice_type sub_type r app'.handler }))

  unfoldable pub on_notice_general :
      Bytes → Bytes → Bytes → ServiceArgs → App engine → Result (App engine)
  on_notice_general notice_type sub_type name args app =
      on_notice notice_type sub_type (name, general_notice) args app

  -- `OnRequest`
  unfoldable pub on_request :
      Bytes → Bytes → Bytes × Bytes → ServiceArgs → App engine → Result (App engine)
  unfolding construct enlist
  on_request request_type sub_type (name, bundle) args app = do
    (app', r) ← construct name args app
    ok (
        enlist bundle r
          (record app' { handler = register_request engine request_type sub_type r app'.handler }))

  unfoldable pub on_request_general :
      Bytes → Bytes → Bytes → ServiceArgs → App engine → Result (App engine)
  on_request_general request_type sub_type name args app =
      on_request request_type sub_type (name, general_request) args app

  -- `OnSchedule`, which also returns the service
  unfoldable pub on_schedule :
      Bytes × Bytes → Bytes → ℕ → Bool → App engine → Result (App engine × Ref)
  unfolding enlist
  on_schedule (name, bundle) description manage_permission enable_on_default app = do
    (s, disk) ←
        make_schedule_service name description manage_permission enable_on_default app.world.disk
    ok (enlist bundle app.next (adopt s disk app), app.next)

  unfoldable pub on_schedule_general :
      Bytes → Bytes → ℕ → Bool → App engine → Result (App engine × Ref)
  on_schedule_general name description manage_permission enable_on_default app =
      on_schedule (name, general_schedule) description manage_permission enable_on_default app
