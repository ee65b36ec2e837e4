-- ===== src/Registrar/Effects.antt =====
-- source/event/Registrar.h, `OnPrefix`: what it registers, in the trie of the prefixes and in the
-- service manager.
use mathlib.Core.Path.{ap₂}
use migang_bot_cpp.Base.{
  ok_inj, ℕ, ◌≡◌, refl, ap, ◌∙◌, sym, Bool, true, false, List, [], ◌∷◌, ◌++◌, map, Bytes, arith,
  bytes_beq_iff, nat_beq, nat_beq_iff, if◌then◌else◌, ok, >>=-eq-ok,
}
use migang_bot_cpp.Trie.{Ref, TrieNode, new_node}
use migang_bot_cpp.Trie.Registry.{Command, register, register_all}
use migang_bot_cpp.Service.{Service, Disk, make_service, load_config}
use migang_bot_cpp.ServiceManager.{equal_range}
use migang_bot_cpp.ServiceManager.Listing.{IsSorted, register_service-equal_range}
use migang_bot_cpp.EventHandler.{RegexLib, EventHandler}
use migang_bot_cpp.EventHandler.Register.{prefix, register_command}
use migang_bot_cpp.Registrar.{
  ServiceArgs, App, adopt, construct, enlist, register_commands, on_command, on_prefix,
}

register_all-append :
    (back : Bool) (cs ds : List Command) (root : TrieNode)
    → register_all back (cs ++ ds) root ≡ register_all back ds (register_all back cs root)
unfolding register_all
register_all-append back [] ds root = refl
register_all-append back ((key, service) ∷ cs) ds root =
    register_all-append back cs ds (register back key service root).0

make_service-name :
    (name description : Bytes) (need manage : ℕ) (default to_me : Bool) (disk disk' : Disk)
    (s : Service)
    → make_service name description need manage default to_me disk ≡ ok (s, disk')
    → s.service_name ≡ name
unfolding make_service load_config
make_service-name name description need manage default to_me disk disk' s e = ground arith

-- The commands of one service
abbrev pub commands_of : Ref → List Bytes → List Command
commands_of r commands = map (λ command. (command, r)) commands

module _ (engine : RegexLib) where
  register_commands-prefix :
      (commands : List Bytes) (r : Ref) (h : EventHandler engine)
      → (register_commands engine prefix commands r h).command_prefix
        ≡ register_all false (commands_of r commands) h.command_prefix
  unfolding register_commands register_command register_all register
  register_commands-prefix [] r h = refl
  register_commands-prefix (command ∷ commands) r h =
      register_commands-prefix commands r (register_command engine prefix command r h).0

  -- The state after `OnPrefix` with the constructed service
  abbrev registered : List Bytes → Bytes → Service → Disk → App engine → App engine
  registered commands bundle s disk app =
      let built = adopt engine s disk app in
      enlist engine bundle app.next
        (record built { handler = register_commands engine prefix commands app.next built.handler })

  construct_lem :
      (name : Bytes) (args : ServiceArgs) (app built : App engine) (r : Ref)
      → construct engine name args app ≡ ok (built, r)
      → (s : Service) × (disk : Disk) × (s.service_name ≡ name)
        × (built ≡ adopt engine s disk app)
        × (r ≡ app.next)
  unfolding construct
  construct_lem name args app built r done =
      let ((s, disk), made, same) =
        >>=-eq-ok
          (make_service name args.description args.use_permission args.manage_permission
            args.enable_on_default args.only_to_me app.world.disk)
          (λ m. ok (adopt engine m.0 m.1 app, app.next)) done in
      let pair = ok_inj same in
      (
        s,
        disk,
        make_service-name name args.description args.use_permission args.manage_permission
            args.enable_on_default args.only_to_me app.world.disk disk s made,
        sym (ap (λ x. x.0) pair),
        sym (ap (λ x. x.1) pair),
      )

  on_prefix-registered :
      (commands : List Bytes) (name bundle : Bytes) (args : ServiceArgs) (app app' : App engine)
      → on_prefix engine commands (name, bundle) args app ≡ ok app'
      → (s : Service) × (disk : Disk) × (s.service_name ≡ name)
        × (app' ≡ registered commands bundle s disk app)
  unfolding on_prefix on_command
  on_prefix-registered commands name bundle args app app' done =
      let ((built, r), made, same) = >>=-eq-ok (construct engine name args app) _ done in
      let (s, disk, named, b, e) = construct_lem name args app built r made in
      (
        s,
        disk,
        named,
        sym (ok_inj same)
            ∙ ap₂
                (λ (m : App engine) x.
                  enlist engine bundle x
                    (record m { handler = register_commands engine prefix commands x m.handler }))
                b e,
      )

  -- If `OnPrefix` succeeds, the trie that held some registered commands holds the commands of the new
  -- service behind them, the new service has the given name, it stands behind the services of that
  -- name in a registry that was sorted and still is, and no other service has changed.
  pub on_prefix_lem :
      (commands : List Bytes) (name bundle : Bytes) (args : ServiceArgs) (app app' : App engine)
      (cs : List Command)
      → on_prefix engine commands (name, bundle) args app ≡ ok app'
      → app.handler.command_prefix ≡ register_all false cs new_node
      → IsSorted app.manager.service_name_map
      → let r = app.next in
        (app'.handler.command_prefix ≡ register_all false (cs ++ commands_of r commands) new_node)
        × ((app'.world.heap r).service_name ≡ name)
        × (equal_range name app'.manager.service_name_map
            ≡ equal_range name app.manager.service_name_map ++ r ∷ [])
        × IsSorted app'.manager.service_name_map
        × ((x : Ref) → nat_beq r x ≡ false → app'.world.heap x ≡ app.world.heap x)
  unfolding enlist
  on_prefix_lem commands name bundle args app app' cs done filled sorted =
      let (s, disk, named, e) = on_prefix-registered commands name bundle args app app' done in
      let here : nat_beq app.next app.next ≡ true = (nat_beq_iff app.next app.next).1 refl in
      let (sorted', grown) =
        register_service-equal_range bundle name app.next (adopt engine s disk app).world
          app.manager sorted in
      let name_kept : ((adopt engine s disk app).world.heap app.next).service_name ≡ name =
        ap (λ t. (if t then s else app.world.heap app.next).service_name) here ∙ named in
      let before = equal_range name app.manager.service_name_map in
      rw e (
        register_commands-prefix commands app.next app.handler
            ∙ ap (register_all false (commands_of app.next commands)) filled
            ∙ sym (register_all-append false cs (commands_of app.next commands) new_node),
        name_kept,
        grown
            ∙ ap (λ t. if t then before ++ app.next ∷ [] else before)
                ((bytes_beq_iff _ name).1 name_kept),
        sorted',
        λ x other. ap (λ t. if t then s else app.world.heap x) other,
      )
