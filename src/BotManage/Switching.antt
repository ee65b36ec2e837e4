-- ===== src/BotManage/Switching.antt =====
-- source/modules/module/botmanage/sv.h with service_manager.h: what a command that turns a service on
-- does, and that its answer never reads outside the names of the levels.
use migang_bot_cpp.Base.{
  ℕ, ◌<◌, ◌≡◌, refl, sym, ◌∙◌, true, false, List, [], ◌∷◌, map, Bytes, member, nat_eq, is_empty,
  leb, all, get_elem?-within, Bool-cases, ◌⊎◌, inl, inr, ok, subst,
}
use migang_bot_cpp.Json.{JsonLib, number_at}
use migang_bot_cpp.Permission.{BotConfig, get_user_permission}
use migang_bot_cpp.Trie.{Ref}
use migang_bot_cpp.Service.{Service}
use migang_bot_cpp.ServiceManager.{
  World, ServiceManager, check_service, check_permission, group_enable_named, equal_range,
}
use migang_bot_cpp.ServiceManager.Switches.{Effect, Effect-manage, group_enable_named-Effect}
use migang_bot_cpp.Action.{Action}
use migang_bot_cpp.BotManage.Commands.{plain_text}
use migang_bot_cpp.BotManage.Sv.{
  permission_str, level_names, hint_msg, success, handle_switch, handle_enable_sv,
}

abbrev IsLevel : ℕ → Type 0
IsLevel n = n < 9

level_names-levels :
    (rs : List Ref) (heap heap' : Ref → Service)
    → ((x : Ref) → (heap' x).manage_permission ≡ (heap x).manage_permission)
    → ((x : Ref) → IsLevel (heap x).manage_permission)
    → (names : Bytes) × (level_names (map (λ r. (heap' r).manage_permission) rs) ≡ ok names)
unfolding level_names
level_names-levels [] heap heap' same levels = ([], refl)
level_names-levels (r ∷ rs) heap heap' same levels =
    let below : (heap' r).manage_permission < 9 = subst (λ n. n < 9) (sym (same r)) (levels r) in
    let (name, found) = get_elem?-within permission_str (heap' r).manage_permission below in
    let (rest, later) = level_names-levels rs heap heap' same levels in
    rw found (rw later (_, refl))

-- A command in a group that names a service, with every service managed by one of the nine levels:
-- `HandleEnableSv` ends without a fault with one message to the group. Exactly the services of that
-- name that the sender's level may manage have been switched on for the group, every other service
-- is as it was, and the message is the one of success if all of that name have been.
pub handle_enable_sv-Effect :
    (lib : JsonLib) (config : BotConfig) (event : lib.Json) (m : ServiceManager) (w : World)
    (group perm : ℕ) (name : Bytes)
    → lib.contains event "group_id" ≡ true
    → number_at lib event "group_id" ≡ ok group
    → plain_text lib event ≡ ok name
    → is_empty name ≡ false
    → get_user_permission lib config event ≡ ok perm
    → check_service name m ≡ true
    → ((x : Ref) → IsLevel (w.heap x).manage_permission)
    → let rs = equal_range name m.service_name_map in
      (w' : World) × (message : Bytes) × (handle_enable_sv lib config event m w
        ≡ ok (w', Action.send_group_msg group message ∷ []))
      × ((x : Ref)
          → Effect true group
              (member x rs)
              (leb (w.heap x).manage_permission perm)
              (w.heap x)
              (w'.heap x))
      × (((all (λ r. leb (w.heap r).manage_permission perm) rs ≡ true)
            × (message ≡ success "启用" name))
          ⊎ (all (λ r. leb (w.heap r).manage_permission perm) rs ≡ false))
unfolding handle_enable_sv handle_switch hint_msg check_permission
handle_enable_sv-Effect lib config event m w group perm name in_group from says some_text level
      known levels =
    let (effects, ret) = group_enable_named-Effect name group perm m w in
    let called = group_enable_named name group perm m w in
    let rs = equal_range name m.service_name_map in
    let (names, named) =
      level_names-levels rs w.heap called.0.heap
        (λ x.
          Effect-manage true group (member x rs) (leb (w.heap x).manage_permission perm) (w.heap x)
            (called.0.heap x) (effects x))
        levels in
    rw in_group (
      rw from (
        rw says (
          rw level (
            rw (some_text, known)
              (elim (Bool-cases called.1) [
                | inl done ↦
                    rw done (called.0, success "启用" name, refl, effects, inl (sym ret ∙ done, refl))
                | inr refused ↦
                    rw refused (rw named (called.0, _, refl, effects, inr (sym ret ∙ refused)))
              ])))))
