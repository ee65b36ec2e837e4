-- ===== src/ServiceManager/Tests.antt =====
-- source/service/service_manager.h: the registry with concrete services.
use migang_bot_cpp.Base.{
  ℕ, ◌≡◌, refl, true, false, some, [], ◌∷◌, ◌++◌, bytes_beq, codes, all, leb, member, nat_eq,
  if◌then◌else◌,
}
use migang_bot_cpp.Trie.{Ref}
use migang_bot_cpp.Service.{Service}
use migang_bot_cpp.ServiceManager.{
  World, ServiceManager, equal_range, register_service, group_enable_named, bytes_lt,
}
use migang_bot_cpp.ServiceManager.Switches.{Effect, group_enable_named-Effect}
use migang_bot_cpp.ServiceManager.Listing.{IsSorted, register_service-equal_range}

abbrev service : ℕ → Service
service manage = record {
  service_name = codes "echo";
  description = [];
  manage_permission = manage;
  enable_on_default = true;
  groups = 7 ∷ [];
  config = record { enable_on_default = some true; groups = 7 ∷ [] };
  use_permission = 1;
  only_to_me = false;
}

-- The service behind a pointer is managed with the permission of that number.
abbrev world : World
world = record { heap = service; disk = [] }

abbrev manager : ServiceManager
manager = record {
  service_name_map = (codes "echo", 4) ∷ (codes "echo", 6) ∷ (codes "help", 3) ∷ [];
  bundle_service_map = [];
}

group_enable_named-Effect_example :
    let rs = equal_range (codes "echo") manager.service_name_map in
    let (w', ret) = group_enable_named (codes "echo") 7 5 manager world in
    ((x : Ref)
      → Effect true 7
          (member x rs)
          (leb (world.heap x).manage_permission 5)
          (world.heap x)
          (w'.heap x))
    × (ret ≡ all (λ r. leb (world.heap r).manage_permission 5) rs)
group_enable_named-Effect_example = group_enable_named-Effect (codes "echo") 7 5 manager world

manager-IsSorted : IsSorted manager.service_name_map
unfolding bytes_lt
manager-IsSorted = ((refl, (refl, tt)), ((refl, tt), (tt, tt)))

register_service-equal_range_example :
    let m' = register_service (codes "tools") 5 world manager in
    IsSorted m'.service_name_map
    × (equal_range (codes "help") m'.service_name_map ≡ (
        if bytes_beq (world.heap 5).service_name (codes "help")
        then equal_range (codes "help") manager.service_name_map ++ 5 ∷ []
        else equal_range (codes "help") manager.service_name_map))
register_service-equal_range_example =
    register_service-equal_range (codes "tools") (codes "help") 5 world manager manager-IsSorted
