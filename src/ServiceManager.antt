-- ===== src/ServiceManager.antt =====
-- source/service/service_manager.h: the registry of services by name and by bundle. The services are
-- shared objects: a heap gives the object behind each `std::shared_ptr`. `std::multimap` is a list
-- sorted by name, entries of one name in the order in which they were registered.
pub mod Switches
pub mod Listing
mod Tests
use migang_bot_cpp.Base.{
  ℕ, Bool, true, false, ◌&&◌, ◌||◌, not, Option, none, some, List, [], ◌∷◌, ◌++◌, map, Bytes,
  bytes_beq, bytes_eq, nat_beq, ltb, lookup, insert, if◌then◌else◌, is_some,
}
use migang_bot_cpp.Trie.{Ref}
use migang_bot_cpp.Service.{Service, Disk, group_enable, group_disable, group_status}

-- The shared services, and the files of their settings.
pub record World : Type 0 where
  pub heap : Ref → Service
  pub disk : Disk

pub record ServiceManager : Type 0 where
  pub service_name_map : List (Bytes × Ref)
  pub bundle_service_map : List (Bytes × List (Bytes × Ref))

abbrev pub update : (Ref → Service) → Ref → Service → Ref → Service
update heap r s x = if nat_beq r x then s else heap x

-- `std::string::operator<`
unfoldable pub bytes_lt : Bytes → Bytes → Bool
bytes_lt [] [] = false
bytes_lt [] (y ∷ ys) = true
bytes_lt (x ∷ xs) [] = false
bytes_lt (x ∷ xs) (y ∷ ys) = ltb x y || (nat_beq x y && bytes_lt xs ys)

-- `std::multimap::emplace`: behind the entries of the same key.
unfoldable pub multi_emplace : Bytes → Ref → List (Bytes × Ref) → List (Bytes × Ref)
unfolding bytes_lt
multi_emplace k v [] = (k, v) ∷ []
multi_emplace k v ((j, w) ∷ m) =
    if bytes_lt k j then (k, v) ∷ (j, w) ∷ m else (j, w) ∷ multi_emplace k v m

-- `std::multimap::equal_range`, as the values of the range.
unfoldable pub equal_range : Bytes → List (Bytes × Ref) → List Ref
equal_range k [] = []
equal_range k ((j, w) ∷ m) = let rest = equal_range k m in if bytes_beq j k then w ∷ rest else rest

-- `CheckService`
unfoldable pub check_service : Bytes → ServiceManager → Bool
check_service name m = is_some (lookup name m.service_name_map)

-- `CheckPermission`
unfoldable pub check_permission : Bytes → ServiceManager → World → List ℕ
check_permission name m w =
    map (λ r. (w.heap r).manage_permission) (equal_range name m.service_name_map)

-- The loops of `GroupEnable` and `GroupDisable`: every service is called, whatever `ret` is.
unfoldable pub switch_all :
    (ℕ → ℕ → Service → Disk → Service × Disk × Bool) → ℕ → ℕ → List Ref → World → World × Bool
switch_all call group permission [] w = (w, true)
switch_all call group permission (r ∷ rs) w =
    let (s, disk, ret) = call group permission (w.heap r) w.disk in
    let (w', rest) =
      switch_all call group permission rs (record { heap = update w.heap r s; disk = disk }) in
    (w', ret && rest)

-- `GroupEnable`
unfoldable pub group_enable_named : Bytes → ℕ → ℕ → ServiceManager → World → World × Bool
group_enable_named name group permission m w =
    switch_all group_enable group permission (equal_range name m.service_name_map) w

-- `GroupDisable`
unfoldable pub group_disable_named : Bytes → ℕ → ℕ → ServiceManager → World → World × Bool
group_disable_named name group permission m w =
    switch_all group_disable group permission (equal_range name m.service_name_map) w

abbrev pub or_empty {ℓ} : {A : Type ℓ} → Option (List A) → List A
or_empty none = []
or_empty (some xs) = xs

-- `std::map::operator[]` for the bundles: the keys stay sorted, a missing one starts empty.
unfoldable pub bundle_emplace :
    Bytes → Bytes → Ref → List (Bytes × List (Bytes × Ref)) → List (Bytes × List (Bytes × Ref))
unfolding bytes_lt multi_emplace
bundle_emplace bundle k v [] = (bundle, multi_emplace k v []) ∷ []
bundle_emplace bundle k v ((b, entries) ∷ m) =
    if bytes_beq b bundle
    then (b, multi_emplace k v entries) ∷ m
    else if bytes_lt bundle b
    then (bundle, multi_emplace k v []) ∷ (b, entries) ∷ m
    else (b, entries) ∷ bundle_emplace bundle k v m

-- `RegisterService`
unfoldable pub register_service : Bytes → Ref → World → ServiceManager → ServiceManager
register_service bundle r w m = record {
  service_name_map = multi_emplace (w.heap r).service_name r m.service_name_map;
  bundle_service_map = bundle_emplace bundle (w.heap r).service_name r m.bundle_service_map;
}

abbrev described : World → Bytes × Ref → Bytes × Bytes
described w (name, r) = (name, (w.heap r).description)

abbrev described_in : ℕ → World → Bytes × Ref → Bytes × Bytes × Bool
described_in group w (name, r) = (name, (w.heap r).description, group_status group (w.heap r))

-- `GetServiceList()`
unfoldable pub get_service_list : ServiceManager → World → List (Bytes × Bytes)
get_service_list m w = map (described w) m.service_name_map

-- `GetServiceList(group_id)`
unfoldable pub get_service_list_in : ℕ → ServiceManager → World → List (Bytes × Bytes × Bool)
get_service_list_in group m w = map (described_in group w) m.service_name_map

-- `GetBundleService(bundle_name)`
unfoldable pub get_bundle_service : Bytes → ServiceManager → World → List (Bytes × Bytes)
get_bundle_service bundle m w = map (described w) (or_empty (lookup bundle m.bundle_service_map))

-- `GetBundleService(bundle_name, group_id)`
unfoldable pub get_bundle_service_in :
    Bytes → ℕ → ServiceManager → World → List (Bytes × Bytes × Bool)
get_bundle_service_in bundle group m w =
    map (described_in group w) (or_empty (lookup bundle m.bundle_service_map))

-- `GetBundleList`
unfoldable pub get_bundle_list : ServiceManager → List Bytes
get_bundle_list m = map (λ e. e.0) m.bundle_service_map

-- `CheckBundle`
unfoldable pub check_bundle : Bytes → ServiceManager → Bool
check_bundle bundle m = is_some (lookup bundle m.bundle_service_map)
