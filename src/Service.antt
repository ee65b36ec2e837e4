-- ===== src/Service.antt =====
-- source/service/service.h and triggered_service.h: a service, its switch for each group, and the
-- JSON file that keeps the switches. The mutex makes each call one step. The text of the file
-- (printed and read by nlohmann::json) is represented by the fields that it holds.
pub mod Switch
pub mod Restart
mod Tests
use migang_bot_cpp.Base.{
  ℕ, Bool, true, false, not, ◌||◌, Option, none, some, List, [], ◌∷◌, Bytes, bytes_eq, nat_beq,
  nat_eq, ltb, leb, lookup, insert, member, emplace, remove, if◌then◌else◌, Result, ok, or_fault,
  ◌>>=◌, Fault,
}
use migang_bot_cpp.Permission.{always_on}

-- `config_`, and the file's content: `enable_on_default` is missing until it is set.
pub record ConfigFile : Type 0 where
  pub enable_on_default : Option Bool
  pub groups : List ℕ

-- The files of `config::kServiceDir`, by service name: `config_path_` is the name with ".json".
abbrev pub Disk : Type 0
Disk = List (Bytes × ConfigFile)

-- `use_permission` and `only_to_me` are those of a `TriggeredService`.
pub record Service : Type 0 where
  pub service_name : Bytes
  pub description : Bytes
  pub manage_permission : ℕ
  pub enable_on_default : Bool
  pub groups : List ℕ
  pub config : ConfigFile
  pub use_permission : ℕ
  pub only_to_me : Bool

-- `SaveConfig`
unfoldable pub save_config : Service → Disk → Service × Disk
save_config s disk = (record s { config = saved }, insert s.service_name saved disk)
  where
    saved : ConfigFile
    saved = record { enable_on_default = s.config.enable_on_default; groups = s.groups }

-- The insertions of `LoadConfig` into the set of groups.
unfoldable pub insert_groups : List ℕ → List ℕ → List ℕ
insert_groups [] groups = groups
insert_groups (g ∷ gs) groups = insert_groups gs (emplace g groups)

-- The first half of `LoadConfig`: the content of the file, which is written if there is none.
unfoldable pub read_or_create : Service → Disk → ConfigFile × Disk
read_or_create s disk = elim (lookup s.service_name disk) [
  | some file ↦ (file, disk)
  | none ↦ (fresh, insert s.service_name fresh disk)
]
  where
    fresh : ConfigFile
    fresh = record { enable_on_default = some s.enable_on_default; groups = [] }

-- `LoadConfig`. A file without `enable_on_default` makes `get<bool>` throw.
unfoldable pub load_config : Service → Disk → Result (Service × Disk)
unfolding read_or_create insert_groups
load_config s disk = if nat_beq s.manage_permission always_on then ok (s, disk) else (do
  let (file, disk') = read_or_create s disk
  enabled ← or_fault file.enable_on_default Fault.type_error
  ok (
    record s {
      enable_on_default = enabled;
      groups = insert_groups file.groups s.groups;
      config = file;
    },
    disk',
  ))

-- The constructors, down to the first one of `TriggeredService`.
unfoldable pub make_service : Bytes → Bytes → ℕ → ℕ → Bool → Bool → Disk → Result (Service × Disk)
unfolding load_config
make_service name description use_permission manage_permission enable_on_default only_to_me disk =
    load_config
      (record {
        service_name = name;
        description = description;
        manage_permission = manage_permission;
        enable_on_default = enable_on_default;
        groups = [];
        config = record { enable_on_default = none; groups = [] };
        use_permission = use_permission;
        only_to_me = only_to_me;
      })
      disk

-- Taking a group out of the set, and putting it in: the two ways to turn the switch.
unfoldable pub forget_group : ℕ → Service → Disk → Service × Disk
unfolding save_config
forget_group group s disk = save_config (record s { groups = remove group s.groups }) disk

unfoldable pub note_group : ℕ → Service → Disk → Service × Disk
unfolding save_config
note_group group s disk =
    if member group s.groups
    then (s, disk)
    else save_config (record s { groups = group ∷ s.groups }) disk

abbrev pub done : Service × Disk → Service × Disk × Bool
done (s, disk) = (s, disk, true)

-- `GroupEnable`
unfoldable pub group_enable : ℕ → ℕ → Service → Disk → Service × Disk × Bool
unfolding forget_group note_group
group_enable group permission s disk =
    if ltb permission s.manage_permission
    then (s, disk, false)
    else if s.enable_on_default
    then done (forget_group group s disk)
    else done (note_group group s disk)

-- `GroupDisable`
unfoldable pub group_disable : ℕ → ℕ → Service → Disk → Service × Disk × Bool
unfolding forget_group note_group
group_disable group permission s disk =
    if ltb permission s.manage_permission
    then (s, disk, false)
    else if not s.enable_on_default
    then done (forget_group group s disk)
    else done (note_group group s disk)

-- `GroupStatus`
unfoldable pub group_status : ℕ → Service → Bool
group_status group s =
    if s.enable_on_default then not (member group s.groups) else member group s.groups

-- `TriggeredService::CheckPerm`
unfoldable pub check_perm : ℕ → Service → Bool
check_perm permission s = leb s.use_permission permission

-- `TriggeredService::CheckIsEnable`
unfoldable pub check_is_enable : ℕ → Service → Bool
check_is_enable group s =
    if s.enable_on_default then not (member group s.groups) else member group s.groups

-- `TriggeredService::CheckToMe`
unfoldable pub check_to_me : Bool → Service → Bool
check_to_me to_me s = not s.only_to_me || to_me
