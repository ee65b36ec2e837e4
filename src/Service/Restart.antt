-- ===== src/Service/Restart.antt =====
-- source/service/service.h, `LoadConfig` and `SaveConfig`: the file keeps the switches, so a service
-- that is constructed again under the same name has them as they were.
use migang_bot_cpp.Base.{
  ℕ, ◌≡◌, refl, ◌≢◌, Bool, ◌||◌, some, List, [], ◌∷◌, Bytes, bytes_eq, bytes_beq_iff, nat_eq, arith,
  lookup, insert, lookup-insert, member, emplace, member-emplace, remove, ok, Option-cases, inl,
  inr, Bool-cases,
}
use migang_bot_cpp.Permission.{always_on}
use migang_bot_cpp.Service.{
  Service, Disk, ConfigFile, save_config, insert_groups, read_or_create, load_config, make_service,
  forget_group, note_group, group_enable, group_disable,
}

-- The service, its `config_` and its file agree.
pub record IsSaved (s : Service) (disk : Disk) : Type 0 where
  pub on_disk : lookup s.service_name disk ≡ some s.config
  pub default_kept : s.config.enable_on_default ≡ some s.enable_on_default
  pub groups_kept : (g : ℕ) → member g s.config.groups ≡ member g s.groups

member-insert_groups :
    (g : ℕ) (gs groups : List ℕ)
    → member g (insert_groups gs groups) ≡ (member g gs || member g groups)
unfolding insert_groups member
member-insert_groups g [] groups = refl
member-insert_groups g (x ∷ gs) groups =
    ground (arith, member-insert_groups g gs (emplace x groups), member-emplace x g groups)

lookup-insert_self :
    (name : Bytes) (file : ConfigFile) (disk : Disk)
    → lookup name (insert name file disk) ≡ some file
lookup-insert_self name file disk =
    ground (arith, lookup-insert name name file disk, bytes_beq_iff name name)

save_config-IsSaved :
    (s : Service) (disk : Disk)
    → s.config.enable_on_default ≡ some s.enable_on_default
    → IsSaved (save_config s disk).0 (save_config s disk).1
unfolding save_config
save_config-IsSaved s disk e = record {
  on_disk = lookup-insert_self s.service_name _ disk;
  default_kept = e;
  groups_kept = λ g. refl;
}

read_or_create_lem :
    (s : Service) (disk : Disk)
    → lookup s.service_name (read_or_create s disk).1 ≡ some (read_or_create s disk).0
unfolding read_or_create
read_or_create_lem s disk = elim (Option-cases (lookup s.service_name disk)) [
  | inl e ↦ rw (e, read_or_create) (lookup-insert_self s.service_name _ disk)
  | inr (file, e) ↦ rw (e, read_or_create) e
]

load_config-IsSaved :
    (s s' : Service) (disk disk' : Disk)
    → s.manage_permission ≢ always_on
    → s.groups ≡ []
    → load_config s disk ≡ ok (s', disk')
    → IsSaved s' disk'
unfolding load_config member
load_config-IsSaved s s' disk disk' managed empty e = record {
  on_disk = ground (arith, read_or_create_lem s disk);
  default_kept = ground arith;
  groups_kept =
      λ g. ground (arith, member-insert_groups g (read_or_create s disk).0.groups s.groups);
}

-- A constructed service, unless it is managed by ALWAYS_ON, agrees with its file.
pub make_service-IsSaved :
    (name description : Bytes) (need manage : ℕ) (default to_me : Bool) (s : Service)
    (disk disk' : Disk)
    → manage ≢ always_on
    → make_service name description need manage default to_me disk ≡ ok (s, disk')
    → IsSaved s disk'
unfolding make_service
make_service-IsSaved name description need manage default to_me s disk disk' managed e =
    load_config-IsSaved _ s disk disk' managed refl e

forget_group-IsSaved :
    (group : ℕ) (s : Service) (disk : Disk)
    → IsSaved s disk
    → IsSaved (forget_group group s disk).0 (forget_group group s disk).1
unfolding forget_group
forget_group-IsSaved group s disk v =
    save_config-IsSaved (record s { groups = remove group s.groups }) disk v.default_kept

note_group-IsSaved :
    (group : ℕ) (s : Service) (disk : Disk)
    → IsSaved s disk
    → IsSaved (note_group group s disk).0 (note_group group s disk).1
unfolding note_group
note_group-IsSaved group s disk v = elim (Bool-cases (member group s.groups)) [
  | inl old ↦ rw old v
  | inr new ↦
      rw new (save_config-IsSaved (record s { groups = group ∷ s.groups }) disk v.default_kept)
]

-- Enabling or disabling a group, permitted or not, keeps the service and its file in agreement.
pub group_switch-IsSaved :
    (group permission : ℕ) (s : Service) (disk : Disk)
    → IsSaved s disk
    → IsSaved (group_enable group permission s disk).0 (group_enable group permission s disk).1
      × IsSaved (group_disable group permission s disk).0 (group_disable group permission s disk).1
unfolding group_enable group_disable
group_switch-IsSaved group permission s disk v =
    ground (arith, forget_group-IsSaved group s disk v, note_group-IsSaved group s disk v)
