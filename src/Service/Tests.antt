-- ===== src/Service/Tests.antt =====
-- source/service/service.h: a service and its switches at concrete groups.
use migang_bot_cpp.Base.{
  ◌≡◌, refl, true, false, some, [], ◌∷◌, codes, bytes_eq, bytes_beq, emplace, lookup, member, ok,
}
use migang_bot_cpp.Service.{
  Service, Disk, ConfigFile, make_service, load_config, read_or_create, insert_groups, group_enable,
  group_disable,
}
use migang_bot_cpp.Service.Restart.{IsSaved, group_switch-IsSaved}

abbrev file : ConfigFile
file = record { enable_on_default = some true; groups = 7 ∷ [] }

abbrev disk : Disk
disk = (codes "echo", file) ∷ []

abbrev echo : Service
echo = record {
  service_name = codes "echo";
  description = [];
  manage_permission = 4;
  enable_on_default = true;
  groups = 7 ∷ [];
  config = file;
  use_permission = 1;
  only_to_me = false;
}

constructed : make_service (codes "echo") [] 1 4 false false disk ≡ ok (echo, disk)
unfolding make_service load_config read_or_create insert_groups lookup member bytes_beq emplace
constructed = refl

echo-IsSaved : IsSaved echo disk
unfolding lookup bytes_beq
echo-IsSaved = record { on_disk = refl; default_kept = refl; groups_kept = λ g. refl }

group_switch-IsSaved_example :
    IsSaved (group_enable 7 5 echo disk).0 (group_enable 7 5 echo disk).1
    × IsSaved (group_disable 7 5 echo disk).0 (group_disable 7 5 echo disk).1
group_switch-IsSaved_example = group_switch-IsSaved 7 5 echo disk echo-IsSaved
