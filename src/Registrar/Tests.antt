-- ===== src/Registrar/Tests.antt =====
-- source/event/Registrar.h: a module that registers one service with one prefix.
use migang_bot_cpp.Base.{
  ◌≡◌, refl, true, false, some, [], ◌∷◌, ◌++◌, Bytes, bytes_beq, codes, nat_beq, lookup, ok,
}
use migang_bot_cpp.Trie.{Ref, new_node}
use migang_bot_cpp.Trie.Registry.{register_all}
use migang_bot_cpp.Service.{
  Service, ConfigFile, Disk, make_service, load_config, read_or_create, insert_groups,
}
use migang_bot_cpp.ServiceManager.{World, update, equal_range, register_service}
use migang_bot_cpp.ServiceManager.Listing.{IsSorted}
use migang_bot_cpp.EventHandler.{RegexLib}
use migang_bot_cpp.EventHandler.Register.{prefix}
use migang_bot_cpp.Registrar.{
  ServiceArgs, App, construct, enlist, register_commands, on_command, on_prefix,
}
use migang_bot_cpp.Registrar.Effects.{commands_of, on_prefix_lem}

abbrev literal : RegexLib
literal = record { Regex = Bytes; compile = λ pattern options. pattern; match = bytes_beq }

abbrev file : ConfigFile
file = record { enable_on_default = some true; groups = [] }

abbrev disk : Disk
disk = (codes "echo", file) ∷ []

abbrev echo : Service
echo = record {
  service_name = codes "echo";
  description = [];
  manage_permission = 4;
  enable_on_default = true;
  groups = [];
  config = file;
  use_permission = 1;
  only_to_me = false;
}

abbrev args : ServiceArgs
args = record {
  description = [];
  use_permission = 1;
  manage_permission = 4;
  enable_on_default = true;
  only_to_me = false;
}

abbrev app : App literal
app = record {
  handler = record {
    command_fullmatch = [];
    command_prefix = new_node;
    command_suffix = new_node;
    command_regex = [];
    all_msg_handler = [];
    notice_handler = [];
    request_handler = [];
  };
  manager = record { service_name_map = []; bundle_service_map = [] };
  world = record { heap = λ r. echo; disk = disk };
  next = 3;
}

abbrev world : World
world = record { heap = update app.world.heap 3 echo; disk = disk }

abbrev registered : App literal
registered = record {
  handler = register_commands literal prefix (codes ".echo" ∷ []) 3 app.handler;
  manager = register_service (codes "tools") 3 world app.manager;
  world = world;
  next = 4;
}

on_prefix_run :
    on_prefix literal (codes ".echo" ∷ []) (codes "echo", codes "tools") args app ≡ ok registered
unfolding on_prefix on_command construct enlist make_service load_config read_or_create
    insert_groups lookup bytes_beq
on_prefix_run = refl

on_prefix_lem_example :
    (registered.handler.command_prefix
      ≡ register_all false ([] ++ commands_of 3 (codes ".echo" ∷ [])) new_node)
    × ((registered.world.heap 3).service_name ≡ codes "echo")
    × (equal_range (codes "echo") registered.manager.service_name_map
        ≡ equal_range (codes "echo") app.manager.service_name_map ++ 3 ∷ [])
    × IsSorted registered.manager.service_name_map
    × ((x : Ref) → nat_beq 3 x ≡ false → registered.world.heap x ≡ app.world.heap x)
unfolding register_all
on_prefix_lem_example =
    on_prefix_lem literal (codes ".echo" ∷ []) (codes "echo") (codes "tools") args app registered []
      on_prefix_run refl tt
