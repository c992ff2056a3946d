-- ===== src/Tests/Compose.antt =====
-- A compose project with one service and one network, beside an external network that it does not use.
use zerobased.Base.Text.{trim_space, to_lower, is_alphanumeric}
use zerobased.Up.Environment.{Request}
use zerobased.Compose.Names.{
  project_name, sanitize_name, replace_runs, trim_left_underscores, trim_right_underscores,
  take_chars,
}
use zerobased.Compose.Project.{
  Tools, start, load, select, check_and_label, inject_labels, resolve_files, with_defaults, stop,
}
use zerobased.Compose.Project.Started.{labelled, found_files, start-IsIsolated}
use zerobased.Compose.Docker.{Docker, over_docker, new_default_lifecycle, up, down}
use zerobased.Compose.Docker.RollBack.{
  Call, ups, downs, Journal, RolledBack, start-RolledBack, stop-start,
}
use zerobased.Tests.Samples.{small_table}
use zerobased.Base.{
  ℕ, suc, some, pos, ◌≡◌, refl, String, true, false, List, [], ◌∷◌, ◌++◌, All, string_eq, nat_eq,
}
use zerobased.Base.Dict
use zerobased.Base.Sorting.{sort_strings}
use zerobased.Zberr.Errors.{Error, plain, nil, is_nil, new}
use zerobased.Compose.Policies.{
  RawResource, RawComposeFile, load_raw_policies, load_files, add_file, add_resources, add_resource,
}
use zerobased.Compose.Isolation.{
  ComposeGo, validate_isolation, check_services, check_service, check_resources,
}
use zerobased.Compose.Isolation.Safety.{IsContained, IsPlain, IsIsolated, isolation_lem}

-- A project is the name of its only service, and a service is its network mode.
abbrev small_compose : ComposeGo
small_compose = record {
  Project = String;
  Service = String;
  service_names = λ p. p ∷ [];
  get_service = λ name p. (nil, "");
  container_name = λ s. "";
  has_ports = λ s. false;
  network_mode = λ s. s;
  net = λ s. "";
  pid = λ s. "";
  ipc = λ s. "";
  cgroup = λ s. "";
  has_provider = λ s. false;
  networks = λ p. "front" ∷ [];
  volumes = λ p. [];
  secrets = λ p. [];
  configs = λ p. [];
}

abbrev own : RawResource
own = record { name = ""; external = record { is_set = false; active = false } }

abbrev shared : RawResource
shared = record { name = "lan"; external = record { is_set = true; active = true } }

abbrev raw : RawComposeFile
raw = record {
  networks = ("front", own) ∷ ("lan", shared) ∷ [];
  volumes = [];
  secrets = [];
  configs = [];
}

abbrev read : String → Error × String
read file = (nil, file)

abbrev decode : String → Error × RawComposeFile
decode content = (nil, raw)

isolation_lem_example :
    All
      (λ name. IsContained small_compose ((small_compose.get_service name "db").1))
      (sort_strings ("db" ∷ []))
    × All
        (λ name. All (λ (file : String). All (IsPlain name) raw.networks) ("compose.yaml" ∷ []))
        ("front" ∷ [])
    × All (λ name. All (λ (file : String). All (IsPlain name) raw.volumes) ("compose.yaml" ∷ [])) []
    × All (λ name. All (λ (file : String). All (IsPlain name) raw.secrets) ("compose.yaml" ∷ [])) []
    × All (λ name. All (λ (file : String). All (IsPlain name) raw.configs) ("compose.yaml" ∷ [])) []
unfolding validate_isolation check_services check_service check_resources load_raw_policies
    load_files add_file add_resources add_resource sort_strings Dict.lookup Dict.insert string_eq
isolation_lem_example = isolation_lem read decode small_compose ("compose.yaml" ∷ []) "db" refl refl

-- The project that uses the external network is refused.
refuses :
    is_nil (
      check_resources "network"
        ((load_raw_policies read decode ("compose.yaml" ∷ [])).1).networks
        ("lan" ∷ []))
    ≡ false
unfolding check_resources load_raw_policies load_files add_file add_resources add_resource
    Dict.lookup Dict.insert string_eq new
refuses = refl

-- Docker that counts its calls.
abbrev small_tools : Tools
small_tools = record {
  compose = small_compose;
  Options = String;
  World = ℕ;
  sha256_hex = λ s. "0123456789abcdef";
  absolute = λ path. (nil, path);
  stat = λ path. nil;
  read_file = read;
  unmarshal = decode;
  new_options = λ files dir name profiles. (nil, name);
  load_project = λ name. (nil, "db");
  with_selected_services = λ services p. (nil, p);
  without_unnecessary = λ p. p;
  set_identity = λ name dir p. p;
  compose_files = λ p. [];
  transform_services = λ f p. (nil, p);
  add_custom_label = λ key value s. s;
  set_label = λ key value s. s;
  project_label = "project";
  service_label = "service";
  version_label = "version";
  working_dir_label = "dir";
  config_files_label = "files";
  oneoff_label = "oneoff";
  compose_version = "5";
  lifecycle_error = nil;
  up = λ p w. (nil, suc w);
  down = λ p w. (nil, suc w);
}

abbrev shop_request : Request
shop_request = record {
  project_dir = "/shop";
  stack_name = "shop";
  profile = "dev";
  session_id = "s1";
  files = "/shop/compose.yaml" ∷ [];
  compose_profiles = [];
  services = [];
  ownership = "owned";
  rollback_timeout = pos 0;
}

compose_code : Unit {0}
unfolding start load select check_and_label inject_labels resolve_files with_defaults
    validate_isolation check_services check_service check_resources load_raw_policies load_files
    add_file add_resources add_resource sort_strings Dict.lookup Dict.insert string_eq nat_eq
    trim_space
compose_code = tt

start-IsIsolated_example :
    (start small_tools shop_request 0 ≡ (nil, some "db", 1))
    × ((project : String) × ("db" ≡ labelled small_tools shop_request project)
        × IsIsolated read decode small_compose (found_files small_tools shop_request) project)
unfolding compose_code
start-IsIsolated_example = start-IsIsolated small_tools shop_request 0 "db" refl refl

-- Other characters become single underscores, and none is left at the ends.
names : project_name small_tools.sha256_hex " m A!!p_" "" "/shop" ≡ "zb_m_a_p_dev_0123456789ab"
unfolding project_name sanitize_name replace_runs trim_left_underscores trim_right_underscores
    take_chars trim_space to_lower is_alphanumeric string_eq nat_eq
names = refl

-- A Docker that brings nothing up.
abbrev docker : Docker String
docker = record {
  Cli = Unit;
  Service = Unit;
  World = List Call;
  new_docker_cli = (nil, tt);
  initialize = λ cli. (nil, cli);
  new_compose_service = λ cli. (nil, tt);
  name = λ p. p;
  service_up = λ s p options w. (plain "port is taken", w ++ ups options.create.services ∷ []);
  service_down = λ s name options w. (nil, w ++ downs name ∷ []);
}

abbrev remembers : Journal String docker
remembers = record { calls = λ w. w; up_adds = λ s p o w. refl; down_adds = λ s name o w. refl }

-- The start is rolled back.
rolled_back :
    (start (over_docker small_tools docker) shop_request []).2 ≡ ups ("db" ∷ []) ∷ downs "db" ∷ []
unfolding compose_code new_default_lifecycle up down
rolled_back = refl

start-RolledBack_example :
    RolledBack small_tools docker remembers shop_request []
      (start (over_docker small_tools docker) shop_request [])
start-RolledBack_example = start-RolledBack small_tools docker remembers shop_request []

-- A Docker that brings the services up.
abbrev working_docker : Docker String
working_docker = record docker {
  service_up = λ s p options w. (nil, w ++ ups options.create.services ∷ []);
}

abbrev recalls : Journal String working_docker
recalls = record { calls = λ w. w; up_adds = λ s p o w. refl; down_adds = λ s name o w. refl }

brought_up : (start (over_docker small_tools working_docker) shop_request []).1 ≡ some "db"
unfolding compose_code new_default_lifecycle up down
brought_up = refl

stop-start_example :
    ((load (over_docker small_tools working_docker) shop_request).1 ≡ some "db")
    × ((stop
          (over_docker small_tools working_docker)
          true
          "db"
          (start (over_docker small_tools working_docker) shop_request []).2).1
        ≡ ups ("db" ∷ []) ∷ downs "db" ∷ [])
stop-start_example = stop-start small_tools working_docker recalls shop_request [] "db" brought_up
