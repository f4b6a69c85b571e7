-- ===== src/Examples/Starting.antt =====
-- The start of the daemon (src/icmpd/subcmd_start.c and src/lib/lxc.c) at concrete inputs.
use inter_container_messagin.Base.{
  inr, List, inl, ℕ, ◌+◌, ◌%◌, ◌≡◌, refl, true, some, [], ◌∷◌, ◌++◌, Bytes, ok, fault, arith,
  bytes_eq, get_elem?, ◌||◌,
}
use inter_container_messagin.Base.Word.{pos}
use inter_container_messagin.ErrorCode.{success}
use inter_container_messagin.Message.{rc_ok, rc_error}
use inter_container_messagin.StringTree.{
  node, cons, nil, Nodes, query, query_node, query_children, query_leaf, matches,
}
use inter_container_messagin.Container.{Host, no_name, container_name, conf_file_query}
use inter_container_messagin.Yaml.{YamlNode, scalar, mapping, Document}
use inter_container_messagin.Yaml.Settings.{value_at, Settings, text, end, entry, ArePlain}
use inter_container_messagin.Yaml.Query.{HoldsSettings}
use inter_container_messagin.Daemon.Start.Refused.{IsUnlisted, run_start-unlisted}
use inter_container_messagin.StringTree.Find.{colon_joined}
use inter_container_messagin.Vector.{Vector}
use inter_container_messagin.Vector.Slots.{get_obj}
use inter_container_messagin.Lxc.{
  Directory, default_lxc_path, list_defined_containers, is_defined, config_file_exists,
}
use inter_container_messagin.Lxc.Defined.{list_defined_containers-defined}
use inter_container_messagin.Daemon.Acl.{star}
use inter_container_messagin.Daemon.Workers.{Processes, Workers, create_transport}
use inter_container_messagin.Daemon.Workers.Recorded.{IsAble, Records, create_transport-recorded}
use inter_container_messagin.Daemon.Start.{
  default_options, daemonlize, Machine, returned, run_start, init_context, monitor_setting,
}
use inter_container_messagin.Daemon.Start.Waits.{IsMonitoring}
use inter_container_messagin.Daemon.Start.Listing.{init_context-star-fault}
use inter_container_messagin.Examples.Text.{codes}
use inter_container_messagin.Examples.Loading.{file, settings, file-HoldsSettings}

-- `fork` numbers the workers from 100.
abbrev processes : Processes
processes = record {
  signals = true;
  fork = λ i. some (100 + i % 4);
  block = true;
  realloc = true;
  blocks = λ i. some (0 ∷ 0 ∷ 0 ∷ 0 ∷ []);
}

pub processes-IsAble : IsAble processes (λ i. 100 + i % 4)
processes-IsAble = record {
  signals = refl;
  forks = λ i. refl;
  positive = λ i. (omega arith, omega arith);
  block = refl;
  realloc = refl;
  blocks = λ i. (0 ∷ 0 ∷ 0 ∷ 0 ∷ [], refl);
}

create_transport-recorded_example :
    (v : Workers) × (create_transport processes (codes "c1") (codes "a" ∷ codes "c1" ∷ [])
      ≡ ok (some v, rc_ok))
    × Records (λ i. 100 + i % 4) (codes "c1") (codes "a" ∷ codes "c1" ∷ []) v
create_transport-recorded_example =
    create_transport-recorded processes (λ i. 100 + i % 4) (codes "c1") (codes "a")
      (codes "c1" ∷ []) processes-IsAble (omega arith)

-- Two containers are defined, and one entry has no configuration.
abbrev containers : Directory
containers = record {
  entries = some (codes "." ∷ codes ".." ∷ codes "c1" ∷ codes "tmp" ∷ codes "c2" ∷ []);
  exists = λ path.
      bytes_eq path (codes "/var/lib/lxc/c1/config")
      || bytes_eq path (codes "/var/lib/lxc/c2/config");
  block = true;
}

list_defined_containers-defined_example :
    (v : Vector Bytes) × (list_defined_containers (λ n. true) containers (some default_lxc_path)
      ≡ ok (some v))
    × (v.nr_vector ≡ 2)
    × ((j : ℕ) (name : Bytes)
        → get_elem? (codes "c1" ∷ codes "c2" ∷ []) j ≡ some name
        → get_obj v (pos j) ≡ ok (some (name ++ (0 ∷ [])), success))
unfolding is_defined config_file_exists bytes_eq
list_defined_containers-defined_example =
    list_defined_containers-defined (λ n. true) (λ n. refl) containers default_lxc_path
      (codes "." ∷ codes ".." ∷ codes "c1" ∷ codes "tmp" ∷ codes "c2" ∷ []) refl refl (omega arith)

-- container_name: c1
-- c1: {monitor: "*"}
abbrev all_monitored : Nodes
all_monitored =
    cons (node (some (codes "container_name")) (cons (node (some (codes "c1")) nil) nil)) (
      cons
        (node (some (codes "c1"))
          (cons (node (some (codes "monitor")) (cons (node (some star) nil) nil)) nil))
        nil)

abbrev all_host : Host
all_host = record {
  room = λ n. true;
  hostname = λ n. no_name;
  tree = node (some (b'.' ∷ [])) all_monitored;
}

init_context-star-fault_example : init_context all_host containers true ≡ fault
unfolding container_name monitor_setting conf_file_query query query_node query_children query_leaf
    matches is_defined config_file_exists bytes_eq
init_context-star-fault_example =
    init_context-star-fault all_host (λ n. refl) containers (codes "c1") (codes "c1")
      (codes "." ∷ codes ".." ∷ codes "c1" ∷ codes "tmp" ∷ codes "c2" ∷ []) (codes "c2" ∷ []) refl
      refl refl refl (omega arith) refl

abbrev pub machine : Machine
machine = record {
  room = λ n. true;
  hostname = λ n. no_name;
  stack = 4;
  file = λ path. file;
  detaching = record {
    detached = true;
    log_opened = λ path. true;
    null_opened = true;
    input_moved = true;
    output_moved = true;
    errors_moved = true;
  };
  lxc = containers;
  array = true;
  processes = processes;
}

pub settings-IsMonitoring : IsMonitoring settings (codes "c1") (codes "a") (codes "c1" ∷ [])
unfolding value_at bytes_eq colon_joined
settings-IsMonitoring = record {
  plain = file-HoldsSettings.plain;
  named = refl;
  dotless = ground arith;
  short = omega arith;
  listed = inl refl;
  colonless = ground arith;
  ends_full = λ e. ground (arith, e);
  not_star = λ e. ground (arith, e);
}

-- container_name: c1
abbrev bare_nodes : List YamlNode
bare_nodes = mapping ((1, 2) ∷ []) ∷ scalar (codes "container_name") ∷ scalar (codes "c1") ∷ []

abbrev bare_document : Document
bare_document = record { get_node = get_elem? bare_nodes; root_node = get_elem? bare_nodes 0 }

abbrev bare_settings : Settings
bare_settings = entry (codes "container_name") (text (codes "c1")) end

abbrev bare_machine : Machine
bare_machine = record machine {
  file = λ path. record {
    readable = true;
    initialized = true;
    opened = true;
    loaded = some bare_document;
  };
}

bare-ArePlain : ArePlain bare_settings
unfolding bytes_eq
bare-ArePlain = ground arith

bare-HoldsSettings : HoldsSettings (bare_machine.file []) 4 bare_settings
bare-HoldsSettings = record {
  document = bare_document;
  top = mapping ((1, 2) ∷ []);
  readable = refl;
  initialized = refl;
  opened = refl;
  loaded = refl;
  rooted = refl;
  shows = ((1, 2) ∷ [], refl, (refl, (scalar (codes "c1"), refl, refl), tt));
  plain = (bare-ArePlain, λ e. ground (arith, e));
  shallow = omega arith;
}

bare-IsUnlisted : IsUnlisted bare_settings (codes "c1")
unfolding value_at bytes_eq
bare-IsUnlisted = record {
  plain = bare-HoldsSettings.plain;
  named = refl;
  dotless = ground arith;
  short = omega arith;
  no_list = refl;
  no_host_list = inr refl;
}

run_start-unlisted_example :
    run_start bare_machine (record default_options { daemon = true }) ≡ ok (returned rc_error)
unfolding daemonlize
run_start-unlisted_example =
    run_start-unlisted bare_machine (record default_options { daemon = true }) refl bare_settings
      (codes "c1") (λ k. refl) bare-HoldsSettings bare-IsUnlisted
