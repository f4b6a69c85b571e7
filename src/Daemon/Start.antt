-- ===== src/Daemon/Start.antt =====
-- The start of the daemon, in src/icmpd/subcmd_start.c: `parse_arg`, `daemonlize`, `init_context` and
-- `run_start`.
pub mod Waits
pub mod Refused
pub mod Listing
use inter_container_messagin.Base.{
  ℕ, zero, Bool, true, false, Option, none, some, List, [], ◌∷◌, ◌++◌, Bytes, Run, ok, fault,
  exited, ◌>>=◌, ◌==◌, if◌then◌else◌, bytes_eq,
}
use inter_container_messagin.Base.Word.{ℤ, pos, negsuc}
use inter_container_messagin.Message.{rc_ok, rc_error}
use inter_container_messagin.StringTree.{root}
use inter_container_messagin.Util.{split_string}
use inter_container_messagin.Container.{Host, HostName, conf_file_query, container_name}
use inter_container_messagin.Yaml.{File, conf_file_parse}
use inter_container_messagin.Vector.{Vector}
use inter_container_messagin.Vector.Lifetime.{vector_destroy, to_string_array}
use inter_container_messagin.Lxc.{Directory, default_lxc_path, list_defined_containers}
use inter_container_messagin.Daemon.Acl.{container_essential, colon, star}
use inter_container_messagin.Daemon.Workers.{Processes, Workers, create_transport}

-- "/etc/icmpd.conf"
abbrev pub icmpd_default_conf_file : Bytes
icmpd_default_conf_file =
    b'/' ∷ b'e' ∷ b't' ∷ b'c' ∷ b'/' ∷ b'i' ∷ b'c' ∷ b'm' ∷ b'p' ∷ b'd' ∷ b'.' ∷ b'c' ∷ b'o' ∷ b'n'
    ∷ b'f' ∷ []

-- ".monitor" and ".host.monitor"
abbrev pub dot_monitor : Bytes
dot_monitor = b'.' ∷ b'm' ∷ b'o' ∷ b'n' ∷ b'i' ∷ b't' ∷ b'o' ∷ b'r' ∷ []

abbrev pub host_monitor_path : Bytes
host_monitor_path =
    b'.' ∷ b'h' ∷ b'o' ∷ b's' ∷ b't' ∷ b'.' ∷ b'm' ∷ b'o' ∷ b'n' ∷ b'i' ∷ b't' ∷ b'o' ∷ b'r' ∷ []

-- `opt_conf_file`, `opt_log_file` and `opt_daemon`
pub record DaemonOptions : Type 0 where
  pub conf_file : Bytes
  pub log_file : Option Bytes
  pub daemon : Bool

abbrev pub default_options : DaemonOptions
default_options = record { conf_file = icmpd_default_conf_file; log_file = none; daemon = false }

-- `parse_arg`
unfoldable pub parse_arg : ℕ → Bytes → DaemonOptions → DaemonOptions × ℤ
parse_arg opt optarg opts =
    if opt == b'l'
    then (record opts { log_file = some optarg }, rc_ok)
    else if opt == b'c'
    then (record opts { conf_file = optarg }, rc_ok)
    else if opt == b'd'
    then (record opts { daemon = true }, rc_ok)
    else (opts, rc_error)

-- Which of the calls of `daemonlize` succeed: `daemon`, the two of `open`, and the three of `dup2`.
pub record Detaching : Type 0 where
  pub detached : Bool
  pub log_opened : Bytes → Bool
  pub null_opened : Bool
  pub input_moved : Bool
  pub output_moved : Bool
  pub errors_moved : Bool

-- `ic_assert`
abbrev pub ic_assert : Bool → Run (Unit {0})
ic_assert true = ok tt
ic_assert false = exited

unfoldable pub daemonlize : Detaching → DaemonOptions → Run ℤ
daemonlize d opts = (if opts.daemon then ic_assert d.detached else ok tt) >>= λ _.
    elim opts.log_file [
      | none ↦ ok (pos 0)
      | some file ↦ ic_assert (d.log_opened file) >>= λ _. ic_assert d.null_opened >>= λ _.
          ic_assert d.input_moved >>= λ _.
          ic_assert d.output_moved >>= λ _. ic_assert d.errors_moved >>= λ _. ok (pos 0)
    ]

-- What `init_context` sets of `icmpd_context_t`: its own name and the monitored containers. A string
-- is `none` where it is NULL.
pub record IcmpdContext : Type 0 where
  pub container_name : Bytes
  pub monitored_container : List Bytes

-- The strings of an array, up to one that is NULL
abbrev pub all_strings : List (Option Bytes) → Run (List Bytes)
all_strings [] = ok []
all_strings (none ∷ strings) = fault
all_strings (some s ∷ strings) = all_strings strings >>= λ rest. ok (s ∷ rest)

-- The branch for "*": the containers that LXC defines. `array` says whether the array can be
-- allocated.
unfoldable pub monitor_defined : (ℕ → Bool) → Directory → Bool → Run (Option (List Bytes))
monitor_defined room dir array =
    list_defined_containers room dir (some default_lxc_path) >>= λ listed. elim listed [
      | none ↦ ok none
      | some v ↦ to_string_array (some v) array >>= λ (strings, nr).
          vector_destroy v true (λ k. none) >>= λ _. elim nr [
            | negsuc n ↦ ok none
            | pos n ↦ elim strings [
              | none ↦ ok (some [])
              | some ss ↦ all_strings ss >>= λ names. ok (some names)
            ]
          ]
    ]

-- From the setting to the list of containers
unfoldable pub monitored_list : (ℕ → Bool) → Directory → Bool → Bytes → Run (Option (List Bytes))
unfolding monitor_defined
monitored_list room dir array setting =
    if bytes_eq setting star
    then monitor_defined room dir array
    else elim (split_string room setting colon) [ none ↦ fault | some names ↦ ok names ]

-- The setting `.NAME.monitor`, or that of the host on the essential container
unfoldable pub monitor_setting : Host → Bytes → Run (Option Bytes)
monitor_setting host name = conf_file_query host (b'.' ∷ (name ++ dot_monitor)) >>= λ found.
    elim found [
      | some setting ↦ ok (some setting)
      | none ↦
          let fallback = conf_file_query host host_monitor_path in
          if bytes_eq name container_essential then fallback else ok none
    ]

-- `init_context`: `none` is the return value -1.
unfoldable pub init_context : Host → Directory → Bool → Run (Option IcmpdContext)
unfolding monitored_list monitor_setting
init_context host dir array = container_name host >>= λ named. elim named [
  | none ↦ ok none
  | some name ↦ monitor_setting host name >>= λ found. elim found [
    | none ↦ ok none
    | some setting ↦ monitored_list host.room dir array setting >>= λ list. elim list [
      | none ↦ ok none
      | some names ↦ ok (some (record { container_name = name; monitored_container = names }))
    ]
  ]
]

-- The machine on which the daemon starts. `stack` is the depth of calls that its stack can hold.
pub record Machine : Type 0 where
  pub room : ℕ → Bool
  pub hostname : ℕ → HostName
  pub stack : ℕ
  pub file : Bytes → File
  pub detaching : Detaching
  pub lxc : Directory
  pub array : Bool
  pub processes : Processes

-- Where `run_start` gets to: it pauses for ever beside its workers, or returns a value.
pub data Daemon : Type 0 where
  pausing : IcmpdContext → Option Workers → Daemon
  returned : ℤ → Daemon

unfoldable pub run_start : Machine → DaemonOptions → Run Daemon
unfolding daemonlize init_context
run_start m opts = daemonlize m.detaching opts >>= λ _.
    conf_file_parse m.room m.stack (m.file opts.conf_file) root >>= λ (tree, rc). elim rc [
      | pos zero ↦
          init_context (record { room = m.room; hostname = m.hostname; tree = tree }) m.lxc m.array
          >>= λ initialized. elim initialized [
            | none ↦ ok (returned rc_error)
            | some ctx ↦
                create_transport m.processes ctx.container_name ctx.monitored_container
                >>= λ (workers, rc). elim rc [
                  | pos zero ↦ ok (pausing ctx workers)
                  | other ↦ ok (returned other)
                ]
          ]
      | other ↦ ok (returned other)
    ]
