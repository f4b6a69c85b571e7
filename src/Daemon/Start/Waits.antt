-- ===== src/Daemon/Start/Waits.antt =====
-- The daemon that starts from a configuration file: src/icmpd/subcmd_start.c with the loader, the
-- queries and the workers.
use inter_container_messagin.Base.{
  ◌⊎◌, inl, inr, none, bytes_eq_iff, ℕ, ◌^◌, ◌≤◌, ◌<◌, ◌≡◌, ◌≢◌, refl, ap, ◌∙◌, Bool, true, some,
  List, [], ◌∷◌, ◌++◌, Bytes, ok, arith, length, length-append,
}
use inter_container_messagin.Base.Word.{pos}
use inter_container_messagin.StringTree.Path.{NoDot}
use inter_container_messagin.StringTree.Find.{colons}
use inter_container_messagin.Util.Split.{AllLack, EndsFull, split_string-behind}
use inter_container_messagin.Container.{conf_file_query, Host, HostName}
use inter_container_messagin.Yaml.Settings.{section, Settings, value_at, IsPlain}
use inter_container_messagin.Yaml.Query.{
  HoldsSettings, conf_file_parse-nodes_of, conf_file_query-value_at,
}
use inter_container_messagin.Lxc.{Directory}
use inter_container_messagin.Daemon.Acl.{host_name, container_essential, star}
use inter_container_messagin.Daemon.Acl.Granted.{container_name_name, not-star}
use inter_container_messagin.Daemon.Acl.Loaded.{loaded_host, container_name-value_at}
use inter_container_messagin.Daemon.Workers.{Workers}
use inter_container_messagin.Daemon.Workers.Recorded.{IsAble, Records, create_transport-recorded}
use inter_container_messagin.Daemon.Start.{
  dot_monitor, DaemonOptions, Machine, pausing, daemonlize, monitored_list, monitor_setting,
  init_context, run_start,
}

-- "monitor"
abbrev pub monitor_name : Bytes
monitor_name = b'm' ∷ b'o' ∷ b'n' ∷ b'i' ∷ b't' ∷ b'o' ∷ b'r' ∷ []

-- The list of the containers that a container monitors: its own, or for the essential container, if it
-- has none, that of the host.
abbrev pub Lists : Settings → Bytes → Bytes → Type 0
Lists es own setting =
    (value_at own (monitor_name ∷ []) es ≡ some setting)
    ⊎ ((own ≡ container_essential)
        × (value_at own (monitor_name ∷ []) es ≡ none)
        × (value_at host_name (monitor_name ∷ []) es ≡ some setting))

-- The settings name the container, and list the containers that it monitors: at least one, none with
-- a colon, the last not empty, and not the one name "*".
pub record IsMonitoring (es : Settings) (own s : Bytes) (ss : List Bytes) : Type 0 where
  pub plain : IsPlain (section es)
  pub named : value_at container_name_name [] es ≡ some own
  pub dotless : NoDot own
  pub short : length own ≤ 4000
  pub listed : Lists es own (s ++ colons ss)
  pub colonless : AllLack b':' (s ∷ ss)
  pub ends_full : EndsFull s ss
  pub not_star : (s ∷ ss) ≢ (star ∷ [])

module _ (room : ℕ → Bool) (ample : (k : ℕ) → room k ≡ true) (hostname : ℕ → HostName)
    (es : Settings) (own s : Bytes) (ss : List Bytes) (monitoring : IsMonitoring es own s ss) where
  abbrev host : Host
  host = loaded_host room hostname es

  monitor_query :
      (t : Bytes)
      → NoDot t
      → length t ≤ 4000
      → conf_file_query host (b'.' ∷ (t ++ dot_monitor)) ≡ ok (value_at t (monitor_name ∷ []) es)
  monitor_query t nd short =
      conf_file_query-value_at room ample hostname es t (monitor_name ∷ []) monitoring.plain
        (nd, (ground arith, tt)) (omega (arith, short, length-append t (b'.' ∷ monitor_name)))

  monitor_setting-listed : monitor_setting host own ≡ ok (some (s ++ colons ss))
  unfolding monitor_setting
  monitor_setting-listed = elim monitoring.listed [
    | inl own_list ↦
        rw (monitor_query own monitoring.dotless monitoring.short ∙ ap ok own_list) refl
    | inr (essential, nothing, host_list) ↦
        rw (monitor_query own monitoring.dotless monitoring.short ∙ ap ok nothing) (
          rw ((bytes_eq_iff own container_essential).1 essential)
            (monitor_query host_name (ground arith) (omega arith) ∙ ap ok host_list))
  ]

  monitored_list-names :
      (dir : Directory) (array : Bool)
      → monitored_list room dir array (s ++ colons ss) ≡ ok (some (s ∷ ss))
  unfolding monitored_list
  monitored_list-names dir array =
      rw (not-star s ss monitoring.not_star) (
        rw (split_string-behind room ample b':' s ss monitoring.colonless monitoring.ends_full)
          refl)

  init_context-monitoring :
      (dir : Directory) (array : Bool)
      → init_context host dir array
        ≡ ok (some (record { container_name = own; monitored_container = s ∷ ss }))
  unfolding init_context
  init_context-monitoring dir array =
      rw (container_name-value_at room ample hostname es monitoring.plain own monitoring.named)
        (rw monitor_setting-listed (rw (monitored_list-names dir array) refl))

-- A daemon that is started where all its calls succeed, on a file that holds settings with distinct
-- names, which name its container and list the containers that it monitors (under its own name, or
-- on the essential container without a list of its own under that of the host), ends up pausing
-- with the name and the list of the file, and beside a vector of its workers: one process for each
-- container on the list but its own, in the order of the list, which are those that `stop_worker`
-- would kill. The list has at least one and fewer than 2 ^ 27 names, none with a colon, the last
-- not empty, and is not just "*"; the own name has no dot and at most 4000 bytes, and process
-- numbers are positive and below 2 ^ 31.
pub run_start-pausing :
    (m : Machine) (opts : DaemonOptions) (es : Settings) (own s : Bytes) (ss : List Bytes)
    (pid : ℕ → ℕ)
    → ((k : ℕ) → m.room k ≡ true)
    → daemonlize m.detaching opts ≡ ok (pos 0)
    → HoldsSettings (m.file opts.conf_file) m.stack es
    → IsMonitoring es own s ss
    → IsAble m.processes pid
    → length (s ∷ ss) < 2 ^ 27
    → (v : Workers) × (run_start m opts
        ≡ ok (pausing (record { container_name = own; monitored_container = s ∷ ss }) (some v)))
      × Records pid own (s ∷ ss) v
unfolding run_start
run_start-pausing m opts es own s ss pid ample detached holds monitoring able small =
    let (v, e, records) = create_transport-recorded m.processes pid own s ss able small in
    (
      v,
      rw detached (
          rw (conf_file_parse-nodes_of m.room ample m.stack (m.file opts.conf_file) es holds) (
            rw
              (init_context-monitoring m.room ample m.hostname es own s ss monitoring m.lxc m.array)
              (rw e refl))),
      records,
    )
