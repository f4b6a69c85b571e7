-- ===== src/Daemon/Start/Refused.antt =====
-- The starts of src/icmpd/subcmd_start.c that do not come to the workers.
use inter_container_messagin.Base.{
  ◌⊎◌, inl, inr, none, bytes_eq_iff, ℕ, ◌≤◌, ◌≡◌, ◌≢◌, refl, ap, ◌∙◌, Bool, true, false, some, [],
  ◌∷◌, ◌++◌, Bytes, ok, exited, arith, length, length-append, Bool-cases, bytes_eq,
}
use inter_container_messagin.Base.Word.{pos}
use inter_container_messagin.Message.{rc_error}
use inter_container_messagin.StringTree.Path.{NoDot}
use inter_container_messagin.Container.{conf_file_query, Host, HostName}
use inter_container_messagin.Yaml.{conf_file_parse}
use inter_container_messagin.Yaml.Settings.{section, Settings, value_at, IsPlain}
use inter_container_messagin.Yaml.Query.{
  HoldsSettings, conf_file_parse-nodes_of, conf_file_query-value_at,
}
use inter_container_messagin.Lxc.{Directory}
use inter_container_messagin.Daemon.Acl.{host_name, container_essential}
use inter_container_messagin.Daemon.Acl.Granted.{container_name_name}
use inter_container_messagin.Daemon.Acl.Loaded.{loaded_host, container_name-value_at}
use inter_container_messagin.Daemon.Start.{
  dot_monitor, DaemonOptions, Machine, returned, daemonlize, monitor_setting, init_context,
  run_start,
}
use inter_container_messagin.Daemon.Start.Waits.{monitor_name}

-- The settings name the container, and list no containers for it: not under its own name, and where it
-- is the essential one not under that of the host either.
pub record IsUnlisted (es : Settings) (own : Bytes) : Type 0 where
  pub plain : IsPlain (section es)
  pub named : value_at container_name_name [] es ≡ some own
  pub dotless : NoDot own
  pub short : length own ≤ 4000
  pub no_list : value_at own (monitor_name ∷ []) es ≡ none
  pub no_host_list :
      (own ≢ container_essential) ⊎ (value_at host_name (monitor_name ∷ []) es ≡ none)

module _ (room : ℕ → Bool) (ample : (k : ℕ) → room k ≡ true) (hostname : ℕ → HostName)
    (es : Settings) (own : Bytes) (unlisted : IsUnlisted es own) where
  abbrev host : Host
  host = loaded_host room hostname es

  no_setting :
      (t : Bytes)
      → NoDot t
      → length t ≤ 4000
      → value_at t (monitor_name ∷ []) es ≡ none
      → conf_file_query host (b'.' ∷ (t ++ dot_monitor)) ≡ ok none
  no_setting t nd short nothing =
      conf_file_query-value_at room ample hostname es t (monitor_name ∷ []) unlisted.plain
        (nd, (ground arith, tt)) (omega (arith, short, length-append t (b'.' ∷ monitor_name)))
      ∙ ap ok nothing

  monitor_setting-unlisted : monitor_setting host own ≡ ok none
  unfolding monitor_setting
  monitor_setting-unlisted =
      rw (no_setting own unlisted.dotless unlisted.short unlisted.no_list)
        (elim (Bool-cases (bytes_eq own container_essential)) [
          | inr other ↦ rw other refl
          | inl same ↦ rw same (elim unlisted.no_host_list [
            | inl ne ↦ absurd (ne ((bytes_eq_iff own container_essential).0 same))
            | inr nothing ↦ no_setting host_name (ground arith) (omega arith) nothing
          ])
        ])

  init_context-unlisted : (dir : Directory) (array : Bool) → init_context host dir array ≡ ok none
  unfolding init_context
  init_context-unlisted dir array =
      rw (container_name-value_at room ample hostname es unlisted.plain own unlisted.named)
        (rw monitor_setting-unlisted refl)

module _ (m : Machine) (opts : DaemonOptions)
    (detached : daemonlize m.detaching opts ≡ ok (pos 0)) where
  -- A configuration file that may not be read ends the daemon.
  pub run_start-unreadable : (m.file opts.conf_file).readable ≡ false → run_start m opts ≡ exited
  unfolding run_start conf_file_parse
  run_start-unreadable e = rw detached (rw e refl)

  -- A configuration file that holds settings with distinct names, which name the container but list no
  -- containers to monitor (neither under its own name nor, on the essential container, under that of
  -- the host), makes the start return -1, and no worker is forked. This holds when the process was
  -- detached, memory suffices and the stack holds the nesting of the file; the own name has no dot and
  -- at most 4000 bytes.
  pub run_start-unlisted :
      (es : Settings) (own : Bytes)
      → ((k : ℕ) → m.room k ≡ true)
      → HoldsSettings (m.file opts.conf_file) m.stack es
      → IsUnlisted es own
      → run_start m opts ≡ ok (returned rc_error)
  unfolding run_start
  run_start-unlisted es own ample holds unlisted = rw detached (
      rw (conf_file_parse-nodes_of m.room ample m.stack (m.file opts.conf_file) es holds)
        (rw (init_context-unlisted m.room ample m.hostname es own unlisted m.lxc m.array) refl))
