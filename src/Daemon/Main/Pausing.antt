-- ===== src/Daemon/Main/Pausing.antt =====
-- The daemon from its arguments (src/icmpd/icmpd.c) to the loop that waits (src/icmpd/subcmd_start.c).
use inter_container_messagin.Base.{
  ℕ, ◌^◌, ◌<◌, ◌≡◌, ap, ◌∙◌, Bool, true, Option, none, some, List, ◌∷◌, ◌++◌, Bytes, ok, length,
  arith,
}
use inter_container_messagin.Base.Word.{pos}
use inter_container_messagin.Yaml.Settings.{Settings}
use inter_container_messagin.Yaml.Query.{HoldsSettings}
use inter_container_messagin.Program.{Argument, MainOptions, no_options, ran}
use inter_container_messagin.Program.Flags.{AreFlags, last_of, or}
use inter_container_messagin.Daemon.Workers.{Workers}
use inter_container_messagin.Daemon.Workers.Recorded.{IsAble, Records}
use inter_container_messagin.Daemon.Start.{
  Detaching, default_options, icmpd_default_conf_file, Machine, pausing, daemonlize,
}
use inter_container_messagin.Daemon.Start.Waits.{IsMonitoring, run_start-pausing}
use inter_container_messagin.Daemon.Main.{daemon_case, start, main}
use inter_container_messagin.Daemon.Main.Started.{AreStartOptions, started_with, main-start}

-- The process can be detached, and a log file be opened.
pub record IsDetaching (d : Detaching) : Type 0 where
  pub detached : d.detached ≡ true
  pub log_opened : (file : Bytes) → d.log_opened file ≡ true
  pub null_opened : d.null_opened ≡ true
  pub input_moved : d.input_moved ≡ true
  pub output_moved : d.output_moved ≡ true
  pub errors_moved : d.errors_moved ≡ true

daemonlize-detaching :
    (d : Detaching) (conf_file : Bytes) (log_file : Option Bytes) (daemon : Bool)
    → IsDetaching d
    → daemonlize d (record { conf_file = conf_file; log_file = log_file; daemon = daemon })
      ≡ ok (pos 0)
unfolding daemonlize
daemonlize-detaching d conf_file none daemon is = ground (arith, is.detached)
daemonlize-detaching d conf_file (some file) daemon is = ground (
  arith,
  is.detached,
  is.log_opened file,
  is.null_opened,
  is.input_moved,
  is.output_moved,
  is.errors_moved,
)

-- A daemon that is started by its arguments, on a file that holds settings with distinct names, ends
-- up pausing with the name and the list of the file, and beside a vector of its workers: one process
-- for each container on the list but its own, in the order of the list, which are those that
-- `stop_worker` would kill. The arguments are options of the program, "start" and at least one option
-- of the subcommand, all known, and the file is the last that they name, or the default one. The
-- settings name the daemon's container and list the containers that it monitors, under its own name,
-- or on the essential container without a list of its own under that of the host: at least one and
-- fewer than 2 ^ 27, none with a colon, the last not empty, and not just "*". The own name has no dot
-- and at most 4000 bytes, process numbers are positive and below 2 ^ 31, and the calls of the system
-- succeed.
pub main-pausing :
    (m : Machine) (flags rest : List Argument) (o : MainOptions) (first : ℕ × Bytes)
    (opts : List (ℕ × Bytes)) (es : Settings) (own s : Bytes) (ss : List Bytes) (pid : ℕ → ℕ)
    → AreFlags daemon_case flags no_options o
    → AreStartOptions (first ∷ opts)
    → ((k : ℕ) → m.room k ≡ true)
    → IsDetaching m.detaching
    → HoldsSettings (m.file (or (last_of b'c' (first ∷ opts)) icmpd_default_conf_file)) m.stack es
    → IsMonitoring es own s ss
    → IsAble m.processes pid
    → length (s ∷ ss) < 2 ^ 27
    → (v : Workers) × (main m
          (flags ++ (record { opt = 1; optarg = start; behind = first ∷ opts } ∷ rest))
        ≡ ran
            (ok (pausing (record { container_name = own; monitored_container = s ∷ ss }) (some v))))
      × Records pid own (s ∷ ss) v
main-pausing m flags rest o first opts es own s ss pid are known ample detaching holds monitoring
      able small =
    let options = started_with (first ∷ opts) default_options in
    let (v, waits, records) =
      run_start-pausing m options es own s ss pid ample
        (daemonlize-detaching m.detaching options.conf_file options.log_file options.daemon
          detaching)
        holds monitoring able small in
    (v, main-start m flags rest o first.0 first.1 opts are known ∙ ap ran waits, records)
