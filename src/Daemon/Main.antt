-- ===== src/Daemon/Main.antt =====
-- The main program of the daemon, src/icmpd/icmpd.c, and its help subcommand,
-- src/icmpd/subcmd_help.c. What is only printed is left out.
pub mod Started
pub mod Pausing
use inter_container_messagin.Base.{
  ℕ, true, Option, none, some, List, [], ◌∷◌, Bytes, Run, ok, fault, ◌==◌, if◌then◌else◌,
}
use inter_container_messagin.Base.Word.{pos}
use inter_container_messagin.Subcommand.{Subcommand, Registry, subcommand_add}
use inter_container_messagin.Program.{
  Argument, MainOptions, no_options, Case, next, give_up, leave, subcommand, Ended, option_loop,
  finish, help_parse_arg,
}
use inter_container_messagin.Daemon.Start.{
  DaemonOptions, default_options, Machine, Daemon, returned, parse_arg, run_start,
}

-- What the subcommands keep in their variables: the options of `start`, and `opt_command`.
pub record Settings : Type 0 where
  pub start : DaemonOptions
  pub command : Option Bytes

abbrev pub initial : Settings
initial = record { start = default_options; command = none }

-- The switch of `parse_options`
unfoldable pub daemon_case : ℕ → Bytes → MainOptions → Case
daemon_case opt optarg o =
    if opt == b'?'
    then give_up
    else if opt == b'h'
    then leave
    else if opt == b'V'
    then leave
    else if opt == b'v'
    then next (record o { verbose = true })
    else if opt == b'q'
    then next (record o { quite = true })
    else if opt == b'l'
    then next (record o { log_file = some optarg })
    else if opt == b'c'
    then next (record o { conf_file = some optarg })
    else if opt == 1
    then subcommand
    else give_up

-- "help" and "start"
abbrev pub help : Bytes
help = b'h' ∷ b'e' ∷ b'l' ∷ b'p' ∷ []

abbrev pub start : Bytes
start = b's' ∷ b't' ∷ b'a' ∷ b'r' ∷ b't' ∷ []

-- `subcommand_help`; a command that is not set is NULL, with which `subcommand_find` faults.
abbrev pub subcommand_help : Subcommand Settings (Run Daemon)
subcommand_help = record {
  name = help;
  complete = true;
  parse_arg = λ opt optarg s.
      let (command, rc) = help_parse_arg (help ∷ start ∷ []) opt optarg s.command in
      (record s { command = command }, rc);
  run = λ s. elim s.command [ none ↦ fault | some command ↦ ok (returned (pos 0)) ];
}

-- `subcommand_start`
abbrev pub subcommand_start : Machine → Subcommand Settings (Run Daemon)
subcommand_start m = record {
  name = start;
  complete = true;
  parse_arg = λ opt optarg s.
      let (opts, rc) = parse_arg opt optarg s.start in (record s { start = opts }, rc);
  run = λ s. run_start m s.start;
}

-- `main`: both subcommands are added, the options are parsed and the subcommand is run.
abbrev pub registry : Machine → Registry Settings (Run Daemon)
registry m =
    (subcommand_add (subcommand_add (record { subcommands = []; current = none }) subcommand_help).0
      (subcommand_start m)).0

unfoldable pub main : Machine → List Argument → Ended (Run Daemon)
unfolding daemon_case
main m args = finish (option_loop daemon_case (registry m) args no_options initial)
