-- ===== src/Client/Main.antt =====
-- The main program of the client, src/icmpc/icmpc.c, and its help subcommand,
-- src/icmpc/subcmd_help.c. What is only printed is left out.
pub mod Requested
pub mod Limited
use inter_container_messagin.Base.{
  ℕ, true, Option, none, some, List, [], ◌∷◌, Bytes, Run, ok, fault, ◌==◌, if◌then◌else◌,
}
use inter_container_messagin.Base.Word.{ℤ}
use inter_container_messagin.Message.{rc_ok}
use inter_container_messagin.Subcommand.{Subcommand, Registry, subcommand_add}
use inter_container_messagin.Program.{
  Argument, MainOptions, no_options, Case, next, give_up, leave, subcommand, Ended, option_loop,
  finish, help_parse_arg,
}
use inter_container_messagin.Client.{Client, Network, Options, parse_arg, run_commandline, run_echo}

-- What the subcommands keep in their variables; `opt_conf_file` and `opt_requestor` are there twice.
pub record Requests : Type 0 where
  pub commandline_options : Options
  pub echo_options : Options
  pub command : Option Bytes

abbrev pub no_request : Options
no_request = record { conf_file = none; requestor = none; input = none }

abbrev pub initial : Requests
initial = record { commandline_options = no_request; echo_options = no_request; command = none }

-- The switch of `parse_options`
unfoldable pub client_case : ℕ → Bytes → MainOptions → Case
client_case opt optarg o =
    if opt == b'?'
    then give_up
    else if opt == b'h'
    then leave
    else if opt == b'V'
    then leave
    else if opt == b'v'
    then next (record o { verbose = true })
    else if opt == b'q'
    then next (record o { quite = true })
    else if opt == 1
    then subcommand
    else give_up

-- "help", "commandline" and "echo"
abbrev pub help : Bytes
help = b'h' ∷ b'e' ∷ b'l' ∷ b'p' ∷ []

abbrev pub commandline : Bytes
commandline = b'c' ∷ b'o' ∷ b'm' ∷ b'm' ∷ b'a' ∷ b'n' ∷ b'd' ∷ b'l' ∷ b'i' ∷ b'n' ∷ b'e' ∷ []

abbrev pub echo : Bytes
echo = b'e' ∷ b'c' ∷ b'h' ∷ b'o' ∷ []

module _ {S : Type 0} (net : Network S) (c : Client S) where
  -- `subcommand_help`; a command that is not set is NULL, with which `subcommand_find` faults.
  abbrev pub subcommand_help : Subcommand Requests (Run (Client S × ℤ))
  subcommand_help = record {
    name = help;
    complete = true;
    parse_arg = λ opt optarg s.
        let (command, rc) = help_parse_arg (help ∷ commandline ∷ echo ∷ []) opt optarg s.command in
        (record s { command = command }, rc);
    run = λ s. elim s.command [ none ↦ fault | some command ↦ ok (c, rc_ok) ];
  }

  -- `subcommand_commandline`
  abbrev pub subcommand_commandline : Subcommand Requests (Run (Client S × ℤ))
  subcommand_commandline = record {
    name = commandline;
    complete = true;
    parse_arg = λ opt optarg s.
        let (opts, rc) = parse_arg opt optarg s.commandline_options in
        (record s { commandline_options = opts }, rc);
    run = λ s. run_commandline net s.commandline_options c;
  }

  -- `subcommand_echo`
  abbrev pub subcommand_echo : Subcommand Requests (Run (Client S × ℤ))
  subcommand_echo = record {
    name = echo;
    complete = true;
    parse_arg = λ opt optarg s.
        let (opts, rc) = parse_arg opt optarg s.echo_options in
        (record s { echo_options = opts }, rc);
    run = λ s. run_echo net s.echo_options c;
  }

  -- The subcommands that `main` adds
  abbrev pub registry : Registry Requests (Run (Client S × ℤ))
  registry =
      let first =
        (subcommand_add (record { subcommands = []; current = none }) subcommand_help).0 in
      (subcommand_add (subcommand_add first subcommand_commandline).0 subcommand_echo).0

  unfoldable pub main : List Argument → Ended (Run (Client S × ℤ))
  unfolding client_case
  main args = finish (option_loop client_case registry args no_options initial)
