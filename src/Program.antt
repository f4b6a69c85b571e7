-- ===== src/Program.antt =====
-- What the main programs src/icmpc/icmpc.c and src/icmpd/icmpd.c share: the loop over the options in
-- front of the subcommand, and the run of the subcommand. `getopt_long` is the C library's: the
-- options that it finds, in order, are an input, and with an argument that is no option those that
-- it finds behind it for the option string of the subcommand.
pub mod Flags
use inter_container_messagin.Base.{
  ℕ, zero, Bool, true, false, Option, none, some, List, [], ◌∷◌, Bytes, ◌==◌, if◌then◌else◌,
  bytes_eq,
}
use inter_container_messagin.Base.Word.{ℤ, pos}
use inter_container_messagin.Message.{rc_ok, rc_error}
use inter_container_messagin.Subcommand.{Registry, subcommand_parse, subcommand_run_current}

-- An option, with its argument, or an empty one where `optarg` is NULL.
pub record Argument : Type 0 where
  pub opt : ℕ
  pub optarg : Bytes
  pub behind : List (ℕ × Bytes)

-- `ic_util_verbose` and `opt_quite`, and the `opt_log_file` and `opt_conf_file` of src/icmpd/icmpd.c
pub record MainOptions : Type 0 where
  pub verbose : Bool
  pub quite : Bool
  pub log_file : Option Bytes
  pub conf_file : Option Bytes

abbrev pub no_options : MainOptions
no_options = record { verbose = false; quite = false; log_file = none; conf_file = none }

-- What a case of the switch does: go on, return -1, exit with success, or parse the subcommand.
pub data Case : Type 0 where
  next : MainOptions → Case
  give_up : Case
  leave : Case
  subcommand : Case

-- Where `parse_options` gets to: it returns 0 or another value, or exits, with success or not.
pub data Parsed (S R : Type 0) : Type 0 where
  parsed : Registry S R → S → Parsed S R
  gave : ℤ → Parsed S R
  left : Bool → Parsed S R

-- Where a program gets to: it returns a value, exits, or its subcommand is run.
pub data Ended (R : Type 0) : Type 0 where
  returned : ℤ → Ended R
  exited_with : Bool → Ended R
  ran : R → Ended R

module _ {S R : Type 0} where
  -- `case 1`: the options behind the name are parsed, and a failure exits.
  unfoldable pub parse_subcommand : Registry S R → Argument → S → Parsed S R
  parse_subcommand r a s =
      let (r', s', rc) = subcommand_parse r a.optarg a.behind s in
      elim rc [ pos zero ↦ parsed r' s' | other ↦ left false ]

  -- The loop of `parse_options`, with the switch of a program
  unfoldable pub option_loop :
      (ℕ → Bytes → MainOptions → Case) → Registry S R → List Argument → MainOptions → S → Parsed S R
  unfolding parse_subcommand
  option_loop cases r [] o s = parsed r s
  option_loop cases r (a ∷ more) o s = elim (cases a.opt a.optarg o) [
    | next o' ↦ option_loop cases r more o' s
    | give_up ↦ gave rc_error
    | leave ↦ left true
    | subcommand ↦ parse_subcommand r a s
  ]

  -- The end of `main`; the banner is left out.
  unfoldable pub finish : Parsed S R → Ended R
  finish (parsed r s) = elim (subcommand_run_current r s) [
    | none ↦ returned rc_error
    | some x ↦ ran x
  ]
  finish (gave rc) = returned rc
  finish (left ok) = exited_with ok

-- `parse_arg` of the help subcommand, by the names that are registered
unfoldable pub help_parse_arg : List Bytes → ℕ → Bytes → Option Bytes → Option Bytes × ℤ
help_parse_arg [] opt optarg s = (s, rc_error)
help_parse_arg (name ∷ names) opt optarg s =
    let later = help_parse_arg names opt optarg s in
    if opt == 1
    then (if bytes_eq optarg name then (some optarg, rc_ok) else later)
    else (s, rc_error)
