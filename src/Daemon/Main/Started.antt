-- ===== src/Daemon/Main/Started.antt =====
-- The arguments that start the daemon: src/icmpd/icmpd.c, src/lib/subcommand.c and
-- src/icmpd/subcmd_start.c.
use inter_container_messagin.Base.{
  ℕ, ◌≡◌, refl, sym, ap, ◌∙◌, Bool, true, false, ◌||◌, none, some, List, [], ◌∷◌, ◌++◌, Bytes, ◌==◌,
  arith, bytes_eq,
}
use inter_container_messagin.Message.{rc_ok}
use inter_container_messagin.Subcommand.{parse_loop, subcommand_find, subcommand_add}
use inter_container_messagin.Program.{Argument, MainOptions, no_options, ran}
use inter_container_messagin.Program.Flags.{AreFlags, finish-ran, last_of, or}
use inter_container_messagin.Daemon.Start.{
  DaemonOptions, default_options, Machine, parse_arg, run_start,
}
use inter_container_messagin.Daemon.Main.{
  Settings, initial, daemon_case, start, subcommand_start, registry, main,
}

-- An option with a letter is there.
abbrev pub given : ℕ → List (ℕ × Bytes) → Bool
given letter [] = false
given letter ((opt, optarg) ∷ opts) = opt == letter || given letter opts

-- The options of the start subcommand
abbrev pub AreStartOptions : List (ℕ × Bytes) → Type 0
AreStartOptions [] = Unit
AreStartOptions ((opt, optarg) ∷ opts) =
    (((opt == b'l') || ((opt == b'c') || (opt == b'd'))) ≡ true) × AreStartOptions opts

-- What they set
abbrev pub started_with : List (ℕ × Bytes) → DaemonOptions → DaemonOptions
started_with opts o = record {
  conf_file = or (last_of b'c' opts) o.conf_file;
  log_file = elim (last_of b'l' opts) [ some file ↦ some file | none ↦ o.log_file ];
  daemon = o.daemon || given b'd' opts;
}

parse_arg-started :
    (opt : ℕ) (optarg : Bytes) (o : DaemonOptions)
    → ((opt == b'l') || ((opt == b'c') || (opt == b'd'))) ≡ true
    → parse_arg opt optarg o ≡ (started_with ((opt, optarg) ∷ []) o, rc_ok)
unfolding parse_arg
parse_arg-started opt optarg o is = ground arith

started_with-cons :
    (opt : ℕ) (optarg : Bytes) (opts : List (ℕ × Bytes)) (o : DaemonOptions)
    → started_with opts (started_with ((opt, optarg) ∷ []) o)
      ≡ started_with ((opt, optarg) ∷ opts) o
started_with-cons opt optarg opts o = ground arith

is_start_option :
    (opt : ℕ) → ((opt == b'l') || ((opt == b'c') || (opt == b'd'))) ≡ true → (opt == b'?') ≡ false
is_start_option opt is = ground arith

started_with-nil : (o : DaemonOptions) → started_with [] o ≡ o
started_with-nil o = ground arith

parse_loop-step :
    (m : Machine) (opt : ℕ) (optarg : Bytes) (opts : List (ℕ × Bytes)) (p : Bool) (s : Settings)
    → ((opt == b'l') || ((opt == b'c') || (opt == b'd'))) ≡ true
    → parse_loop (subcommand_start m) ((opt, optarg) ∷ opts) p s
      ≡ parse_loop
          (subcommand_start m)
          opts
          true
          (record s { start = started_with ((opt, optarg) ∷ []) s.start })
unfolding parse_loop
parse_loop-step m opt optarg opts p s is = rw (is_start_option opt is) (
    rw (parse_arg-started opt optarg s.start is)
      (rw (parse_arg-started opt optarg s.start is) refl))

-- All options are parsed.
parse_loop-started :
    (m : Machine) (opts : List (ℕ × Bytes)) (s : Settings)
    → AreStartOptions opts
    → parse_loop (subcommand_start m) opts true s
      ≡ ((true, true), record s { start = started_with opts s.start })
unfolding parse_loop
parse_loop-started m [] s are =
    ap (λ o. ((true, true), record s { start = o })) (sym (started_with-nil s.start))
parse_loop-started m ((opt, optarg) ∷ opts) s (is, are) =
    parse_loop-step m opt optarg opts true s is
    ∙ parse_loop-started m opts (record s { start = started_with ((opt, optarg) ∷ []) s.start }) are
    ∙ ap (λ o. ((true, true), record s { start = o })) (started_with-cons opt optarg opts s.start)

found : (m : Machine) → subcommand_find (registry m) start ≡ some (subcommand_start m)
unfolding subcommand_find subcommand_add bytes_eq
found m = refl

-- Behind options of the program, the arguments "start" and at least one option of the subcommand, all
-- of which it knows, start the daemon with them: the last of the configuration files, or the default
-- one, the last of the log files if there is one, and as a daemon if that was asked for anywhere.
pub main-start :
    (m : Machine) (flags rest : List Argument) (o : MainOptions) (opt : ℕ) (optarg : Bytes)
    (opts : List (ℕ × Bytes))
    → AreFlags daemon_case flags no_options o
    → AreStartOptions ((opt, optarg) ∷ opts)
    → main m (flags ++ (record { opt = 1; optarg = start; behind = (opt, optarg) ∷ opts } ∷ rest))
      ≡ ran (run_start m (started_with ((opt, optarg) ∷ opts) default_options))
unfolding main daemon_case
main-start m flags rest o opt optarg opts are (is, more) =
    finish-ran daemon_case (registry m) initial flags rest no_options o
      (record { opt = 1; optarg = start; behind = (opt, optarg) ∷ opts }) are refl
      (subcommand_start m)
      (record initial { start = started_with ((opt, optarg) ∷ opts) default_options }) (found m)
      (parse_loop-step m opt optarg opts false initial is
        ∙ parse_loop-started m opts
            (record initial { start = started_with ((opt, optarg) ∷ []) default_options }) more
        ∙ ap (λ x. ((true, true), record initial { start = x }))
            (started_with-cons opt optarg opts default_options))
