-- ===== src/Client/Main/Requested.antt =====
-- The arguments that make a request: src/icmpc/icmpc.c, src/lib/subcommand.c and the two
-- subcommands of the client.
use inter_container_messagin.Base.{
  ℕ, ◌≡◌, refl, ap, ◌∙◌, Bool, true, false, ◌||◌, Option, none, some, List, [], ◌∷◌, ◌++◌, Bytes,
  ◌==◌, arith, bytes_eq,
}
use inter_container_messagin.Message.{rc_ok}
use inter_container_messagin.Subcommand.{parse_loop, subcommand_find, subcommand_add}
use inter_container_messagin.Program.{Argument, MainOptions, no_options, ran}
use inter_container_messagin.Program.Flags.{AreFlags, finish-ran, last_of}
use inter_container_messagin.Client.{Client, Network, Options, parse_arg, run_commandline, run_echo}
use inter_container_messagin.Client.Main.{
  Requests, no_request, initial, client_case, commandline, echo, subcommand_commandline,
  subcommand_echo, registry, main,
}

-- An option of both subcommands
abbrev pub is_known : ℕ → Bool
is_known opt = (opt == b'c') || ((opt == b'r') || (opt == 1))

abbrev pub AreKnown : List (ℕ × Bytes) → Type 0
AreKnown [] = Unit
AreKnown ((opt, optarg) ∷ opts) = (is_known opt ≡ true) × AreKnown opts

abbrev pub or_some : Option Bytes → Option Bytes → Option Bytes
or_some none o = o
or_some (some b) o = some b

-- What they set: the last of each letter counts, and the last argument that is no option.
abbrev pub requested : List (ℕ × Bytes) → Options → Options
requested opts o = record {
  conf_file = or_some (last_of b'c' opts) o.conf_file;
  requestor = or_some (last_of b'r' opts) o.requestor;
  input = or_some (last_of 1 opts) o.input;
}

parse_arg-requested :
    (opt : ℕ) (optarg : Bytes) (o : Options)
    → is_known opt ≡ true
    → parse_arg opt optarg o ≡ (requested ((opt, optarg) ∷ []) o, rc_ok)
unfolding parse_arg
parse_arg-requested opt optarg o is = ground arith

requested-cons :
    (opt : ℕ) (optarg : Bytes) (opts : List (ℕ × Bytes)) (o : Options)
    → requested opts (requested ((opt, optarg) ∷ []) o) ≡ requested ((opt, optarg) ∷ opts) o
requested-cons opt optarg opts o = ground arith

known : (opt : ℕ) → is_known opt ≡ true → (opt == b'?') ≡ false
known opt is = ground arith

module _ {S : Type 0} (net : Network S) (c : Client S) where
  commandline-step :
      (opt : ℕ) (optarg : Bytes) (opts : List (ℕ × Bytes)) (p : Bool) (s : Requests)
      → is_known opt ≡ true
      → parse_loop (subcommand_commandline net c) ((opt, optarg) ∷ opts) p s
        ≡ parse_loop (subcommand_commandline net c) opts true (record s {
          commandline_options = requested ((opt, optarg) ∷ []) s.commandline_options;
        })
  unfolding parse_loop
  commandline-step opt optarg opts p s is =
      let e = parse_arg-requested opt optarg s.commandline_options is in
      rw (known opt is) (rw e (rw e refl))

  commandline-parsed :
      (opts : List (ℕ × Bytes)) (s : Requests)
      → AreKnown opts
      → parse_loop (subcommand_commandline net c) opts true s
        ≡ ((true, true), record s { commandline_options = requested opts s.commandline_options })
  unfolding parse_loop
  commandline-parsed [] s are = refl
  commandline-parsed ((opt, optarg) ∷ opts) s (is, are) =
      commandline-step opt optarg opts true s is
      ∙ commandline-parsed opts
          (record s { commandline_options = requested ((opt, optarg) ∷ []) s.commandline_options })
          are
      ∙ ap (λ o. ((true, true), record s { commandline_options = o }))
          (requested-cons opt optarg opts s.commandline_options)

  echo-step :
      (opt : ℕ) (optarg : Bytes) (opts : List (ℕ × Bytes)) (p : Bool) (s : Requests)
      → is_known opt ≡ true
      → parse_loop (subcommand_echo net c) ((opt, optarg) ∷ opts) p s
        ≡ parse_loop
            (subcommand_echo net c)
            opts
            true
            (record s { echo_options = requested ((opt, optarg) ∷ []) s.echo_options })
  unfolding parse_loop
  echo-step opt optarg opts p s is =
      let e = parse_arg-requested opt optarg s.echo_options is in
      rw (known opt is) (rw e (rw e refl))

  echo-parsed :
      (opts : List (ℕ × Bytes)) (s : Requests)
      → AreKnown opts
      → parse_loop (subcommand_echo net c) opts true s
        ≡ ((true, true), record s { echo_options = requested opts s.echo_options })
  unfolding parse_loop
  echo-parsed [] s are = refl
  echo-parsed ((opt, optarg) ∷ opts) s (is, are) =
      echo-step opt optarg opts true s is
      ∙ echo-parsed opts (record s { echo_options = requested ((opt, optarg) ∷ []) s.echo_options })
          are
      ∙ ap (λ o. ((true, true), record s { echo_options = o }))
          (requested-cons opt optarg opts s.echo_options)

  commandline_found :
      subcommand_find (registry net c) commandline ≡ some (subcommand_commandline net c)
  unfolding subcommand_find subcommand_add bytes_eq
  commandline_found = refl

  echo_found : subcommand_find (registry net c) echo ≡ some (subcommand_echo net c)
  unfolding subcommand_find subcommand_add bytes_eq
  echo_found = refl

  -- Behind options of the program, the name of a subcommand and at least one option or argument, all
  -- of which it knows, make its request: with the last configuration file, the last requestor and the
  -- last argument that is no option, if there are such. Without -c there is no configuration file,
  -- not the default one of the usage. This holds for both subcommands.
  pub main-request :
      (flags rest : List Argument) (o : MainOptions) (opt : ℕ) (optarg : Bytes)
      (opts : List (ℕ × Bytes))
      → AreFlags client_case flags no_options o
      → AreKnown ((opt, optarg) ∷ opts)
      → (main net c (
            flags
            ++ (record { opt = 1; optarg = commandline; behind = (opt, optarg) ∷ opts } ∷ rest))
          ≡ ran (run_commandline net (requested ((opt, optarg) ∷ opts) no_request) c))
        × (main net c
              (flags ++ (record { opt = 1; optarg = echo; behind = (opt, optarg) ∷ opts } ∷ rest))
            ≡ ran (run_echo net (requested ((opt, optarg) ∷ opts) no_request) c))
  unfolding main client_case
  main-request flags rest o opt optarg opts are (is, more) = (
    finish-ran client_case (registry net c) initial flags rest no_options o
        (record { opt = 1; optarg = commandline; behind = (opt, optarg) ∷ opts }) are refl
        (subcommand_commandline net c)
        (record initial { commandline_options = requested ((opt, optarg) ∷ opts) no_request })
        commandline_found
        (commandline-step opt optarg opts false initial is
          ∙ commandline-parsed opts
              (record initial { commandline_options = requested ((opt, optarg) ∷ []) no_request })
              more
          ∙ ap (λ x. ((true, true), record initial { commandline_options = x }))
              (requested-cons opt optarg opts no_request)),
    finish-ran client_case (registry net c) initial flags rest no_options o
        (record { opt = 1; optarg = echo; behind = (opt, optarg) ∷ opts }) are refl
        (subcommand_echo net c)
        (record initial { echo_options = requested ((opt, optarg) ∷ opts) no_request }) echo_found
        (echo-step opt optarg opts false initial is
          ∙ echo-parsed opts
              (record initial { echo_options = requested ((opt, optarg) ∷ []) no_request }) more
          ∙ ap (λ x. ((true, true), record initial { echo_options = x }))
              (requested-cons opt optarg opts no_request)),
  )
