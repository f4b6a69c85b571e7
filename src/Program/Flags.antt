-- ===== src/Program/Flags.antt =====
-- Options in front of a subcommand of src/icmpc/icmpc.c and src/icmpd/icmpd.c.
use inter_container_messagin.Base.{
  ◌≡◌, refl, ap, ◌∙◌, true, false, Option, none, some, ◌==◌, if◌then◌else◌, ℕ, List, arith, [], ◌∷◌,
  ◌++◌, Bytes,
}
use inter_container_messagin.Message.{rc_ok}
use inter_container_messagin.Subcommand.{
  Subcommand, Registry, subcommand_find, subcommand_parse, parse_loop, subcommand_run_current,
}
use inter_container_messagin.Program.{
  Argument, MainOptions, Case, next, subcommand, parsed, left, ran, exited_with, parse_subcommand,
  option_loop, finish,
}

-- The argument of the last option with a letter
abbrev pub last_of : ℕ → List (ℕ × Bytes) → Option Bytes
last_of letter [] = none
last_of letter ((opt, optarg) ∷ opts) = elim (last_of letter opts) [
  | some arg ↦ some arg
  | none ↦ if opt == letter then some optarg else none
]

abbrev pub or : {A : Type 0} → Option A → A → A
or none a = a
or (some b) a = b

-- Options after which the loop goes on, and where it stands behind them.
abbrev pub AreFlags :
    (ℕ → Bytes → MainOptions → Case) → List Argument → MainOptions → MainOptions → Type 0
AreFlags cases [] o o' = o ≡ o'
AreFlags cases (a ∷ more) o o' =
    (p : MainOptions) × (cases a.opt a.optarg o ≡ next p) × AreFlags cases more p o'

module _ {S R : Type 0} (cases : ℕ → Bytes → MainOptions → Case) (r : Registry S R) (s : S) where
  pub option_loop-flags :
      (flags rest : List Argument) (o o' : MainOptions)
      → AreFlags cases flags o o'
      → option_loop cases r (flags ++ rest) o s ≡ option_loop cases r rest o' s
  unfolding option_loop
  option_loop-flags [] rest o o' e = ap (λ p. option_loop cases r rest p s) e
  option_loop-flags (a ∷ more) rest o o' (p, e, f) = rw e (option_loop-flags more rest p o' f)

  parse_subcommand-bare : (a : Argument) → a.behind ≡ [] → parse_subcommand r a s ≡ left false
  unfolding parse_subcommand subcommand_parse parse_loop
  parse_subcommand-bare a bare = ground (arith, bare)

  subcommand_parse-done :
      (name : Bytes) (opts : List (ℕ × Bytes)) (cmd : Subcommand S R) (s' : S)
      → subcommand_find r name ≡ some cmd
      → parse_loop cmd opts false s ≡ ((true, true), s')
      → subcommand_parse r name opts s ≡ (record r { current = some cmd }, s', rc_ok)
  unfolding subcommand_parse
  subcommand_parse-done name opts cmd s' found done = rw (subcommand_parse, found, done) refl

  parse_subcommand-done :
      (a : Argument) (cmd : Subcommand S R) (s' : S)
      → subcommand_find r a.optarg ≡ some cmd
      → parse_loop cmd a.behind false s ≡ ((true, true), s')
      → parse_subcommand r a s ≡ parsed (record r { current = some cmd }) s'
  unfolding parse_subcommand
  parse_subcommand-done a cmd s' found done =
      let e = subcommand_parse-done a.optarg a.behind cmd s' found done in
      rw (parse_subcommand, e) (rw e refl)

  module _ (flags rest : List Argument) (o o' : MainOptions) (a : Argument)
      (are : AreFlags cases flags o o') (named : cases a.opt a.optarg o' ≡ subcommand) where
    pub option_loop-subcommand :
        option_loop cases r (flags ++ (a ∷ rest)) o s ≡ parse_subcommand r a s
    unfolding option_loop
    option_loop-subcommand =
        option_loop-flags flags (a ∷ rest) o o' are ∙ rw (option_loop, named) refl

    -- A subcommand that is registered and parses all of at least one option behind it is run.
    pub finish-ran :
        (cmd : Subcommand S R) (s' : S)
        → subcommand_find r a.optarg ≡ some cmd
        → parse_loop cmd a.behind false s ≡ ((true, true), s')
        → finish (option_loop cases r (flags ++ (a ∷ rest)) o s) ≡ ran (cmd.run s')
    unfolding finish subcommand_run_current
    finish-ran cmd s' found done =
        rw option_loop-subcommand (ap finish (parse_subcommand-done a cmd s' found done))

    -- Behind options that it goes on after, a program exits with a failure at the name of a subcommand
    -- that is not followed by any option or argument, whether the subcommand is registered or not.
    pub bare_subcommand-fails :
        a.behind ≡ [] → finish (option_loop cases r (flags ++ (a ∷ rest)) o s) ≡ exited_with false
    unfolding finish
    bare_subcommand-fails bare =
        rw option_loop-subcommand (ap finish (parse_subcommand-bare a bare))
