-- ===== src/Subcommand.antt =====
-- The registry of subcommands of src/lib/subcommand.c. `getopt_long` is the C library's: the options
-- that it finds in the arguments for an option string, in order, are an input.
pub mod Lookup
use inter_container_messagin.Base.{
  ℕ, zero, Bool, true, false, not, ◌&&◌, Option, none, some, List, [], ◌∷◌, ◌++◌, Bytes, ◌==◌, leb,
  if◌then◌else◌, length, bytes_eq,
}
use inter_container_messagin.Base.Word.{ℤ, pos}
use inter_container_messagin.Message.{rc_ok, rc_error}

-- `subcommand_t`, with a name that is not NULL. `complete` says that the other fields that
-- `subcommand_add` asks for are set. `S` is what the callbacks work on, and
-- `R` what comes of a run.
pub record Subcommand (S R : Type 0) : Type 0 where
  pub name : Bytes
  pub complete : Bool
  pub parse_arg : ℕ → Bytes → S → S × ℤ
  pub run : S → R

abbrev pub max_subcommands : ℕ
max_subcommands = 16

-- `subcommands[0..nr_subcommand]`, and `curr_subcommand`
pub record Registry (S R : Type 0) : Type 0 where
  pub subcommands : List (Subcommand S R)
  pub current : Option (Subcommand S R)

module _ {S R : Type 0} where
  unfoldable pub subcommand_add : Registry S R → Subcommand S R → Registry S R × ℤ
  subcommand_add r subcmd =
      if not subcmd.complete
      then (r, rc_error)
      else if leb max_subcommands (length r.subcommands)
      then (r, rc_error)
      else (record r { subcommands = r.subcommands ++ (subcmd ∷ []) }, rc_ok)

  unfoldable pub find_name : Bytes → List (Subcommand S R) → Option (Subcommand S R)
  find_name name [] = none
  find_name name (c ∷ cs) =
      let later = find_name name cs in if bytes_eq name c.name then some c else later

  unfoldable pub subcommand_find : Registry S R → Bytes → Option (Subcommand S R)
  unfolding find_name
  subcommand_find r name = find_name name r.subcommands

  -- The loop of `subcommand_parse` over the options, with the flag that an argument was parsed; the
  -- first value is whether it got to the end.
  unfoldable pub parse_loop : Subcommand S R → List (ℕ × Bytes) → Bool → S → (Bool × Bool) × S
  parse_loop cmd [] parsed s = ((true, parsed), s)
  parse_loop cmd ((opt, arg) ∷ opts) parsed s =
      let (s', rc) = cmd.parse_arg opt arg s in
      let rest = parse_loop cmd opts true s' in
      if opt == b'?'
      then ((false, parsed), s)
      else elim rc [ pos zero ↦ rest | other ↦ ((false, true), s') ]

  unfoldable pub subcommand_parse :
      Registry S R → Bytes → List (ℕ × Bytes) → S → Registry S R × S × ℤ
  unfolding subcommand_find parse_loop
  subcommand_parse r name opts s = elim (subcommand_find r name) [
    | none ↦ (r, s, rc_error)
    | some cmd ↦
        let (flags, s') = parse_loop cmd opts false s in
        if flags.0 && flags.1
        then (record r { current = some cmd }, s', rc_ok)
        else (r, s', rc_error)
  ]

  -- `none` is the return value -1 where there is no current subcommand.
  unfoldable pub subcommand_run_current : Registry S R → S → Option R
  subcommand_run_current r s = elim r.current [ none ↦ none | some cmd ↦ some (cmd.run s) ]
