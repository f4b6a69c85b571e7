-- ===== src/Daemon/Words.antt =====
-- A command line taken apart, in src/icmpd/subcmd_start.c: `build_argv` for `execvp`, and the program
-- name that `check_command` cuts off. `isspace` is that of the C locale, which agrees with the
-- string `spaces` of `check_command`.
pub mod Argv
use inter_container_messagin.Base.{
  ℕ, true, false, zero, suc, ◌+◌, ◌*◌, Bool, ◌&&◌, ◌||◌, Option, none, some, List, [], ◌∷◌, ◌++◌,
  Bytes, Run, ok, fault, ◌>>=◌, ◌==◌, if◌then◌else◌, length, drop, leb,
}

unfoldable pub isspace : ℕ → Bool
isspace c = c == b' ' || leb 9 c && leb c 13

-- `while (*curr_arg && isspace(*curr_arg)) ++curr_arg`
unfoldable pub skip_spaces : Bytes → Bytes
skip_spaces [] = []
skip_spaces (c ∷ cs) = let more = skip_spaces cs in if isspace c then more else c ∷ cs

-- The characters up to the next space, and what follows them.
unfoldable pub word : Bytes → Bytes
word [] = []
word (c ∷ cs) = let more = word cs in if isspace c then [] else c ∷ more

unfoldable pub after_word : Bytes → Bytes
after_word [] = []
after_word (c ∷ cs) = let more = after_word cs in if isspace c then c ∷ cs else more

-- The loop of `build_argv`. A failed `ic_assert` ends the process, which is `none`, and so is an end
-- of the fuel.
unfoldable pub argv_loop : (ℕ → Bool) → List Bytes → Bytes → ℕ → Option (List Bytes)
argv_loop room argv [] fuel = some argv
argv_loop room argv (c ∷ cs) zero = none
argv_loop room argv (c ∷ cs) (suc fuel) = elim (skip_spaces (c ∷ cs)) [
  | [] ↦ some argv
  | first ∷ more ↦
      let rest =
        argv_loop room (argv ++ ((first ∷ word more) ∷ [])) (drop 1 (after_word more)) fuel in
      if room (8 * (length argv + 2)) then rest else none
]

-- `build_argv` at a C string: the words, `argv[argc]` being NULL.
unfoldable pub build_argv : (ℕ → Bool) → Bytes → Option (List Bytes)
build_argv room argument =
    if room (length argument + 1) && room 8
    then argv_loop room [] argument (length argument)
    else none

-- The C string at a pointer, which is given by the bytes up to the end of its object; without a NUL
-- there the read goes beyond it.
unfoldable pub c_text : Bytes → Run Bytes
c_text [] = fault
c_text (c ∷ cs) = if c == 0 then ok [] else (c_text cs >>= λ more. ok (c ∷ more))

-- `strcspn(cmdline, spaces)` bytes, and whether a space stands behind them: nothing further is read.
unfoldable pub c_word : Bytes → Run (Bytes × Bool)
c_word [] = fault
c_word (c ∷ cs) =
    if c == 0
    then ok ([], false)
    else if isspace c
    then ok ([], true)
    else (c_word cs >>= λ (more, spaced). ok (c ∷ more, spaced))

-- The program name of a text
abbrev pub program_name : Bytes → Bytes
program_name = word
