-- ===== src/Daemon/Words/Argv.antt =====
-- What `build_argv` and `check_command` of src/icmpd/subcmd_start.c make of a command line.
use inter_container_messagin.Base.{
  ℕ, zero, suc, ◌+◌, ◌*◌, ◌≤◌, ◌≡◌, ◌≢◌, refl, ap, ◌∙◌, Bool, true, false, some, List, [], ◌∷◌,
  ◌++◌, Bytes, ◌==◌, if◌then◌else◌, length, drop, arith, length-append, append_assoc, append-nil,
}
use inter_container_messagin.Daemon.Words.{
  isspace, skip_spaces, word, after_word, argv_loop, build_argv, program_name,
}

abbrev pub Spaces : Bytes → Type 0
Spaces [] = Unit
Spaces (c ∷ cs) = (isspace c ≡ true) × Spaces cs

abbrev pub Spaceless : Bytes → Type 0
Spaceless [] = Unit
Spaceless (c ∷ cs) = (isspace c ≡ false) × Spaceless cs

-- A word with the spaces behind it; between two words there is a space.
abbrev pub Line : Type 0
Line = List (Bytes × Bytes)

abbrev pub text : Line → Bytes
text [] = []
text ((w, gap) ∷ rest) = w ++ (gap ++ text rest)

abbrev pub words : Line → List Bytes
words [] = []
words ((w, gap) ∷ rest) = w ∷ words rest

abbrev pub IsLine : Line → Type 0
IsLine [] = Unit
IsLine ((w, gap) ∷ []) = (w ≢ []) × Spaceless w × Spaces gap
IsLine ((w, gap) ∷ next ∷ rest) =
    (w ≢ []) × Spaceless w × (gap ≢ []) × Spaces gap × IsLine (next ∷ rest)

-- A text that does not go on with a word.
abbrev Stops : Bytes → Type 0
Stops [] = Unit
Stops (c ∷ cs) = isspace c ≡ true

skip_spaces-Spaces : (gap rest : Bytes) → Spaces gap → skip_spaces (gap ++ rest) ≡ skip_spaces rest
unfolding skip_spaces
skip_spaces-Spaces [] rest h = refl
skip_spaces-Spaces (c ∷ gap) rest (h, hs) = rw h (skip_spaces-Spaces gap rest hs)

word-Spaceless : (w rest : Bytes) → Spaceless w → Stops rest → word (w ++ rest) ≡ w
unfolding word
word-Spaceless [] [] h s = refl
word-Spaceless [] (c ∷ rest) h s = rw s
word-Spaceless (c ∷ w) rest (h, hs) s = rw (h, word-Spaceless w rest hs s)

after_word-Spaceless : (w rest : Bytes) → Spaceless w → Stops rest → after_word (w ++ rest) ≡ rest
unfolding after_word
after_word-Spaceless [] [] h s = refl
after_word-Spaceless [] (c ∷ rest) h s = rw s
after_word-Spaceless (c ∷ w) rest (h, hs) s = rw (h, after_word-Spaceless w rest hs s)

module _ (room : ℕ → Bool) (ample : (n : ℕ) → room n ≡ true) where
  loop_blank :
      (argv : List Bytes) (input : Bytes) (fuel : ℕ)
      → skip_spaces input ≡ []
      → length input ≤ fuel
      → argv_loop room argv input fuel ≡ some argv
  unfolding argv_loop
  loop_blank argv [] fuel h f = refl
  loop_blank argv (c ∷ cs) zero h f = absurd (omega arith)
  loop_blank argv (c ∷ cs) (suc fuel) h f = rw (h, argv_loop)

  loop_word :
      (argv : List Bytes) (input : Bytes) (fuel : ℕ) (first : ℕ) (more : Bytes)
      → skip_spaces input ≡ first ∷ more
      → argv_loop room argv input (suc fuel)
        ≡ argv_loop room (argv ++ ((first ∷ word more) ∷ [])) (drop 1 (after_word more)) fuel
  unfolding argv_loop
  loop_word argv [] fuel first more h = absurd (nil_skip h)
    where
      nil_skip : skip_spaces [] ≡ first ∷ more → ⊥
      nil_skip e = unfold skip_spaces in cc e
  loop_word argv (c ∷ cs) fuel first more h = rw (h, argv_loop) (rw (ample (8 * (length argv + 2))))

  -- The first word of a line, behind spaces, is put on the list; the loop goes on behind the space
  -- that ends it.
  first_word :
      (argv : List Bytes) (lead : Bytes) (f : ℕ) (w rest : Bytes) (fuel : ℕ)
      → Spaces lead
      → Spaceless (f ∷ w)
      → Stops rest
      → argv_loop room argv (lead ++ ((f ∷ w) ++ rest)) (suc fuel)
        ≡ argv_loop room (argv ++ ((f ∷ w) ∷ [])) (drop 1 rest) fuel
  first_word argv lead f w rest fuel sp sl st =
      loop_word argv (lead ++ ((f ∷ w) ++ rest)) fuel f (w ++ rest)
        (skip_spaces-Spaces lead ((f ∷ w) ++ rest) sp ∙ unfold skip_spaces in rw sl.0)
      ∙ rw (word-Spaceless w rest sl.1 st, after_word-Spaceless w rest sl.1 st)

  argv_loop-text :
      (argv : List Bytes) (lead : Bytes) (line : Line) (fuel : ℕ)
      → Spaces lead
      → IsLine line
      → length (lead ++ text line) ≤ fuel
      → argv_loop room argv (lead ++ text line) fuel ≡ some (argv ++ words line)
  argv_loop-text argv lead [] fuel sp l f = rw (append-nil argv) (
      loop_blank argv (lead ++ []) fuel (skip_spaces-Spaces lead [] sp ∙ unfold skip_spaces in refl)
        f)
  argv_loop-text argv lead (([], gap) ∷ []) fuel sp l f = absurd (l.0 refl)
  argv_loop-text argv lead (([], gap) ∷ n ∷ rest) fuel sp l f = absurd (l.0 refl)
  argv_loop-text argv lead ((c ∷ w, gap) ∷ rest) zero sp l f =
      absurd (omega (arith, length-append lead (c ∷ (w ++ (gap ++ text rest)))))
  argv_loop-text argv lead ((c ∷ w, []) ∷ []) (suc fuel) sp l f =
      first_word argv lead c w [] fuel sp l.1 tt
      ∙ loop_blank (argv ++ ((c ∷ w) ∷ [])) [] fuel (unfold skip_spaces in refl) (omega arith)
  argv_loop-text argv lead ((c ∷ w, []) ∷ n ∷ rest) (suc fuel) sp l f = absurd (l.2 refl)
  argv_loop-text argv lead ((c ∷ w, g ∷ gap) ∷ []) (suc fuel) sp l f =
      first_word argv lead c w (g ∷ (gap ++ [])) fuel sp l.1 l.2.0
      ∙ argv_loop-text (argv ++ ((c ∷ w) ∷ [])) gap [] fuel l.2.1 tt (
          omega (
            arith,
            length-append lead (c ∷ (w ++ (g ∷ (gap ++ [])))),
            length-append w (g ∷ (gap ++ [])),
          ))
      ∙ rw append-nil
  argv_loop-text argv lead ((c ∷ w, g ∷ gap) ∷ n ∷ rest) (suc fuel) sp l f =
      first_word argv lead c w (g ∷ (gap ++ text (n ∷ rest))) fuel sp l.1 l.3.0
      ∙ argv_loop-text (argv ++ ((c ∷ w) ∷ [])) gap (n ∷ rest) fuel l.3.1 l.4 (
          omega (
            arith,
            length-append lead (c ∷ (w ++ (g ∷ (gap ++ text (n ∷ rest))))),
            length-append w (g ∷ (gap ++ text (n ∷ rest))),
          ))
      ∙ ap some (append_assoc argv ((c ∷ w) ∷ []) (words (n ∷ rest)))

  -- `build_argv` splits a command line into its words: whatever spaces stand in front of, between and
  -- behind them, the argument vector holds exactly the words in order, memory sufficing. One round
  -- for each byte of the line is fuel enough.
  pub build_argv-words :
      (lead : Bytes) (line : Line)
      → Spaces lead
      → IsLine line
      → build_argv room (lead ++ text line) ≡ some (words line)
  unfolding build_argv
  build_argv-words lead line sp l =
      rw (ample (length (lead ++ text line) + 1), ample 8)
        (argv_loop-text [] lead line _ sp l (omega arith))

Stops-gap : (w gap : Bytes) (line : Line) → IsLine ((w, gap) ∷ line) → Stops (gap ++ text line)
Stops-gap w [] [] l = tt
Stops-gap w [] (n ∷ line) l = absurd (l.2 refl)
Stops-gap w (g ∷ gap) [] l = l.2.0
Stops-gap w (g ∷ gap) (n ∷ line) l = l.3.0

Spaceless-head : (w gap : Bytes) (line : Line) → IsLine ((w, gap) ∷ line) → Spaceless w
Spaceless-head w gap [] l = l.1
Spaceless-head w gap (n ∷ line) l = l.1

-- The name that is checked is the first word when the line begins with it, and empty when the line
-- begins with a space or is empty.
pub program_name-words :
    (lead : Bytes) (w gap : Bytes) (line : Line)
    → Spaces lead
    → IsLine ((w, gap) ∷ line)
    → program_name (lead ++ text ((w, gap) ∷ line)) ≡ (if length lead == 0 then w else [])
program_name-words [] w gap line sp l =
    word-Spaceless w (gap ++ text line) (Spaceless-head w gap line l) (Stops-gap w gap line l)
program_name-words (c ∷ lead) w gap line sp l = unfold word in rw sp.0 (ground arith)
