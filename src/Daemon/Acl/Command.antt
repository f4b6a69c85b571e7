-- ===== src/Daemon/Acl/Command.antt =====
-- `check_command` of src/icmpd/subcmd_start.c as a whole, beside the program that `build_argv` makes
-- of the same command line.
use inter_container_messagin.Base.{
  Holds, Holds-ok, Holds-behind, Holds->>=, Bool, true, false, Bool-cases, ◌==◌, if◌then◌else◌, ℕ,
  ◌+◌, ◌≤◌, ◌≡◌, ◌≢◌, ◌⊎◌, inl, inr, refl, ap, ◌∙◌, none, some, List, [], ◌∷◌, ◌++◌, Bytes, ok,
  length, arith,
}
use inter_container_messagin.Base.Word.{pos, negsuc}
use inter_container_messagin.ErrorCode.{ic_errno_command_denied}
use inter_container_messagin.StringTree.{Nodes}
use inter_container_messagin.StringTree.Path.{NoDot}
use inter_container_messagin.StringTree.Find.{find, leaf_strings}
use inter_container_messagin.Container.{Host, container_name}
use inter_container_messagin.Daemon.Words.{program_name, c_word, c_text, isspace, word, build_argv}
use inter_container_messagin.Daemon.Words.Argv.{
  Spaces, Line, text, words, IsLine, build_argv-words, program_name-words,
}
use inter_container_messagin.Daemon.Acl.{check_program, check_command, star}
use inter_container_messagin.Daemon.Acl.Granted.{
  commands_name, acl_name, IsConfigured, IsNameList, Among, BeginsWithOne, check_command_acl-listed,
  check_command_acl-unlisted,
}
use inter_container_messagin.Daemon.Acl.Limits.{
  check_limited_commands-listed, check_limited_commands-star,
}

-- Where there is a C string, its program name is what is read.
c_word-c_text :
    (cmdline : Bytes)
    → Holds
        (λ line. (spaced : Bool) × (c_word cmdline ≡ ok (program_name line, spaced)))
        (c_text cmdline)
unfolding c_word c_text word
c_word-c_text [] = tt
c_word-c_text (c ∷ cs) = elim (Bool-cases (c == 0)) [
  | inl nul ↦ rw nul (false, refl)
  | inr other ↦ elim (Bool-cases (isspace c)) [
    | inl space ↦ rw (other, space) (Holds-behind _ (c_text cs) _ (λ more. (true, rw space)))
    | inr plain ↦
        rw (other, plain)
          (Holds->>= _ _ (c_text cs) _ (c_word-c_text cs)
            (λ more (spaced, e). (spaced, rw (e, plain) refl)))
  ]
]

module _ (host : Host) (top : Nodes) (conf : IsConfigured host top) (name : Bytes)
    (named : container_name host ≡ ok (some name)) (nd : NoDot name)
    (short : length name ≤ 4000) where
  check_command-program :
      (cmdline : Bytes) {line : Bytes} {cmd : Bytes} (target : Bytes) (errno : ℕ)
      → c_text cmdline ≡ ok line
      → program_name line ≡ cmd
      → check_command host cmdline target errno ≡ check_program host cmd target errno
  unfolding check_command
  check_command-program cmdline {line} target errno read is =
      let (spaced, e) = Holds-ok _ (c_text cmdline) line read (c_word-c_text cmdline) in
      rw e (rw (conf.ample (length (program_name line) + (if spaced then 2 else 1))))
      ∙ ap (λ c. check_program host c target errno) is

  -- The setting of the container and that of the command are both lists: a command line that begins
  -- with a word without a dot passes exactly if the word begins with a name on the first list and the
  -- target is on the second, with "denied" noted otherwise; and that word is the program that would be
  -- executed. No listed name has a colon, the last of a list is not empty and no list is just "*";
  -- the container's name has no dot either, both have at most 4000 bytes, and memory suffices. With a
  -- dot, the list of the word is looked for under another path.
  pub check_command-listed :
      (limits acl : Nodes) (s t : Bytes) (ss ts : List Bytes)
      → IsNameList limits s ss
      → IsNameList acl t ts
      → (cmdline w gap : Bytes) (line : Line) (target : Bytes) (errno : ℕ)
      → find name (commands_name ∷ []) top ≡ some limits
      → find commands_name (w ∷ acl_name ∷ []) top ≡ some acl
      → IsLine ((w, gap) ∷ line)
      → NoDot w
      → length w ≤ 4000
      → c_text cmdline ≡ ok (text ((w, gap) ∷ line))
      → (build_argv host.room (text ((w, gap) ∷ line)) ≡ some (w ∷ words line))
        × ((BeginsWithOne w (s ∷ ss)
              × Among target (t ∷ ts)
              × (check_command host cmdline target errno ≡ ok (pos 0, errno)))
            ⊎ (¬ (BeginsWithOne w (s ∷ ss) × Among target (t ∷ ts))
                × (check_command host cmdline target errno
                    ≡ ok (negsuc 0, ic_errno_command_denied))))
  unfolding check_program
  check_command-listed limits acl s t ss ts ll al cmdline w gap line target errno atl ata il ndw sw
        read =
      let opened =
        check_command-program cmdline target errno read (program_name-words [] w gap line tt il) in
      (
        build_argv-words host.room conf.ample [] ((w, gap) ∷ line) tt il,
        elim (check_limited_commands-listed host top conf name named nd short limits s ss ll atl w
            errno) [
              | inr (out, e) ↦ inr (λ both. out both.0, opened ∙ rw e)
              | inl (begins, e) ↦
                  elim (check_command_acl-listed host top conf acl t ts al w target errno ndw sw
                    ata) [
                      | inl (among, f) ↦ inl (begins, among, opened ∙ rw e f)
                      | inr (out, f) ↦ inr (λ both. out both.1, opened ∙ rw e f)
                    ]
            ],
      )

  -- A space in front of a command line evades the list of the command: when the container's setting
  -- is "*" and no list is kept for the empty name, the line passes for every target, whatever list
  -- its first word has, and the program that would be executed is still that word.
  pub leading_space-evades :
      (limits : Nodes) (cmdline lead w gap : Bytes) (line : Line) (target : Bytes) (errno : ℕ)
      → find name (commands_name ∷ []) top ≡ some limits
      → leaf_strings limits ≡ some (star ∷ [])
      → find commands_name ([] ∷ acl_name ∷ []) top ≡ none
      → lead ≢ []
      → Spaces lead
      → IsLine ((w, gap) ∷ line)
      → c_text cmdline ≡ ok (lead ++ text ((w, gap) ∷ line))
      → (check_command host cmdline target errno ≡ ok (pos 0, errno))
        × (build_argv host.room (lead ++ text ((w, gap) ∷ line)) ≡ some (w ∷ words line))
  unfolding check_program
  leading_space-evades limits cmdline [] w gap line target errno atl isl none' ne sp il read =
      absurd (ne refl)
  leading_space-evades limits cmdline (c ∷ lead) w gap line target errno atl isl none' ne sp il
        read =
      (
        check_command-program cmdline {cmd = []} target errno read
              (program_name-words (c ∷ lead) w gap line sp il ∙ ground arith)
            ∙ rw
                (check_limited_commands-star host top conf name named nd short limits [] errno isl
                  atl)
                (check_command_acl-unlisted host top conf [] target errno tt (omega arith) none'),
        build_argv-words host.room conf.ample (c ∷ lead) ((w, gap) ∷ line) sp il,
      )
