-- ===== src/Daemon/Acl/Loaded.antt =====
-- The access check of src/icmpd/subcmd_start.c on a configuration file that was loaded.
use inter_container_messagin.Base.{
  ℕ, arith, ◌+◌, ◌≤◌, ◌≡◌, ◌⊎◌, refl, ap, ◌∙◌, Bool, true, Option, none, some, List, [], ◌∷◌, Bytes,
  ok, length,
}
use inter_container_messagin.Base.Word.{pos, negsuc}
use inter_container_messagin.ErrorCode.{ic_errno_command_denied}
use inter_container_messagin.StringTree.{Node, node, root}
use inter_container_messagin.StringTree.Path.{NoDot}
use inter_container_messagin.StringTree.Find.{find}
use inter_container_messagin.Container.{Host, HostName, container_name}
use inter_container_messagin.Yaml.{File, conf_file_parse}
use inter_container_messagin.Yaml.Settings.{
  Setting, text, texts, section, Settings, lookup, value_at, leaves, below, nodes_of, IsPlain,
}
use inter_container_messagin.Yaml.Query.{
  HoldsSettings, conf_file_parse-nodes_of, conf_file_query-value_at,
}
use inter_container_messagin.Yaml.Named.{below?, find_child-nodes_of, nodes_of-IsKeyed}
use inter_container_messagin.Daemon.Words.{c_text}
use inter_container_messagin.Daemon.Words.Argv.{Line, IsLine}
use inter_container_messagin.Daemon.Words.Argv as Argv
use inter_container_messagin.Daemon.Acl.{check_command}
use inter_container_messagin.Daemon.Acl.Granted.{
  IsConfigured, IsNameList, Among, BeginsWithOne, commands_name, acl_name, container_name_name,
}
use inter_container_messagin.Daemon.Acl.Command.{check_command-listed}

-- The setting behind a path of names through sections
unfoldable pub setting_at : Bytes → List Bytes → Settings → Option Setting
setting_at name [] es = lookup name es
setting_at name (t ∷ ts) es = elim (lookup name es) [
  | some (section fs) ↦ setting_at t ts fs
  | _ ↦ none
]

through_setting :
    (u : Bytes) (us : List Bytes) (s : Setting)
    → ((fs : Settings) → setting_at u us fs ≡ some s → find u us (nodes_of fs) ≡ some (below s))
    → (o : Option Setting) → elim o [ some (section fs) ↦ setting_at u us fs | _ ↦ none ] ≡ some s
    → elim (below? o) [ none ↦ none | some cs ↦ find u us cs ] ≡ some (below s)
through_setting u us s ih none e = cc
through_setting u us s ih (some (text x)) e = cc
through_setting u us s ih (some (texts xs)) e = cc
through_setting u us s ih (some (section fs)) e = ih fs e

find-setting_at :
    (t : Bytes) (ts : List Bytes) (es : Settings) (s : Setting)
    → setting_at t ts es ≡ some s
    → find t ts (nodes_of es) ≡ some (below s)
unfolding find setting_at
find-setting_at t [] es s e = find_child-nodes_of t es ∙ ap below? e
find-setting_at t (u ∷ us) es s e =
    ap (λ o. elim o [ none ↦ none | some cs ↦ find u us cs ]) (find_child-nodes_of t es)
    ∙ through_setting u us s (λ fs. find-setting_at u us fs s) (lookup t es) e

-- A host on which settings were loaded
abbrev pub loaded_host : (ℕ → Bool) → (ℕ → HostName) → Settings → Host
loaded_host room hostname es = record {
  room = room;
  hostname = hostname;
  tree = node (some (b'.' ∷ [])) (nodes_of es);
}

module _ (room : ℕ → Bool) (ample : (k : ℕ) → room k ≡ true) (hostname : ℕ → HostName)
    (es : Settings) (plain : IsPlain (section es)) where
  loaded-IsConfigured : IsConfigured (loaded_host room hostname es) (nodes_of es)
  loaded-IsConfigured = record { ample = ample; rooted = refl; keyed = nodes_of-IsKeyed es plain.0 }

  pub container_name-value_at :
      (own : Bytes)
      → value_at container_name_name [] es ≡ some own
      → container_name (loaded_host room hostname es) ≡ ok (some own)
  unfolding container_name
  container_name-value_at own named =
      rw
        (conf_file_query-value_at room ample hostname es container_name_name [] plain (ground arith)
            (omega arith)
          ∙ ap ok named)
        (rw (ample (length own + 1)))

-- What a file must say for a command to be checked against two lists: the name of the container, the
-- commands that are let through there, and the targets of the command. No name has a colon, the last
-- of a list is not empty, and no list is just "*".
pub record IsLimiting (es : Settings) (own w s t : Bytes) (ss ts : List Bytes) : Type 0 where
  pub named : value_at container_name_name [] es ≡ some own
  pub dotless : NoDot own
  pub short : length own ≤ 4000
  pub limits : setting_at own (commands_name ∷ []) es ≡ some (texts (s ∷ ss))
  pub targets : setting_at commands_name (w ∷ acl_name ∷ []) es ≡ some (texts (t ∷ ts))
  pub limit_names : IsNameList (leaves (s ∷ ss)) s ss
  pub target_names : IsNameList (leaves (t ∷ ts)) t ts

-- After a configuration file was loaded that names the own container, lists the commands let
-- through there and the targets of a word, a command line that begins with the word passes the
-- check exactly if the word begins with a name on the first list and the target is on the second;
-- otherwise -1 is returned and "denied" noted. The settings of the file have distinct names and are
-- not empty, no listed name has a colon, the last of a list is not empty and no list is just "*";
-- the name of the container and the word have no dots and at most 4000 bytes, memory suffices and
-- the stack holds the nesting of the file.
pub loaded-check_command :
    (room : ℕ → Bool) (hostname : ℕ → HostName) (stack : ℕ) (file : File) (es : Settings)
    (own s t : Bytes) (ss ts : List Bytes) (cmdline w gap : Bytes) (line : Line) (target : Bytes)
    (errno : ℕ)
    → ((k : ℕ) → room k ≡ true)
    → HoldsSettings file stack es
    → IsLimiting es own w s t ss ts
    → IsLine ((w, gap) ∷ line)
    → NoDot w
    → length w ≤ 4000
    → c_text cmdline ≡ ok (Argv.text ((w, gap) ∷ line))
    → (tree : Node) × (conf_file_parse room stack file root ≡ ok (tree, pos 0))
      × ((BeginsWithOne w (s ∷ ss)
            × Among target (t ∷ ts)
            × (check_command
                  (record { room = room; hostname = hostname; tree = tree })
                  cmdline
                  target
                  errno
                ≡ ok (pos 0, errno)))
          ⊎ (¬ (BeginsWithOne w (s ∷ ss) × Among target (t ∷ ts))
              × (check_command
                    (record { room = room; hostname = hostname; tree = tree })
                    cmdline
                    target
                    errno
                  ≡ ok (negsuc 0, ic_errno_command_denied))))
loaded-check_command room hostname stack file es own s t ss ts cmdline w gap line target errno ample
      holds limiting il ndw sw read =
    (
      node (some (b'.' ∷ [])) (nodes_of es),
      conf_file_parse-nodes_of room ample stack file es holds,
      (check_command-listed (loaded_host room hostname es) (nodes_of es)
          (loaded-IsConfigured room ample hostname es holds.plain) own
          (container_name-value_at room ample hostname es holds.plain own limiting.named)
          limiting.dotless limiting.short (leaves (s ∷ ss)) (leaves (t ∷ ts)) s t ss ts
          limiting.limit_names limiting.target_names cmdline w gap line target errno
          (find-setting_at own (commands_name ∷ []) es (texts (s ∷ ss)) limiting.limits)
          (find-setting_at commands_name (w ∷ acl_name ∷ []) es (texts (t ∷ ts)) limiting.targets)
          il ndw sw read).1,
    )
