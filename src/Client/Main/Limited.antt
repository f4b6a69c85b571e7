-- ===== src/Client/Main/Limited.antt =====
-- A command from the arguments of src/icmpc/icmpc.c to what is printed, with a daemon of src/icmpd
-- behind it that a configuration file limits.
use inter_container_messagin.Base.{
  ℕ, ◌+◌, ◌-◌, ◌^◌, ◌<◌, ◌≤◌, ◌≡◌, refl, ap, sym, ◌∙◌, ◌⊎◌, inl, inr, Bool, true, Option, none,
  some, List, ◌∷◌, [], ◌++◌, Bytes, Run, ok, blocked, length,
}
use inter_container_messagin.Base.Word.{ℤ, pos}
use inter_container_messagin.StringTree.{Node, root}
use inter_container_messagin.StringTree.Path.{NoDot}
use inter_container_messagin.Yaml.{File, conf_file_parse}
use inter_container_messagin.Yaml.Settings.{Settings}
use inter_container_messagin.Yaml.Query.{HoldsSettings}
use inter_container_messagin.Message.{rc_ok}
use inter_container_messagin.Container.{HostName}
use inter_container_messagin.Transport.{Context, transport_name}
use inter_container_messagin.Daemon.Words.Argv.{Line, IsLine, words, build_argv-words}
use inter_container_messagin.Daemon.Words.Argv as Argv
use inter_container_messagin.Daemon.Acl.Granted.{Among, BeginsWithOne}
use inter_container_messagin.Daemon.Acl.Loaded.{IsLimiting, loaded-check_command}
use inter_container_messagin.Daemon.Exec.{Server, Surroundings, child_argv}
use inter_container_messagin.Daemon.Exec.Reply.{output, reply_message, PutsOut}
use inter_container_messagin.Daemon.Serve.Enforced.{on_host}
use inter_container_messagin.Program.{Argument, MainOptions, no_options, ran}
use inter_container_messagin.Program.Flags.{AreFlags}
use inter_container_messagin.Client.{Client, Network, run_commandline, handle_protocol_commandline}
use inter_container_messagin.Client.Exchange.{IsText, c_text-IsText}
use inter_container_messagin.Client.Session.{unlinked}
use inter_container_messagin.Client.Limited.{HasRoute, Verdict, verdict-Outcome}
use inter_container_messagin.Client.Main.{no_request, client_case, commandline, main}
use inter_container_messagin.Client.Main.Requested.{AreKnown, requested, main-request}

-- The tree of a file that is loaded
tree_of : Run (Node × ℤ) → Node → Node
tree_of (ok (tree, rc)) other = tree
tree_of failed other = other

loaded_tree : (r : Run (Node × ℤ)) (a b : Node) → r ≡ ok (a, pos 0) → r ≡ ok (b, pos 0) → a ≡ b
unfolding tree_of
loaded_tree r a b first second = ap (λ x. tree_of x b) (sym first ∙ second)

-- The arguments that are the options of the program, then the subcommand with its own
abbrev pub command_arguments : List Argument → List (ℕ × Bytes) → List Argument → List Argument
command_arguments flags opts rest =
    flags ++ (record { opt = 1; optarg = commandline; behind = opts } ∷ rest)

-- They name a container and a command, without a configuration file.
pub record AskFor (name cmdline : Bytes) (flags : List Argument) (first : ℕ × Bytes)
    (opts : List (ℕ × Bytes)) : Type 0 where
  pub flag_options : MainOptions
  pub are_flags : AreFlags client_case flags no_options flag_options
  pub are_known : AreKnown (first ∷ opts)
  pub request :
      requested (first ∷ opts) no_request
      ≡ record { conf_file = none; requestor = some name; input = some cmdline }

child_argv-words :
    (w : Surroundings) (line : Line)
    → ((k : ℕ) → w.host.room k ≡ true)
    → IsLine line
    → IsText (Argv.text line)
    → child_argv w (Argv.text line ++ (0 ∷ [])) ≡ ok (some (words line))
unfolding child_argv
child_argv-words w line ample il t =
    rw (c_text-IsText (Argv.text line) [] t)
      (ap ok (build_argv-words w.host.room ample [] line tt il))

module _ {S : Type 0} (net : Network S) (c : Client S) (ample : (k : ℕ) → net.room k ≡ true) where
  main-asked :
      (name cmdline : Bytes) (flags rest : List Argument) (first : ℕ × Bytes)
      (opts : List (ℕ × Bytes))
      → AskFor name cmdline flags first opts
      → main net c (command_arguments flags (first ∷ opts) rest)
        ≡ ran (handle_protocol_commandline net (some name) cmdline c)
  unfolding run_commandline
  main-asked name cmdline flags rest first opts ask =
      (main-request net c flags rest ask.flag_options first.0 first.1 opts ask.are_flags
        ask.are_known).0
      ∙ ap (λ o. ran (run_commandline net o c)) ask.request
      ∙ rw (ample (length name + 1)) refl

  module _ (w : Surroundings) (tr : Context) (server : Server) (room : ℕ → Bool)
      (hostname : ℕ → HostName) (stack : ℕ) (file : File) (es : Settings) (tree : Node)
      (own s t : Bytes) (ss ts : List Bytes) (word gap : Bytes) (line : Line)
      (spacious : (k : ℕ) → room k ≡ true) (holds : HoldsSettings file stack es)
      (limiting : IsLimiting es own word s t ss ts)
      (parsed : conf_file_parse room stack file root ≡ ok (tree, pos 0))
      (il : IsLine ((word, gap) ∷ line)) (ndw : NoDot word) (sw : length word ≤ 4000)
      (plain : IsText (Argv.text ((word, gap) ∷ line))) where
    decided :
        Verdict
          (on_host w hostname room tree).host
          (BeginsWithOne word (s ∷ ss) × Among (transport_name tr) (t ∷ ts))
          (Argv.text ((word, gap) ∷ line) ++ (0 ∷ []))
          (transport_name tr)
          server.errno
    decided =
        let cmdline = Argv.text ((word, gap) ∷ line) in
        let (tree', parsed', checked) =
          loaded-check_command room hostname stack file es own s t ss ts (cmdline ++ (0 ∷ [])) word
            gap line (transport_name tr) server.errno spacious holds limiting il ndw sw
            (c_text-IsText cmdline [] plain) in
        rw (loaded_tree _ tree tree' parsed parsed') (elim checked [
          | inl (begins, among, passes) ↦ inl ((begins, among), passes)
          | inr (denied, fails) ↦ inr (denied, fails)
        ])

    -- From the arguments of the client to what is printed: a command whose first word begins with a
    -- name on the one list, asked for in the name of a container on the other, prints the whole output
    -- of the program that is executed with the words of the command, and the client returns 0 with its
    -- transport closed. For any other command the client does not return: it stays in a call of the
    -- library. The daemon's configuration file was loaded; it names the daemon's own container, lists
    -- the commands let through there and the targets of the word. Its settings have distinct names and
    -- are not empty, no listed name has a colon, the last of a list is not empty and no list is just
    -- "*"; the own name and the word have no dots and at most 4000 bytes. The command is words with
    -- spaces between them, without a NUL, and has fewer than 2 ^ 31 - 17 bytes, like the output, which
    -- has no NUL either. The client is asked with no configuration file; the directories of the
    -- channel are there or can be made, the sockets are joined, the pipes work, memory suffices and
    -- the stack holds the nesting of the file.
    pub main-limited :
        (reads : List (Option Bytes × Bytes)) (link : ℕ) (disk : S) (flags rest : List Argument)
        (first : ℕ × Bytes) (opts : List (ℕ × Bytes))
        → length (Argv.text ((word, gap) ∷ line)) < 2 ^ 31 - 17
        → HasRoute net
            (on_host w hostname room tree)
            tr
            server
            (transport_name tr)
            (length (Argv.text ((word, gap) ∷ line)))
            c
            link
            disk
        → PutsOut (on_host w hostname room tree) (words ((word, gap) ∷ line)) reads
        → IsText (output reads)
        → AskFor (transport_name tr) (Argv.text ((word, gap) ∷ line)) flags first opts
        → ((BeginsWithOne word (s ∷ ss) × Among (transport_name tr) (t ∷ ts))
            × (main net c (command_arguments flags (first ∷ opts) rest)
                ≡ ran (
                    ok (
                      record c {
                        stdout = c.stdout ++ output reads;
                        transports = unlinked net link disk c.transports;
                        sent =
                            c.sent
                            ++ (reply_message 1 (Argv.text ((word, gap) ∷ line) ++ (0 ∷ [])) ∷ []);
                      },
                      rc_ok,
                    ))))
          ⊎ (¬ (BeginsWithOne word (s ∷ ss) × Among (transport_name tr) (t ∷ ts))
              × (main net c (command_arguments flags (first ∷ opts) rest) ≡ ran blocked))
    main-limited reads link disk flags rest first opts small route puts printable ask =
        let cmdline = Argv.text ((word, gap) ∷ line) in
        let w' = on_host w hostname room tree in
        let asked = main-asked (transport_name tr) cmdline flags rest first opts ask in
        elim (verdict-Outcome net w' tr server (transport_name tr) c link disk cmdline
          (words ((word, gap) ∷ line)) reads route puts printable small
          (child_argv-words w' ((word, gap) ∷ line) spacious il plain)
          (BeginsWithOne word (s ∷ ss) × Among (transport_name tr) (t ∷ ts)) decided) [
            | inl (allowed, prints) ↦ inl (allowed, asked ∙ ap ran prints)
            | inr (denied, waits) ↦ inr (denied, asked ∙ ap ran waits)
          ]
