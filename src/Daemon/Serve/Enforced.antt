-- ===== src/Daemon/Serve/Enforced.antt =====
-- The access control of src/icmpd/subcmd_start.c from a configuration file to a message.
use inter_container_messagin.Base.{
  ℕ, ◌-◌, ◌^◌, ◌<◌, ◌≤◌, ◌≡◌, ◌⊎◌, inl, inr, ◌∙◌, Bool, true, some, List, ◌∷◌, Bytes, ok, length,
  arith,
}
use inter_container_messagin.Base.Word.{pos}
use inter_container_messagin.ErrorCode.{ic_errno_command_denied}
use inter_container_messagin.StringTree.{Node, root}
use inter_container_messagin.StringTree.Path.{NoDot}
use inter_container_messagin.Yaml.{File, conf_file_parse}
use inter_container_messagin.Yaml.Settings.{Settings}
use inter_container_messagin.Yaml.Query.{HoldsSettings}
use inter_container_messagin.Message.{rc_ok}
use inter_container_messagin.Container.{HostName}
use inter_container_messagin.Transport.{Context, transport_name}
use inter_container_messagin.Daemon.Words.{c_text}
use inter_container_messagin.Daemon.Words.Argv.{Line, IsLine}
use inter_container_messagin.Daemon.Words.Argv as Argv
use inter_container_messagin.Daemon.Acl.Granted.{Among, BeginsWithOne}
use inter_container_messagin.Daemon.Acl.Loaded.{IsLimiting, loaded-check_command}
use inter_container_messagin.Daemon.Exec.{Server, Surroundings, execute_cmd}
use inter_container_messagin.Daemon.Exec.Reply.{reply_message}
use inter_container_messagin.Daemon.Serve.{handle_message}
use inter_container_messagin.Daemon.Serve.Requests.{
  handle_message-payload, handle_payload-passed, handle_payload-failed,
}

-- The same surroundings on a host with this configuration
abbrev pub on_host : Surroundings → (ℕ → HostName) → (ℕ → Bool) → Node → Surroundings
on_host w hostname room tree = record w {
  host = record { room = room; hostname = hostname; tree = tree };
}

-- After a configuration file was loaded that names the own container, lists the commands let through
-- there and the targets of a word, a message with a command line that begins with the word is executed
-- by the worker of a container exactly if the word begins with a name on the first list and that
-- container is on the second. Otherwise nothing is executed or sent, "denied" is noted and the message
-- counts as handled. The settings of the file have distinct names and are not empty, no listed name
-- has a colon, the last of a list is not empty and no list is just "*"; the name of the own container
-- and the word have no dots and at most 4000 bytes, the command line fits a message, memory suffices
-- and the stack holds the nesting of the file.
pub handle_message-enforced :
    (room : ℕ → Bool) (hostname : ℕ → HostName) (stack : ℕ) (file : File) (es : Settings)
    (own s t : Bytes) (ss ts : List Bytes) (cmdline w gap : Bytes) (line : Line)
    (around : Surroundings) (tr : Context) (server : Server)
    → ((k : ℕ) → room k ≡ true)
    → HoldsSettings file stack es
    → IsLimiting es own w s t ss ts
    → IsLine ((w, gap) ∷ line)
    → NoDot w
    → length w ≤ 4000
    → c_text cmdline ≡ ok (Argv.text ((w, gap) ∷ line))
    → length cmdline < 2 ^ 32 - 16
    → (tree : Node) × (conf_file_parse room stack file root ≡ ok (tree, pos 0))
      × ((BeginsWithOne w (s ∷ ss)
            × Among (transport_name tr) (t ∷ ts)
            × (handle_message
                  (on_host around hostname room tree)
                  tr
                  (some (reply_message 1 cmdline))
                  (length (reply_message 1 cmdline))
                  server
                ≡ execute_cmd
                    (on_host around hostname room tree)
                    tr
                    cmdline
                    (length cmdline)
                    server))
          ⊎ (¬ (BeginsWithOne w (s ∷ ss) × Among (transport_name tr) (t ∷ ts))
              × (handle_message
                    (on_host around hostname room tree)
                    tr
                    (some (reply_message 1 cmdline))
                    (length (reply_message 1 cmdline))
                    server
                  ≡ ok (record server { errno = ic_errno_command_denied }, rc_ok))))
handle_message-enforced room hostname stack file es own s t ss ts cmdline w gap line around tr
      server ample holds limiting il ndw sw read small =
    let (tree, parsed, checked) =
      loaded-check_command room hostname stack file es own s t ss ts cmdline w gap line
        (transport_name tr) server.errno ample holds limiting il ndw sw read in
    let around' = on_host around hostname room tree in
    let handled = handle_message-payload around' tr server cmdline 1 small (omega arith) in
    (
      tree,
      parsed,
      elim checked [
        | inl (begins, among, passes) ↦ inl (
          begins,
          among,
          handled
              ∙ handle_payload-passed around' tr cmdline (length cmdline) server.errno server
                  passes,
        )
        | inr (not_both, fails) ↦ inr (
          not_both,
          handled
              ∙ handle_payload-failed around' tr cmdline (length cmdline) ic_errno_command_denied 0
                  server fails,
        )
      ],
    )
