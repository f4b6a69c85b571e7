-- ===== src/Examples/Answered.antt =====
-- Three messages to a worker (src/icmpd/subcmd_start.c) at concrete inputs: an echo request, a command
-- on a host that lets everything through, and a message that is too short.
use inter_container_messagin.Base.{
  ◌≡◌, refl, some, List, [], ◌∷◌, ◌++◌, Bytes, ok, arith, replicate, bytes_eq,
}
use inter_container_messagin.Base.Word.{pos}
use inter_container_messagin.Message.{encode, to_le}
use inter_container_messagin.Message.Unmarshal.{acceptable}
use inter_container_messagin.Container.{container_name, conf_file_query}
use inter_container_messagin.StringTree.{query}
use inter_container_messagin.Nanomsg.{gave, failed}
use inter_container_messagin.Transport.Opened.{present-IsReady}
use inter_container_messagin.Daemon.Words.{
  c_word, c_text, isspace, skip_spaces, word, after_word, argv_loop, build_argv,
}
use inter_container_messagin.Daemon.Acl.{check_command, check_limited_commands, check_command_acl}
use inter_container_messagin.Daemon.Exec.{Surroundings, child_argv}
use inter_container_messagin.Daemon.Exec.Reply.{reply_message, PutsOut}
use inter_container_messagin.Daemon.Serve.{worker_process}
use inter_container_messagin.Daemon.Serve.Process.{rounds}
use inter_container_messagin.Daemon.Serve.Answered.{
  Takes, Handled, echoed, executed, not_accepted, AllHandled, nothing, after,
  worker_process-AllHandled,
}
use inter_container_messagin.Examples.Systems.{system, prepared, web, calm}
use inter_container_messagin.Examples.Requests.{around, printed}
use inter_container_messagin.Examples.Messages.{bad_header, bad_msg, bad_msg-Reads}
use inter_container_messagin.Examples.Sessions.{open_host}
use inter_container_messagin.Examples.Text.{codes}

abbrev echo_request : Bytes
echo_request = reply_message 0 (codes "hi")

abbrev ls_request : Bytes
ls_request = reply_message 1 (codes "ls" ++ (0 ∷ []))

-- Each comes in behind an interruption.
abbrev coming : Bytes → Bytes → Surroundings
coming block msg = record (around block) {
  host = open_host;
  traffic = calm (failed 4 ∷ gave msg ∷ []);
}

abbrev echo_round : Surroundings
echo_round = coming (replicate 18 170) echo_request

abbrev ls_round : Surroundings
ls_round = coming (replicate 20 170) ls_request

abbrev bad_round : Surroundings
bad_round = coming [] (bad_msg 1 0)

abbrev messages : List (Surroundings × Bytes)
messages = (echo_round, echo_request) ∷ (ls_round, ls_request) ∷ (bad_round, bad_msg 1 0) ∷ []

ls_passes : check_command open_host (codes "ls" ++ (0 ∷ [])) (codes "web") 0 ≡ ok (pos 0, 0)
unfolding check_command c_word isspace check_limited_commands container_name conf_file_query query
    bytes_eq check_command_acl
ls_passes = refl

ls_read : child_argv ls_round (codes "ls" ++ (0 ∷ [])) ≡ ok (some (codes "ls" ∷ []))
unfolding child_argv c_text build_argv argv_loop skip_spaces isspace after_word word
ls_read = refl

ls_puts : PutsOut ls_round (codes "ls" ∷ []) printed
ls_puts = record {
  nul_block = 0 ∷ 0 ∷ 0 ∷ 0 ∷ [];
  reply_block = replicate 20 170;
  pipes = refl;
  child = refl;
  served = ((λ e. cc), refl, ((λ e. cc), refl, tt));
  short = omega arith;
  nul_memory = refl;
  nul_sized = refl;
  reply_memory = refl;
  reply_sized = refl;
}

socket-Takes : (block msg reply : Bytes) → Takes (coming block msg) web reply
socket-Takes block msg reply = record { interruptions = 0; whole = refl }

bad-Handled : Handled bad_round web (bad_msg 1 0) 0 [] 0
unfolding encode to_le acceptable
bad-Handled =
    not_accepted (bad_msg 1 0) (bad_header 1 0) (bad_msg-Reads 1 0 (omega arith)) refl (omega arith)
      (omega arith) refl

messages-AllHandled :
    AllHandled web messages 0
      (reply_message 0 (codes "hi") ∷ reply_message 1 (codes "abc" ++ (0 ∷ [])) ∷ [])
      0
messages-AllHandled =
    after
      (echoed (codes "hi") (replicate 18 170) (λ e. cc) (omega arith) refl refl
        (socket-Takes (replicate 18 170) echo_request echo_request))
      (after
        (executed (codes "ls" ++ (0 ∷ [])) (codes "ls" ∷ []) printed (omega arith) ls_passes ls_read
          ls_puts
          (socket-Takes (replicate 20 170) ls_request (reply_message 1 (codes "abc" ++ (0 ∷ [])))))
        (after bad-Handled nothing))

worker_process-AllHandled_example :
    worker_process system 1
      (codes "web")
      prepared
      4
      (rounds messages)
      (record { errno = 0; sent = [] })
    ≡ ok (
        some (record {
          errno = 0;
          sent = reply_message 0 (codes "hi") ∷ reply_message 1 (codes "abc" ++ (0 ∷ [])) ∷ [];
        }))
unfolding bytes_eq encode to_le
worker_process-AllHandled_example =
    worker_process-AllHandled system 1 3 8 5 (codes "web") prepared prepared.disk messages 1 4 0 0
      [] (reply_message 0 (codes "hi") ∷ reply_message 1 (codes "abc" ++ (0 ∷ [])) ∷ [])
      (present-IsReady system (codes "web") 3 prepared.disk refl refl refl) refl refl refl
      (refl, omega arith, (refl, omega arith, (refl, omega arith, tt))) messages-AllHandled
      (omega arith)
