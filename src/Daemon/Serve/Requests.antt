-- ===== src/Daemon/Serve/Requests.antt =====
-- `handle_payload` of src/icmpd/subcmd_start.c by the result of the access check.
use inter_container_messagin.Base.{
  refl, ◌-◌, ◌^◌, ◌<◌, ◌∙◌, some, length, ℕ, ◌≡◌, Bytes, ok, ◌==◌, if◌then◌else◌, arith,
}
use inter_container_messagin.Base.Word.{pos, negsuc}
use inter_container_messagin.ErrorCode.{ic_errno_command_denied}
use inter_container_messagin.Message.{rc_ok}
use inter_container_messagin.Message.RoundTrip.{received}
use inter_container_messagin.Daemon.Exec.Reply.{reply_message}
use inter_container_messagin.Transport.{Context, transport_name}
use inter_container_messagin.Daemon.Acl.{check_command}
use inter_container_messagin.Daemon.Exec.{Server, Surroundings, execute_cmd}
use inter_container_messagin.Daemon.Serve.{note_server, handle_payload, handle_message}

-- A command that passes the check is executed with `ic_errno` as the check left it.
pub handle_payload-passed :
    (w : Surroundings) (tr : Context) (payload : Bytes) (len errno : ℕ) (s : Server)
    → check_command w.host payload (transport_name tr) s.errno ≡ ok (pos 0, errno)
    → handle_payload w tr 1 payload len s
      ≡ execute_cmd w tr payload len (record s { errno = errno })
unfolding handle_payload
handle_payload-passed w tr payload len errno s h = rw h

-- A command that does not pass is not executed and nothing is sent. The request counts as handled
-- exactly if `ic_errno` then is "denied", also when that is left over from an earlier request and
-- the check failed for another reason.
pub handle_payload-failed :
    (w : Surroundings) (tr : Context) (payload : Bytes) (len errno n : ℕ) (s : Server)
    → check_command w.host payload (transport_name tr) s.errno ≡ ok (negsuc n, errno)
    → handle_payload w tr 1 payload len s
      ≡ ok
          (record s { errno = errno }, if errno == ic_errno_command_denied then rc_ok else negsuc n)
unfolding handle_payload
handle_payload-failed w tr payload len errno n s h = rw h (ground arith)

-- A payload of a size that the header can hold is handled as a request for its command.
pub handle_message-payload :
    (w : Surroundings) (tr : Context) (s : Server) (payload : Bytes) (cc : ℕ)
    → length payload < 2 ^ 32 - 16
    → cc < 2
    → handle_message w tr (some (reply_message cc payload)) (length (reply_message cc payload)) s
      ≡ handle_payload w tr cc payload (length payload) s
unfolding handle_message
handle_message-payload w tr s payload cc small known =
    received note_server (λ s. refl) (handle_payload w tr) payload cc small known 0xffff s
    ∙ ground arith
