-- ===== src/Daemon/Serve/Answered.antt =====
-- What a worker of src/icmpd/subcmd_start.c answers, apart from how a message is taken apart and a
-- reply is made: a relation between the messages that come in and the replies that go out.
use inter_container_messagin.Base.{
  ℕ, ◌+◌, ◌-◌, ◌^◌, ◌<◌, ◌≡◌, ◌≢◌, refl, ap, sym, ◌∙◌, if◌then◌else◌, ◌==◌, false, some, Option,
  List, [], ◌∷◌, ◌++◌, Bytes, Run, ok, length, arith, length-append, append_assoc, append-nil,
}
use inter_container_messagin.Base.Word.{ℤ, pos, negsuc}
use inter_container_messagin.ErrorCode.{ic_errno_command_denied}
use inter_container_messagin.Message.{Header, rc_ok, rc_error}
use inter_container_messagin.Message.Layout.{Reads}
use inter_container_messagin.Message.Unmarshal.{acceptable, unmarshal-acceptable}
use inter_container_messagin.Nanomsg.{gave, nn_rep}
use inter_container_messagin.Nanomsg.Retry.{interrupted}
use inter_container_messagin.Transport.{
  System, Context, Transports, channel, master_transport_ops, transport_name,
}
use inter_container_messagin.Transport.Opened.{IsReady, opened}
use inter_container_messagin.Transport.Carried.{transport_send_data-sent}
use inter_container_messagin.Daemon.Acl.{check_command}
use inter_container_messagin.Daemon.Exec.{Server, Surroundings, child_argv, send_data}
use inter_container_messagin.Daemon.Exec.Reply.{
  output, reply_message, length-reply_message, echo_data-reply, PutsOut, execute_cmd-PutsOut,
}
use inter_container_messagin.Daemon.Serve.{
  note_server, handle_payload, handle_message, worker_process,
}
use inter_container_messagin.Daemon.Serve.Loop.{finished}
use inter_container_messagin.Daemon.Serve.Requests.{
  handle_message-payload, handle_payload-passed, handle_payload-failed,
}
use inter_container_messagin.Daemon.Serve.Process.{
  rounds, AreReceived, handle_messages, worker_process-messages,
}

-- The socket of a transport takes a message whole, after some interruptions.
pub record Takes (w : Surroundings) (tr : Context) (msg : Bytes) : Type 0 where
  pub interruptions : ℕ
  pub whole :
      w.traffic.sending tr.sock msg
      ≡ interrupted w.traffic.eintr interruptions ++ (gave (length msg) ∷ [])

-- What is sent for a message, with `ic_errno` before and after.
pub data Handled (w : Surroundings) (tr : Context) : Bytes → ℕ → List Bytes → ℕ → Type 0 where
  echoed :
      {errno : ℕ} (text block : Bytes)
      → text ≢ []
      → length text < 2 ^ 31 - 16
      → w.reply_block ≡ some block
      → length block ≡ 16 + length text
      → Takes w tr (reply_message 0 text)
      → Handled w tr (reply_message 0 text) errno (reply_message 0 text ∷ []) errno
  executed :
      {errno errno' : ℕ} (cmdline : Bytes) (argv : List Bytes) (reads : List (Option Bytes × Bytes))
      → length cmdline < 2 ^ 32 - 16
      → check_command w.host cmdline (transport_name tr) errno ≡ ok (pos 0, errno')
      → child_argv w cmdline ≡ ok (some argv)
      → PutsOut w argv reads
      → Takes w tr (reply_message 1 (output reads ++ (0 ∷ [])))
      → Handled w tr
          (reply_message 1 cmdline)
          errno
          (reply_message 1 (output reads ++ (0 ∷ [])) ∷ [])
          errno'
  not_allowed :
      {errno errno' : ℕ} (cmdline : Bytes) (n : ℕ)
      → length cmdline < 2 ^ 32 - 16
      → check_command w.host cmdline (transport_name tr) errno ≡ ok (negsuc n, errno')
      → Handled w tr (reply_message 1 cmdline) errno [] errno'
  not_accepted :
      {errno : ℕ} (msg : Bytes) (h : Header)
      → Reads msg h
      → h.version ≡ 1
      → length msg < 2 ^ 63
      → h.header_length + h.payload_length + h.authorization_length < 2 ^ 32
      → acceptable h (length msg) 0xffff ≡ false
      → Handled w tr msg errno [] errno

-- Messages one after the other, each with what surrounds it
pub data AllHandled (tr : Context) : List (Surroundings × Bytes) → ℕ → List Bytes → ℕ → Type 0 where
  nothing : {errno : ℕ} → AllHandled tr [] errno [] errno
  after :
      {w : Surroundings} {msg : Bytes} {ms : List (Surroundings × Bytes)} {errno errno' errno'' : ℕ}
      {replies more : List Bytes}
      → Handled w tr msg errno replies errno'
      → AllHandled tr ms errno' more errno''
      → AllHandled tr ((w, msg) ∷ ms) errno (replies ++ more) errno''

abbrev server : ℕ → List Bytes → Server
server errno sent = record { errno = errno; sent = sent }

send_data-taken :
    (w : Surroundings) (tr : Context) (msg : Bytes) (s : Server)
    → Takes w tr msg
    → length msg < 2 ^ 31
    → send_data w tr msg s ≡ ok (record s { sent = s.sent ++ (msg ∷ []) }, rc_ok)
unfolding send_data
send_data-taken w tr msg s takes small =
    rw (transport_send_data-sent w.traffic tr takes.interruptions msg takes.whole small) refl

unsent :
    (errno : ℕ) (sent : List Bytes) (rc : ℤ)
    → ◌≡◌ {A = Run (Server × ℤ)} (ok (server errno sent, rc)) (ok (server errno (sent ++ []), rc))
unsent errno sent rc = ap (λ out. ok (server errno out, rc)) (sym (append-nil sent))

-- A message is handled, whatever the result, and what is sent for it goes behind what was sent before.
Answered :
    (w : Surroundings) (tr : Context) (msg : Bytes) (errno : ℕ) (sent replies : List Bytes)
    (errno' : ℕ)
    → Type 0
Answered w tr msg errno sent replies errno' =
    (rc : ℤ) × (handle_message w tr (some msg) (length msg) (server errno sent)
      ≡ ok (server errno' (sent ++ replies), rc))

handle_message-Handled :
    (w : Surroundings) (tr : Context) (msg : Bytes) (errno : ℕ) (sent replies : List Bytes)
    (errno' : ℕ)
    → Handled w tr msg errno replies errno'
    → Answered w tr msg errno sent replies errno'
unfolding Answered handle_payload handle_message
handle_message-Handled w tr _ errno sent _ _ (echoed text block ne small rb rl takes) = (
  rc_ok,
  handle_message-payload w tr (server errno sent) text 0 (omega (arith, small)) (omega arith)
      ∙ echo_data-reply w tr text (server errno sent) block ne (omega (arith, small)) rb rl
      ∙ send_data-taken w tr (reply_message 0 text) (server errno sent) takes
          (omega (arith, small, length-reply_message 0 text)),
)
handle_message-Handled w tr _ errno sent _ errno'
      (executed cmdline argv reads small passes read puts takes) =
    (
      rc_ok,
      handle_message-payload w tr (server errno sent) cmdline 1 small (omega arith)
          ∙ handle_payload-passed w tr cmdline (length cmdline) errno' (server errno sent) passes
          ∙ execute_cmd-PutsOut w tr cmdline (length cmdline) (server errno' sent) argv reads read
              puts
          ∙ send_data-taken w tr (reply_message 1 (output reads ++ (0 ∷ []))) (server errno' sent)
              takes
              (omega (
                arith,
                puts.short,
                length-append (output reads) (0 ∷ []),
                length-reply_message 1 (output reads ++ (0 ∷ [])),
              )),
    )
handle_message-Handled w tr _ errno sent _ errno' (not_allowed cmdline n small fails) = (
  if errno' == ic_errno_command_denied then rc_ok else negsuc n,
  handle_message-payload w tr (server errno sent) cmdline 1 small (omega arith)
      ∙ handle_payload-failed w tr cmdline (length cmdline) errno' n (server errno sent) fails
      ∙ unsent errno' sent _,
)
handle_message-Handled w tr msg errno sent _ _ (not_accepted _ h reads one short small bad) = (
  rc_error,
  unmarshal-acceptable note_server (λ s. refl) (handle_payload w tr) msg h reads one short 0xffff
        (server errno sent) small
      ∙ rw bad (unsent errno sent rc_error),
)

handle_messages-AllHandled :
    (tr : Context) (ms : List (Surroundings × Bytes)) (errno : ℕ) (sent replies : List Bytes)
    (errno' : ℕ)
    → AllHandled tr ms errno replies errno'
    → handle_messages tr ms (server errno sent) ≡ ok (server errno' (sent ++ replies))
unfolding handle_messages Answered
handle_messages-AllHandled tr _ errno sent _ _ nothing =
    ap (λ out. ok (server errno out)) (sym (append-nil sent))
handle_messages-AllHandled tr _ errno sent _ errno''
      (after {w} {msg} {ms} {errno'} {replies} {more} handled rest) =
    let (rc, e) = handle_message-Handled w tr msg errno sent replies errno' handled in
    rw e (
      handle_messages-AllHandled tr ms errno' (sent ++ replies) more errno'' rest
      ∙ ap (λ out. ok (server errno'' out)) (append_assoc sent replies more))

module _ {S : Type 0} (sys : System S) (list link sock ep : ℕ) (name : Bytes) (ts : Transports S)
    (disk : S) where
  -- The process for a container answers the requests that come in over its channel, however often it
  -- is interrupted, and then waits: an echo request gets its bytes back, a command that the check
  -- passes gets the output of its program with a NUL, and nothing is sent for a command that the
  -- check does not pass or for a version 1 message whose parts do not lie in it or whose command is
  -- unknown. The replies go out once each and in the order of the requests, and `ic_errno` goes from
  -- one request to the next. The directories of the channel are there or can be made, the calls that
  -- open the transport succeed, the sockets take the replies, and there are pipes and memory for
  -- them; one round for each message and one to wait are fuel enough.
  pub worker_process-AllHandled :
      (ms : List (Surroundings × Bytes)) (k fuel errno errno' : ℕ) (sent replies : List Bytes)
      → IsReady sys name link ts.disk disk
      → sys.library.socket nn_rep ≡ gave sock
      → sys.library.set_send_timeout sock 100 ≡ gave tt
      → sys.library.bind sock (channel name) ≡ gave ep
      → AreReceived sock k ms
      → AllHandled
          (opened name sock ep (master_transport_ops sys.library) link)
          ms
          errno
          replies
          errno'
      → length ms < fuel
      → worker_process sys list name ts fuel (rounds ms) (record { errno = errno; sent = sent })
        ≡ ok (some (record { errno = errno'; sent = sent ++ replies }))
  worker_process-AllHandled ms k fuel errno errno' sent replies ready made timed bound are handled
        h =
      worker_process-messages sys list link sock ep name ts disk ms k fuel (server errno sent) ready
        made timed bound are h
      ∙ ap finished (handle_messages-AllHandled _ ms errno sent replies errno' handled)
