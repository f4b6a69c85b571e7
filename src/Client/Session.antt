-- ===== src/Client/Session.antt =====
-- The client of src/icmpc and the daemon of src/icmpd together: what a user gets for an echo request
-- and for a command.
use inter_container_messagin.Base.{
  ℕ, ◌+◌, ◌-◌, ◌^◌, ◌<◌, ◌≡◌, ◌≢◌, ap, ◌∙◌, Option, none, some, List, [], ◌∷◌, ◌++◌, Bytes, ok,
  blocked, length, arith, length-append, append-nil,
}
use inter_container_messagin.Base.Word.{pos, negsuc}
use inter_container_messagin.Message.{rc_ok}
use inter_container_messagin.Bcll.{bcll_add, bcll_del}
use inter_container_messagin.Nanomsg.{gave, nn_req}
use inter_container_messagin.Nanomsg.Retry.{interrupted}
use inter_container_messagin.Transport.{
  Context, Transports, channel, slave_transport_ops, transport_name,
}
use inter_container_messagin.Transport.Opened.{IsReady, opened, transport_create_slave-opened}
use inter_container_messagin.Transport.Carried.{
  transport_send_data-sent, transport_receive_data-received, transport_receive_data-waiting,
  transport_destroy-closed,
}
use inter_container_messagin.Daemon.Acl.{check_command}
use inter_container_messagin.Daemon.Exec.{Server, Surroundings, child_argv}
use inter_container_messagin.Daemon.Exec.Reply.{
  output, PutsOut, reply_message, execute_cmd-PutsOut, echo_data-reply, length-reply_message,
}
use inter_container_messagin.Daemon.Serve.{handle_payload}
use inter_container_messagin.Daemon.Serve.Requests.{handle_payload-passed}
use inter_container_messagin.Client.{
  Client, Network, exchange, handle_protocol_commandline, handle_protocol_echo,
}
use inter_container_messagin.Client.Answered.{answered_by, answered, unanswered}
use inter_container_messagin.Client.Exchange.{IsText, exchange-prints, exchange-blocked}

-- The sockets of a client and of the transport of a daemon's worker are joined: both take messages
-- whole, each call interrupted so often first. Once the client has sent a message behind its earlier
-- ones, what the daemon answers to that message is what the client receives, and nothing comes in if
-- it does not answer.
pub record AreJoined {S : Type 0} (net : Network S) (sock : ℕ) (w : Surroundings) (tr : Context)
    (s : Server) (k : ℕ) (sent : List Bytes) : Type 0 where
  pub there :
      (msg : Bytes)
      → (net.traffic sent).sending sock msg
        ≡ interrupted (net.traffic sent).eintr k ++ (gave (length msg) ∷ [])
  pub back :
      (msg : Bytes)
      → w.traffic.sending tr.sock msg ≡ interrupted w.traffic.eintr k ++ (gave (length msg) ∷ [])
  pub answer :
      (msg reply : Bytes)
      → answered_by w tr s msg ≡ ok (some reply)
      → (net.traffic (sent ++ (msg ∷ []))).receiving sock
        ≡ interrupted (net.traffic (sent ++ (msg ∷ []))).eintr k ++ (gave reply ∷ [])
  pub silence :
      (msg : Bytes)
      → answered_by w tr s msg ≡ ok none
      → (net.traffic (sent ++ (msg ∷ []))).receiving sock
        ≡ interrupted (net.traffic (sent ++ (msg ∷ []))).eintr k

-- The list of transports behind an exchange
abbrev pub unlinked : {S : Type 0} → Network S → ℕ → S → Transports S → Transports S
unlinked net link disk ts = record {
  disk = disk;
  links = bcll_del (bcll_add ts.links net.list link) link;
}

module _ {S : Type 0} (net : Network S) (w : Surroundings) (tr : Context) (s : Server)
    (name block : Bytes) (c : Client S) (link sock ep k : ℕ) (memory : net.block ≡ some block)
    (disk : S) (ready : IsReady net.system name link c.transports.disk disk)
    (made : net.system.library.socket nn_req ≡ gave sock)
    (connected : net.system.library.connect sock (channel name) ≡ gave ep)
    (closes : net.system.library.close sock ≡ gave tt)
    (joined : AreJoined net sock w tr s k c.sent) where
  session-prints :
      (cc : ℕ) (tail input text : Bytes)
      → cc < 2
      → length block ≡ length input + 17
      → length input < 2 ^ 31 - 17
      → answered_by w tr s (reply_message cc (input ++ (0 ∷ [])))
        ≡ ok (some (reply_message cc (text ++ (0 ∷ []))))
      → IsText text
      → length text < 2 ^ 31 - 17
      → exchange net cc tail (some name) input c
        ≡ ok (
          record c {
            stdout = c.stdout ++ (text ++ tail);
            transports = unlinked net link disk c.transports;
            sent = c.sent ++ (reply_message cc (input ++ (0 ∷ [])) ∷ []);
          },
          rc_ok,
        )
  session-prints cc tail input text known l small answer t short =
      let msg = reply_message cc (input ++ (0 ∷ [])) in
      let client = opened name sock ep (slave_transport_ops net.system.library) link in
      let listed = bcll_add c.transports.links net.list link in
      exchange-prints net cc tail name input block known memory l (omega (arith, small)) text c
        client (record { disk = disk; links = listed }) (unlinked net link disk c.transports)
        (transport_create_slave-opened net.system net.list link sock ep name c.transports disk ready
          made connected)
        (transport_send_data-sent (net.traffic c.sent) client k msg (joined.there msg) (
          omega (arith, length-append input (0 ∷ []), length-reply_message cc (input ++ (0 ∷ [])))))
        (transport_receive_data-received (net.traffic (c.sent ++ (msg ∷ []))) client k
          (reply_message cc (text ++ (0 ∷ []))) (joined.answer msg _ answer)
          (omega (
            arith,
            short,
            length-append text (0 ∷ []),
            length-reply_message cc (text ++ (0 ∷ [])),
          )))
        (transport_destroy-closed net.system.library name sock ep link
          (record { disk = disk; links = listed }) closes)
        t (omega (arith, short))

  -- The echo of a text of fewer than 2 ^ 31 - 17 bytes, without a NUL, is that text: the client sends
  -- its request and nothing else, client and daemon together print the text, with a newline, and the
  -- transport that the client opened is closed again, when the directories of the channel are there or
  -- can be made, the sockets are joined and memory suffices.
  pub echo-session :
      (text reply_block : Bytes)
      → IsText text
      → length text < 2 ^ 31 - 17
      → length block ≡ length text + 17
      → w.reply_block ≡ some reply_block
      → length reply_block ≡ length text + 17
      → handle_protocol_echo net (some name) text c
        ≡ ok (
          record c {
            stdout = c.stdout ++ (text ++ (10 ∷ []));
            transports = unlinked net link disk c.transports;
            sent = c.sent ++ (reply_message 0 (text ++ (0 ∷ [])) ∷ []);
          },
          rc_ok,
        )
  unfolding handle_payload
  echo-session text reply_block t small l rb rl =
      let long = length-append text (0 ∷ []) in
      let ne : (text ++ (0 ∷ [])) ≢ [] = λ e. absurd (omega (arith, long, ap length e)) in
      let reply = reply_message 0 (text ++ (0 ∷ [])) in
      session-prints 0 (10 ∷ []) text text (omega arith) l (omega arith)
        (answered w tr s (text ++ (0 ∷ [])) 0 s.errno reply (omega (arith, long)) (omega arith)
          (transport_send_data-sent w.traffic tr k reply (joined.back reply)
            (omega (arith, long, length-reply_message 0 (text ++ (0 ∷ [])))))
          (echo_data-reply w tr (text ++ (0 ∷ [])) s reply_block ne (omega (arith, long)) rb
            (omega (arith, long))))
        t small

  -- A command that the daemon's check lets through prints what it puts out: the client prints the
  -- whole output of the program, which must hold no NUL, and closes its transport, when the
  -- directories of the channel are there or can be made, the sockets are joined, the pipes work and
  -- memory suffices.
  pub command-session :
      (cmdline : Bytes) (argv : List Bytes) (reads : List (Option Bytes × Bytes)) (errno : ℕ)
      → length cmdline < 2 ^ 31 - 17
      → length block ≡ length cmdline + 17
      → check_command w.host (cmdline ++ (0 ∷ [])) (transport_name tr) s.errno ≡ ok (pos 0, errno)
      → child_argv w (cmdline ++ (0 ∷ [])) ≡ ok (some argv)
      → PutsOut w argv reads
      → IsText (output reads)
      → handle_protocol_commandline net (some name) cmdline c
        ≡ ok (
          record c {
            stdout = c.stdout ++ output reads;
            transports = unlinked net link disk c.transports;
            sent = c.sent ++ (reply_message 1 (cmdline ++ (0 ∷ [])) ∷ []);
          },
          rc_ok,
        )
  command-session cmdline argv reads errno small l checked read puts t =
      let long = length-append cmdline (0 ∷ []) in
      let put_out = length-append (output reads) (0 ∷ []) in
      let reply = reply_message 1 (output reads ++ (0 ∷ [])) in
      let prints =
        session-prints 1 [] cmdline (output reads) (omega arith) l (omega arith)
          (answered w tr s (cmdline ++ (0 ∷ [])) 1 errno reply (omega (arith, long)) (omega arith)
            (transport_send_data-sent w.traffic tr k reply (joined.back reply) (
              omega
                (arith, put_out, puts.short, length-reply_message 1 (output reads ++ (0 ∷ [])))))
            (handle_payload-passed w tr (cmdline ++ (0 ∷ [])) (length (cmdline ++ (0 ∷ []))) errno s
                checked
              ∙ execute_cmd-PutsOut w tr (cmdline ++ (0 ∷ [])) (length (cmdline ++ (0 ∷ [])))
                  (record s { errno = errno }) argv reads read puts))
          t puts.short in
      prints
      ∙ ap
          (λ out. ok (
            record c {
              stdout = c.stdout ++ out;
              transports = unlinked net link disk c.transports;
              sent = c.sent ++ (reply_message 1 (cmdline ++ (0 ∷ [])) ∷ []);
            },
            rc_ok,
          ))
          (append-nil (output reads))

  -- The client of a command that the daemon's check refuses, denied or not, does not return.
  pub refused-session :
      (cmdline : Bytes) (errno n : ℕ)
      → length cmdline < 2 ^ 31 - 17
      → length block ≡ length cmdline + 17
      → check_command w.host (cmdline ++ (0 ∷ [])) (transport_name tr) s.errno
        ≡ ok (negsuc n, errno)
      → handle_protocol_commandline net (some name) cmdline c ≡ blocked
  refused-session cmdline errno n small l checked =
      let msg = reply_message 1 (cmdline ++ (0 ∷ [])) in
      let client = opened name sock ep (slave_transport_ops net.system.library) link in
      exchange-blocked net 1 [] name cmdline block (omega arith) memory l (omega arith) c client
        (record { disk = disk; links = bcll_add c.transports.links net.list link })
        (transport_create_slave-opened net.system net.list link sock ep name c.transports disk ready
          made connected)
        (transport_send_data-sent (net.traffic c.sent) client k msg (joined.there msg) (
          omega
            (arith, length-append cmdline (0 ∷ []), length-reply_message 1 (cmdline ++ (0 ∷ [])))))
        (transport_receive_data-waiting (net.traffic (c.sent ++ (msg ∷ []))) client k
          (joined.silence msg (unanswered w tr s cmdline errno n (omega (arith, small)) checked)))
