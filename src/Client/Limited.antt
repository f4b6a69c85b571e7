-- ===== src/Client/Limited.antt =====
-- A command of the client of src/icmpc on its way to a daemon of src/icmpd that a configuration file
-- limits: from the words of the command to what is printed.
use inter_container_messagin.Base.{
  ℕ, ◌+◌, ◌-◌, ◌^◌, ◌<◌, ◌≡◌, ◌⊎◌, inl, inr, some, Option, List, [], ◌∷◌, ◌++◌, Bytes, ok, blocked,
  length,
}
use inter_container_messagin.Base.Word.{pos, negsuc}
use inter_container_messagin.ErrorCode.{ic_errno_command_denied}
use inter_container_messagin.Message.{rc_ok}
use inter_container_messagin.Container.{Host}
use inter_container_messagin.Nanomsg.{gave, nn_req}
use inter_container_messagin.Transport.{Context, channel, transport_name}
use inter_container_messagin.Transport.Opened.{IsReady}
use inter_container_messagin.Daemon.Acl.{check_command}
use inter_container_messagin.Daemon.Exec.{Server, Surroundings, child_argv}
use inter_container_messagin.Daemon.Exec.Reply.{output, reply_message, PutsOut}
use inter_container_messagin.Client.{Client, Network, handle_protocol_commandline}
use inter_container_messagin.Client.Exchange.{IsText}
use inter_container_messagin.Client.Session.{AreJoined, unlinked, command-session, refused-session}

-- The way of a client to the worker of its container: memory for a request of some length, a channel
-- with its directories, and a socket that is joined to that of the worker.
pub record HasRoute {S : Type 0} (net : Network S) (w : Surroundings) (tr : Context)
    (server : Server) (name : Bytes) (size : ℕ) (c : Client S) (link : ℕ) (disk : S) : Type 0 where
  pub block : Bytes
  pub sock : ℕ
  pub ep : ℕ
  pub interruptions : ℕ
  pub memory : net.block ≡ some block
  pub sized : length block ≡ size + 17
  pub ready : IsReady net.system name link c.transports.disk disk
  pub made : net.system.library.socket nn_req ≡ gave sock
  pub connected : net.system.library.connect sock (channel name) ≡ gave ep
  pub closes : net.system.library.close sock ≡ gave tt
  pub joined : AreJoined net sock w tr server interruptions c.sent

-- What the check says of a command: it passes if it is allowed, and is denied otherwise.
abbrev pub Verdict : Host → Type 0 → Bytes → Bytes → ℕ → Type 0
Verdict host Allowed cmdline target errno =
    (Allowed × (check_command host cmdline target errno ≡ ok (pos 0, errno)))
    ⊎ (¬ Allowed
        × (check_command host cmdline target errno ≡ ok (negsuc 0, ic_errno_command_denied)))

module _ {S : Type 0} (net : Network S) (w : Surroundings) (tr : Context) (server : Server)
    (name : Bytes) (c : Client S) (link : ℕ) (disk : S) (cmdline : Bytes) (argv : List Bytes)
    (reads : List (Option Bytes × Bytes))
    (route : HasRoute net w tr server name (length cmdline) c link disk)
    (puts : PutsOut w argv reads) (printable : IsText (output reads))
    (small : length cmdline < 2 ^ 31 - 17)
    (read : child_argv w (cmdline ++ (0 ∷ [])) ≡ ok (some argv)) where
  -- What the client makes of a command by the verdict of the daemon
  abbrev pub Outcome : Type 0 → Type 0
  Outcome Allowed =
      (Allowed
        × (handle_protocol_commandline net (some name) cmdline c
            ≡ ok (
              record c {
                stdout = c.stdout ++ output reads;
                transports = unlinked net link disk c.transports;
                sent = c.sent ++ (reply_message 1 (cmdline ++ (0 ∷ [])) ∷ []);
              },
              rc_ok,
            )))
      ⊎ (¬ Allowed × (handle_protocol_commandline net (some name) cmdline c ≡ blocked))

  -- What the verdict of the daemon means for the client
  pub verdict-Outcome :
      (Allowed : Type 0)
      → Verdict w.host Allowed (cmdline ++ (0 ∷ [])) (transport_name tr) server.errno
      → Outcome Allowed
  verdict-Outcome Allowed (inl (allowed, passes)) = inl (
    allowed,
    command-session net w tr server name route.block c link route.sock route.ep route.interruptions
        route.memory disk route.ready route.made route.connected route.closes route.joined cmdline
        argv reads server.errno small route.sized passes read puts printable,
  )
  verdict-Outcome Allowed (inr (denied, fails)) = inr (
    denied,
    refused-session net w tr server name route.block c link route.sock route.ep route.interruptions
        route.memory disk route.ready route.made route.connected route.closes route.joined cmdline
        ic_errno_command_denied 0 small route.sized fails,
  )
