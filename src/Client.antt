-- ===== src/Client.antt =====
-- The client: src/icmpc/subcmd_commandline.c and src/icmpc/subcmd_echo.c. One exchange sends a
-- request over a transport that it opens, waits for the answer, prints it and closes the transport.
pub mod Exchange
pub mod Listed
pub mod Answered
pub mod Session
pub mod Limited
pub mod Main
use inter_container_messagin.Base.{
  ℕ, zero, ◌+◌, Bool, true, Option, none, some, List, [], ◌∷◌, ◌++◌, Bytes, Run, ok, fault, ◌>>=◌,
  ◌==◌, if◌then◌else◌, length,
}
use inter_container_messagin.Base.Word.{ℤ, pos, negsuc}
use inter_container_messagin.ErrorCode.{Status, note_status}
use inter_container_messagin.Message.{
  refused, marshalled, marshal, icmp_cc_echo, icmp_cc_commandline, rc_ok, rc_error,
}
use inter_container_messagin.Message.Receive.{Handler, unmarshal}
use inter_container_messagin.Nanomsg.{fresh}
use inter_container_messagin.Transport.{
  System, Context, Transports, Traffic, transport_create_slave, transport_destroy,
  transport_send_data, transport_receive_data, message_of, len_of,
}
use inter_container_messagin.StringTree.{root}
use inter_container_messagin.Yaml.{File, conf_file_parse}
use inter_container_messagin.Container.{strdup}
use inter_container_messagin.Daemon.Words.{c_text}

-- The process state: `ic_errno`, what was printed, the file system and the list of transports, and the
-- messages that `ic_transport_send_data` has sent, in order.
pub record Client (S : Type 0) : Type 0 where
  pub errno : ℕ
  pub stdout : Bytes
  pub transports : Transports S
  pub sent : List Bytes

-- What surrounds the client: memory, the block for the request, the depth of calls that the stack can
-- hold, the configuration files, the system under a transport, the address of `transport_list`, and
-- what becomes of messages and what comes in, by what the client has sent.
pub record Network (S : Type 0) : Type 0 where
  pub room : ℕ → Bool
  pub block : Option Bytes
  pub stack : ℕ
  pub file : Bytes → File
  pub system : System S
  pub list : ℕ
  pub traffic : List Bytes → Traffic

-- `opt_conf_file`, `opt_requestor`, and `opt_cmdline` or `opt_echo_data`
pub record Options : Type 0 where
  pub conf_file : Option Bytes
  pub requestor : Option Bytes
  pub input : Option Bytes

module _ {S : Type 0} where
  -- `ic_errno` after a library call.
  abbrev pub note_client : Status → Client S → Client S
  note_client status c = record c { errno = note_status status c.errno }

  -- `print_result`, with what the format has behind the string
  unfoldable pub print_result : Bytes → Handler (Client S)
  print_result tail cc payload payload_len c =
      c_text payload >>= λ text. ok (record c { stdout = c.stdout ++ (text ++ tail) }, rc_ok)

  -- `ic_transport_destroy` in front of each return
  unfoldable pub disconnect : Context → Client S × ℤ → Run (Client S × ℤ)
  disconnect tr (c, rc) =
      transport_destroy tr c.transports >>= λ ts. ok (record c { transports = ts }, rc)

  -- `handle_protocol` behind the sending of the request
  unfoldable pub receive_result : Traffic → ℕ → Bytes → Context → Client S → Run (Client S × ℤ)
  unfolding disconnect
  receive_result traffic cc tail tr c = transport_receive_data traffic tr fresh (some 0) >>= λ r.
      elim r.rc [
        | pos zero ↦
            unmarshal note_client (some (print_result tail)) (message_of r) (len_of r) cc c
            >>= disconnect tr
        | failure ↦ disconnect tr (c, failure)
      ]

  -- `ic_transport_send_data` of the client: a message that is sent counts for what comes in later.
  unfoldable pub client_send : Network S → Context → Bytes → Client S → Run (Client S × ℤ)
  client_send net tr msg c = transport_send_data (net.traffic c.sent) tr msg >>= λ rc. elim rc [
    | pos zero ↦ ok (record c { sent = c.sent ++ (msg ∷ []) }, rc_ok)
    | other ↦ ok (c, other)
  ]

  -- `handle_protocol` behind the marshalling of the request
  unfoldable pub send_request :
      Network S → ℕ → Bytes → Option Bytes → Bytes → Client S → Run (Client S × ℤ)
  unfolding client_send receive_result
  send_request net cc tail name msg c =
      transport_create_slave net.system net.list name c.transports >>= λ (created, ts).
      let c' = record c { transports = ts } in
      elim created [
        | none ↦ ok (c', rc_error)
        | some tr ↦ client_send net tr msg c' >>= λ (c'', rc). elim rc [
          | pos zero ↦ receive_result (net.traffic c''.sent) cc tail tr c''
          | failure ↦ disconnect tr (c'', failure)
        ]
      ]

  -- `handle_protocol` of both subcommands, which differ in the command code and in the format of the
  -- result. The input is a C string.
  unfoldable pub exchange :
      Network S → ℕ → Bytes → Option Bytes → Bytes → Client S → Run (Client S × ℤ)
  unfolding send_request
  exchange net cc tail name input c =
      marshal net.block (some (input ++ (0 ∷ []))) (length input + 1) cc true true >>= λ m. elim m [
        | marshalled (some msg) (some len) ↦ send_request net cc tail name msg c
        | marshalled _ _ ↦ fault
        | refused ↦ ok (c, rc_error)
      ]

  abbrev pub handle_protocol_commandline :
      Network S → Option Bytes → Bytes → Client S → Run (Client S × ℤ)
  handle_protocol_commandline net name cmdline c =
      exchange net icmp_cc_commandline [] name cmdline c

  abbrev pub handle_protocol_echo : Network S → Option Bytes → Bytes → Client S → Run (Client S × ℤ)
  handle_protocol_echo net name echo_data c = exchange net icmp_cc_echo (10 ∷ []) name echo_data c

abbrev local : Bytes
local = b'l' ∷ b'o' ∷ b'c' ∷ b'a' ∷ b'l' ∷ []

-- `parse_arg`
unfoldable pub parse_arg : ℕ → Bytes → Options → Options × ℤ
parse_arg opt optarg opts =
    if opt == b'c'
    then (record opts { conf_file = some optarg }, rc_ok)
    else if opt == b'r'
    then (record opts { requestor = some optarg }, rc_ok)
    else if opt == 1
    then (record opts { input = some optarg }, rc_ok)
    else (opts, rc_error)

module _ {S : Type 0} where
  -- `init_context`: the container name, which is NULL without memory
  unfoldable pub init_context : Network S → Options → Option Bytes
  init_context net opts = strdup net.room (elim opts.requestor [ none ↦ local | some name ↦ name ])

  -- The configuration file is parsed if one is given; a negative result ends the run.
  configured : Network S → Options → Run (Client S × ℤ) → Client S → Run (Client S × ℤ)
  configured net opts go c = elim opts.conf_file [
    | none ↦ go
    | some name ↦ conf_file_parse net.room net.stack (net.file name) root >>= λ (tree, rc).
        elim rc [ pos n ↦ go | negsuc n ↦ ok (c, negsuc n) ]
  ]

  unfoldable pub run_commandline : Network S → Options → Client S → Run (Client S × ℤ)
  unfolding configured init_context
  run_commandline net opts c = elim opts.input [
    | none ↦ ok (c, rc_error)
    | some cmdline ↦
        configured net opts
          (elim (init_context net opts) [
            | none ↦ ok (c, rc_error)
            | some name ↦ handle_protocol_commandline net (some name) cmdline c
          ])
          c
  ]

  -- The result of `init_context` is not looked at.
  unfoldable pub run_echo : Network S → Options → Client S → Run (Client S × ℤ)
  unfolding configured init_context
  run_echo net opts c = elim opts.input [
    | none ↦ ok (c, rc_error)
    | some echo_data ↦
        configured net opts (handle_protocol_echo net (init_context net opts) echo_data c) c
  ]
