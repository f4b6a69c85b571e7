-- ===== src/Daemon/Serve.antt =====
-- The request loop of src/icmpd/subcmd_start.c: `handle_payload`, `handle_protocol` and the loop of a
-- worker in `create_worker`. The environment gives for each round what surrounds it, the outcomes of
-- the receive among it; a finite list is the part of an unending run in which the worker has gone
-- through so many.
pub mod Requests
pub mod Loop
pub mod Process
pub mod Answered
pub mod Enforced
use inter_container_messagin.Base.{
  ℕ, zero, suc, Option, none, some, List, [], ◌∷◌, Bytes, Run, ok, exited, ◌>>=◌, ◌==◌,
  if◌then◌else◌,
}
use inter_container_messagin.Base.Word.{ℤ, pos}
use inter_container_messagin.ErrorCode.{Status, note_status, ic_errno_command_denied}
use inter_container_messagin.Message.{
  icmp_cc_echo, icmp_cc_commandline, icmp_cc_not_specified, rc_ok, rc_error,
}
use inter_container_messagin.Message.Receive.{Handler, unmarshal}
use inter_container_messagin.Nanomsg.{fresh}
use inter_container_messagin.Transport.{
  Context, System, Transports, transport_create_master, transport_receive_data, transport_name,
  message_of, len_of,
}
use inter_container_messagin.Daemon.Acl.{check_command}
use inter_container_messagin.Daemon.Exec.{Server, Surroundings, echo_data, execute_cmd}

-- `ic_errno` after a library call.
abbrev pub note_server : Status → Server → Server
note_server status s = record s { errno = note_status status s.errno }

-- The case for a command line: a check that failed because the command is denied counts as handled.
handle_commandline : Surroundings → Context → Bytes → ℕ → Server → Run (Server × ℤ)
handle_commandline w tr payload payload_len s =
    check_command w.host payload (transport_name tr) s.errno >>= λ (rc, errno).
    let s' = record s { errno = errno } in
    let denied = if errno == ic_errno_command_denied then ok (s', rc_ok) else ok (s', rc) in
    elim rc [ pos zero ↦ execute_cmd w tr payload payload_len s' | other ↦ denied ]

unfoldable pub handle_payload : Surroundings → Context → Handler Server
unfolding handle_commandline
handle_payload w tr code payload payload_len s =
    if code == icmp_cc_echo
    then echo_data w tr payload payload_len s
    else if code == icmp_cc_commandline
    then handle_commandline w tr payload payload_len s
    else ok (s, rc_error)

unfoldable pub handle_message :
    Surroundings → Context → Option Bytes → ℕ → Server → Run (Server × ℤ)
handle_message w tr msg msg_len s =
    unmarshal note_server (some (handle_payload w tr)) msg msg_len icmp_cc_not_specified s

-- Where a run of `handle_protocol` stands: waiting for a message, or back with a value, and the rounds
-- that are left.
pub data Protocol : Type 0 where
  waiting : Server → Protocol
  returned : ℤ → Server → List Surroundings → Protocol

unfoldable pub handle_protocol : Context → List Surroundings → Server → Run Protocol
handle_protocol tr [] s = ok (waiting s)
handle_protocol tr (w ∷ rest) s = transport_receive_data w.traffic tr fresh (some 0) >>= λ r.
    elim r.rc [
      | pos zero ↦ handle_message w tr (message_of r) (len_of r) s >>= λ (s', rc). elim rc [
        | pos zero ↦ handle_protocol tr rest s'
        | other ↦ ok (returned other s' rest)
      ]
      | failure ↦ ok (returned rc_ok s rest)
    ]

-- `while (1) handle_protocol(tr)`; `none` is the end of the fuel.
unfoldable pub worker : Context → ℕ → List Surroundings → Server → Run (Option Server)
worker tr zero rounds s = ok none
worker tr (suc fuel) rounds s = handle_protocol tr rounds s >>= λ p. elim p [
  | waiting s' ↦ ok (some s')
  | returned rc s' rest ↦ worker tr fuel rest s'
]

-- The child in `create_worker`, with the transports that it inherits
unfoldable pub worker_process :
    {S : Type 0}
    → System S
    → ℕ
    → Bytes
    → Transports S
    → ℕ
    → List Surroundings
    → Server
    → Run (Option Server)
worker_process sys list name ts fuel rounds s =
    transport_create_master sys list (some name) ts >>= λ (created, ts'). elim created [
      | none ↦ exited
      | some tr ↦ worker tr fuel rounds s
    ]
