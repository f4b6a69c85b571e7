-- ===== src/Daemon/Exec.antt =====
-- The two requests of src/icmpd/subcmd_start.c: `echo_data` and `execute_cmd`. A reply is sent over
-- the transport of the worker; `sent` is what was sent so far. Pipes, `fork` and `execvp`
-- are the system's: what matters of them is what the parent reads from the output pipe until its
-- end, and whether an `ic_assert` on them ends the process.
pub mod Reply
use inter_container_messagin.Base.{
  ℕ, zero, Bool, true, Option, none, some, List, [], ◌∷◌, ◌++◌, Bytes, Run, ok, fault, exited,
  ◌>>=◌, if◌then◌else◌,
}
use inter_container_messagin.Base.Word.{ℤ, pos}
use inter_container_messagin.Stream.{Stream, init, head, size, append_bytes}
use inter_container_messagin.Message.{
  Marshalled, refused, marshalled, marshal, icmp_cc_echo, icmp_cc_commandline, rc_ok,
}
use inter_container_messagin.Container.{Host}
use inter_container_messagin.Transport.{Context, Traffic, transport_send_data}
use inter_container_messagin.Daemon.Words.{c_text, build_argv}

-- The process state: `ic_errno`, and the replies that the transport took, in order.
pub record Server : Type 0 where
  pub errno : ℕ
  pub sent : List Bytes

-- What surrounds one request. `traffic` is what becomes of messages on the sockets, `child` what is
-- read from the pipe when the forked process gets to `execvp` with an argument vector, or does not:
-- the non-empty reads, each with the block that `bs_reserve` gets for it. The other blocks are those
-- for the closing NUL and for the reply.
pub record Surroundings : Type 0 where
  pub host : Host
  pub traffic : Traffic
  pub pipes : Bool
  pub child : Run (Option (List Bytes)) → List (Option Bytes × Bytes)
  pub nul_block : Option Bytes
  pub reply_block : Option Bytes

unfoldable pub send_data : Surroundings → Context → Bytes → Server → Run (Server × ℤ)
send_data w tr msg s = transport_send_data w.traffic tr msg >>= λ rc. elim rc [
  | pos zero ↦ ok (record s { sent = s.sent ++ (msg ∷ []) }, rc_ok)
  | other ↦ ok (s, other)
]

-- `ic_assert(!rc)` on `icmp_marshal`, and the reply
reply : Surroundings → Context → Marshalled → Server → Run (Server × ℤ)
unfolding send_data
reply w tr refused s = exited
reply w tr (marshalled none len) s = fault
reply w tr (marshalled (some msg) none) s = fault
reply w tr (marshalled (some msg) (some len)) s = send_data w tr msg s

unfoldable pub echo_data : Surroundings → Context → Bytes → ℕ → Server → Run (Server × ℤ)
unfolding reply
echo_data w tr echo echo_len s =
    marshal w.reply_block (some echo) echo_len icmp_cc_echo true true >>= λ m. reply w tr m s

-- The loop that collects the output.
unfoldable pub collect : List (Option Bytes × Bytes) → Stream → Run Stream
collect [] bs = ok bs
collect ((block, chunk) ∷ reads) bs = append_bytes block bs chunk >>= λ r. collect reads r.0

-- The argument vector of the child, which reads the command line from the payload pointer.
unfoldable pub child_argv : Surroundings → Bytes → Run (Option (List Bytes))
child_argv w cmdline = c_text cmdline >>= λ line. ok (build_argv w.host.room line)

unfoldable pub execute_cmd : Surroundings → Context → Bytes → ℕ → Server → Run (Server × ℤ)
unfolding collect reply
execute_cmd w tr cmdline cmdline_len s =
    if w.pipes
    then (do
      output ← collect (w.child (child_argv w cmdline)) (init [] 0)
      (bs, _) ← append_bytes w.nul_block output (0 ∷ [])
      m ← marshal w.reply_block (some (head bs)) (size bs) icmp_cc_commandline true true
      reply w tr m s)
    else exited
