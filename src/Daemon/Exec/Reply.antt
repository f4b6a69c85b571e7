-- ===== src/Daemon/Exec/Reply.antt =====
-- The replies of src/icmpd/subcmd_start.c: what is sent for an echo and for a command.
use inter_container_messagin.Base.{
  ℕ, ◌+◌, ◌-◌, ◌^◌, ◌<◌, ◌≡◌, ◌≢◌, refl, ap, sym, ◌∙◌, true, Option, none, some, List, [], ◌∷◌,
  ◌++◌, Bytes, ok, length, arith, length-append, append_assoc, append-nil,
}
use inter_container_messagin.Stream.Contents.{full, append_bytes-full}
use inter_container_messagin.Message.{encode, v1_header}
use inter_container_messagin.Message.Layout.{length-encode}
use inter_container_messagin.Message.Marshal.{marshal_lem}
use inter_container_messagin.Transport.{Context}
use inter_container_messagin.Daemon.Exec.{
  Server, Surroundings, send_data, echo_data, collect, child_argv, execute_cmd,
}

-- The bytes of the reads, in order.
abbrev pub output : List (Option Bytes × Bytes) → Bytes
output [] = []
output ((block, chunk) ∷ reads) = chunk ++ output reads

-- Every read brings bytes, and `eee_malloc` gives every block that is asked for.
abbrev pub Served : ℕ → List (Option Bytes × Bytes) → Type 0
Served held [] = Unit
Served held ((none, chunk) ∷ reads) = ⊥
Served held ((some block, chunk) ∷ reads) =
    (chunk ≢ []) × (length block ≡ held + length chunk) × Served (held + length chunk) reads

abbrev pub reply_message : ℕ → Bytes → Bytes
reply_message code payload = encode (v1_header code (length payload)) ++ payload

pub length-reply_message :
    (code : ℕ) (payload : Bytes) → length (reply_message code payload) ≡ 16 + length payload
length-reply_message code payload =
    length-append (encode (v1_header code (length payload))) payload
    ∙ ap (λ n. n + length payload) (length-encode (v1_header code (length payload)))

collect-full :
    (held : Bytes) (reads : List (Option Bytes × Bytes))
    → Served (length held) reads
    → length held + length (output reads) < 2 ^ 62
    → collect reads (full held) ≡ ok (full (held ++ output reads))
unfolding collect
collect-full held [] sv small = ap (λ b. ok (full b)) (sym (append-nil held))
collect-full held ((none, chunk) ∷ reads) sv small = absurd sv
collect-full held ((some block, chunk) ∷ reads) (ne, l, sv) small =
    rw (append_bytes-full held chunk block ne (omega (arith, length-append chunk (output reads))) l)
      (collect-full (held ++ chunk) reads (rw (length-append held chunk) sv)
          (omega (arith, length-append held chunk, length-append chunk (output reads)))
        ∙ ap (λ b. ok (full b)) (append_assoc held chunk (output reads)))

-- A command whose output is read in pieces is answered by one message: the packed header for a
-- command line, and as payload the whole output in order, followed by a NUL. The output is that of
-- the argument vector made of the command line. It holds when the pipes can be set up and memory
-- suffices; the transport then decides what becomes of the message.
pub execute_cmd-reply :
    (w : Surroundings) (tr : Context) (cmdline : Bytes) (cmdline_len : ℕ) (s : Server)
    (reads : List (Option Bytes × Bytes)) (nul_block reply_block : Bytes)
    → w.pipes ≡ true
    → w.child (child_argv w cmdline) ≡ reads
    → Served 0 reads
    → length (output reads) < 2 ^ 61
    → w.nul_block ≡ some nul_block
    → length nul_block ≡ length (output reads) + 1
    → w.reply_block ≡ some reply_block
    → length reply_block ≡ length (output reads) + 17
    → execute_cmd w tr cmdline cmdline_len s
      ≡ send_data w tr (reply_message 1 (output reads ++ (0 ∷ []))) s
unfolding execute_cmd
execute_cmd-reply w tr cmdline cmdline_len s reads nul_block reply_block p is sv small nb nl rb rl =
    let long = length-append (output reads) (0 ∷ []) in
    let ne : (output reads ++ (0 ∷ [])) ≢ [] = λ e. absurd (omega (arith, long, ap length e)) in
    rw (is, p, collect-full [] reads sv (omega arith))
      (rw (nb, append_bytes-full (output reads) (0 ∷ []) nul_block (λ e. cc) (omega arith) nl)
        (rw (
          rb,
          marshal_lem (output reads ++ (0 ∷ [])) reply_block 1 true true ne (omega (arith, long))
              (omega (arith, long)) (omega arith) refl,
        )))

-- An echo request of at least one byte is answered by one message with the same bytes.
pub echo_data-reply :
    (w : Surroundings) (tr : Context) (echo : Bytes) (s : Server) (reply_block : Bytes)
    → echo ≢ []
    → length echo < 2 ^ 62
    → w.reply_block ≡ some reply_block
    → length reply_block ≡ 16 + length echo
    → echo_data w tr echo (length echo) s ≡ send_data w tr (reply_message 0 echo) s
unfolding echo_data
echo_data-reply w tr echo s reply_block ne small rb rl =
    rw rb (rw (marshal_lem echo reply_block 0 true true ne small rl (omega arith) refl))

-- A program that is executed with these arguments is read in these pieces, which fit a message: there
-- are pipes, and memory for the pieces, the NUL behind them and the reply.
pub record PutsOut (w : Surroundings) (argv : List Bytes) (reads : List (Option Bytes × Bytes))
    : Type 0 where
  pub nul_block : Bytes
  pub reply_block : Bytes
  pub pipes : w.pipes ≡ true
  pub child : w.child (ok (some argv)) ≡ reads
  pub served : Served 0 reads
  pub short : length (output reads) < 2 ^ 31 - 17
  pub nul_memory : w.nul_block ≡ some nul_block
  pub nul_sized : length nul_block ≡ length (output reads) + 1
  pub reply_memory : w.reply_block ≡ some reply_block
  pub reply_sized : length reply_block ≡ length (output reads) + 17

pub execute_cmd-PutsOut :
    (w : Surroundings) (tr : Context) (cmdline : Bytes) (cmdline_len : ℕ) (s : Server)
    (argv : List Bytes) (reads : List (Option Bytes × Bytes))
    → child_argv w cmdline ≡ ok (some argv)
    → PutsOut w argv reads
    → execute_cmd w tr cmdline cmdline_len s
      ≡ send_data w tr (reply_message 1 (output reads ++ (0 ∷ []))) s
execute_cmd-PutsOut w tr cmdline cmdline_len s argv reads read puts =
    execute_cmd-reply w tr cmdline cmdline_len s reads puts.nul_block puts.reply_block puts.pipes
      (ap w.child read ∙ puts.child) puts.served (omega (arith, puts.short)) puts.nul_memory
      puts.nul_sized puts.reply_memory puts.reply_sized
