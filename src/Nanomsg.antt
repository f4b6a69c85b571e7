-- ===== src/Nanomsg.antt =====
-- The wrappers of src/lib/nanomsg.c around the nanomsg library. What the calls of a loop do is given
-- by a list, in order; a wrapper that uses up its list is still inside a call, which is `blocked`.
-- `eintr` is the system's EINTR, and `errno` stands for what `errno` holds between the calls.
pub mod Retry
pub mod Polling
use inter_container_messagin.Base.{
  ℕ, ◌-◌, ◌%◌, ◌^◌, Bool, not, ◌&&◌, Option, none, some, List, [], ◌∷◌, Bytes, Run, ok, exited,
  blocked, ◌>>=◌, ◌==◌, if◌then◌else◌, length, take,
}
use inter_container_messagin.Base.Word.{ℤ, pos, is_neg, to_int, to_uint, to_ulong}
use inter_container_messagin.Message.{rc_ok, rc_error}

-- A call of the library: a result that is not negative, or -1 with `errno` set.
pub data Call (A : Type 0) : Type 0 where
  gave : A → Call A
  failed : ℕ → Call A

-- `nanomsg_send_data`: the loop ends with the length or with an error other than EINTR. A call that
-- sends less leaves `errno` as it was. The result is an `int`, compared as `unsigned long`.
unfoldable pub send_data : ℕ → ℕ → ℕ → List (Call ℕ) → Run ℤ
send_data eintr data_len errno [] = blocked
send_data eintr data_len errno (gave len ∷ calls) =
    let again = send_data eintr data_len errno calls in
    if to_ulong (to_int (len % 2 ^ 32)) == data_len
    then ok rc_ok
    else if errno == eintr
    then again
    else ok rc_error
send_data eintr data_len errno (failed e ∷ calls) =
    let again = send_data eintr data_len e calls in
    if data_len == 2 ^ 64 - 1 then ok rc_ok else if e == eintr then again else ok rc_error

-- `nanomsg_send_iov_data`, around `nn_sendmsg`. The errors that are told apart there are only logged.
unfoldable pub iov_data : ℕ → List (Call ℕ) → Run ℤ
iov_data eintr [] = blocked
iov_data eintr (gave len ∷ calls) = ok (pos len)
iov_data eintr (failed e ∷ calls) =
    let again = iov_data eintr calls in if e == eintr then again else ok rc_error

-- `nanomsg_receive_iov_data` is the same loop around `nn_recvmsg`.
abbrev pub receive_iov_data : ℕ → List (Call ℕ) → Run ℤ
receive_iov_data eintr calls = iov_data eintr calls

-- The argument `data`: NULL, a pointer to NULL, or to a buffer of the caller.
pub data Target : Type 0 where
  nowhere : Target
  fresh : Target
  buffer : Bytes → Target

-- What `nanomsg_receive_data` returns, and leaves in `*data` and `*data_len`.
pub record Reception : Type 0 where
  pub rc : ℤ
  pub message : Target
  pub len : Option ℕ

-- `nn_recv` cuts a message to the size of the caller's buffer, but returns its full length.
abbrev pub store : Target → Option ℕ → Bytes → Target
store nowhere len msg = nowhere
store fresh len msg = buffer msg
store (buffer old) none msg = buffer old
store (buffer old) (some size) msg = buffer (take size msg)

-- The length check behind a reception of `got` bytes; `len` points to 0 if any length will do.
taken : Target → Option ℕ → ℕ → Bytes → Reception
taken target none got msg = record { rc = rc_ok; message = store target none msg; len = none }
taken target (some expected) got msg =
    if not (expected == 0) && not (got == expected)
    then record { rc = rc_error; message = store target (some expected) msg; len = some expected }
    else record { rc = rc_ok; message = store target (some expected) msg; len = some got }

-- The result is an `int`: a length that it cannot hold may look like a failure, with the old `errno`.
receive_loop : ℕ → Target → Option ℕ → ℕ → List (Call Bytes) → Run Reception
unfolding taken
receive_loop eintr target len errno [] = blocked
receive_loop eintr target len errno (gave msg ∷ calls) =
    let again = receive_loop eintr target len errno calls in
    let rc = to_int (length msg % 2 ^ 32) in
    if not (is_neg rc)
    then ok (taken target len (to_uint rc) msg)
    else if errno == eintr
    then again
    else ok (record { rc = rc_error; message = target; len = len })
receive_loop eintr target len errno (failed e ∷ calls) =
    let again = receive_loop eintr target len e calls in
    if e == eintr then again else ok (record { rc = rc_error; message = target; len = len })

unfoldable pub receive_data : ℕ → Target → Option ℕ → ℕ → List (Call Bytes) → Run Reception
unfolding receive_loop
receive_data eintr (buffer old) none errno calls =
    ok (record { rc = rc_error; message = buffer old; len = none })
receive_data eintr target len errno calls = receive_loop eintr target len errno calls

-- `nanomsg_pollin`: the first socket whose events hold NN_POLLIN. The poll does not wait, and that
-- no socket is ready ends the process. `nn_poll` gives the events of the sockets in order.
unfoldable pub first_ready : List ℕ → List Bool → Run ℤ
first_ready [] events = exited
first_ready (sock ∷ socks) [] = exited
first_ready (sock ∷ socks) (event ∷ events) =
    let later = first_ready socks events in if event then ok (pos sock) else later

poll_loop : ℕ → List ℕ → List (Call (List Bool)) → Run ℤ
poll_loop eintr socks [] = blocked
poll_loop eintr socks (gave events ∷ calls) = first_ready socks events
poll_loop eintr socks (failed e ∷ calls) =
    let again = poll_loop eintr socks calls in if e == eintr then again else ok rc_error

-- An empty list stands for a NULL array as well.
unfoldable pub pollin : ℕ → List ℕ → List (Call (List Bool)) → Run ℤ
unfolding poll_loop
pollin eintr [] calls = ok rc_error
pollin eintr (sock ∷ socks) calls = poll_loop eintr (sock ∷ socks) calls

-- NN_REQ and NN_REP
pub data Protocol : Type 0 where
  nn_req : Protocol
  nn_rep : Protocol

-- The library under the wrappers that set a socket up and close it: `close` is the first try and
-- `close_again` the second.
pub record Library : Type 0 where
  pub eintr : ℕ
  pub socket : Protocol → Call ℕ
  pub set_recv_timeout : ℕ → ℕ → Call (Unit {0})
  pub set_send_timeout : ℕ → ℕ → Call (Unit {0})
  pub bind : ℕ → Bytes → Call ℕ
  pub connect : ℕ → Bytes → Call ℕ
  pub shutdown : ℕ → ℕ → Call (Unit {0})
  pub close : ℕ → Call (Unit {0})
  pub close_again : ℕ → Call (Unit {0})

-- `assert` on the result of a call
abbrev asserted : {A : Type 0} → Call A → Run A
asserted (gave a) = ok a
asserted (failed e) = exited

module _ (lib : Library) where
  unfoldable pub create_slave_socket : ℕ → Run ℕ
  create_slave_socket recv_timeout = asserted (lib.socket nn_req) >>= λ sock.
      if recv_timeout == 0
      then ok sock
      else (asserted (lib.set_recv_timeout sock recv_timeout) >>= λ u. ok sock)

  unfoldable pub create_master_socket : ℕ → Run ℕ
  create_master_socket send_timeout = asserted (lib.socket nn_rep) >>= λ sock.
      if send_timeout == 0
      then ok sock
      else (asserted (lib.set_send_timeout sock send_timeout) >>= λ u. ok sock)

  -- Closing is tried again once, if it was interrupted.
  unfoldable pub destroy_socket : ℕ → Run (Unit {0})
  destroy_socket sock = elim (lib.close sock) [
    | gave u ↦ ok tt
    | failed e ↦ if e == lib.eintr then asserted (lib.close_again sock) else exited
  ]

  unfoldable pub add_slave_endpoint : ℕ → Bytes → Run ℕ
  add_slave_endpoint sock url = asserted (lib.bind sock url)

  unfoldable pub add_master_endpoint : ℕ → Bytes → Run ℕ
  add_master_endpoint sock url = asserted (lib.connect sock url)

  -- The outcome of `nn_shutdown` is not looked at.
  unfoldable pub delete_endpoint : ℕ → ℕ → Run (Unit {0})
  delete_endpoint sock ep = elim (lib.shutdown sock ep) [ gave u ↦ ok tt | failed e ↦ ok tt ]

-- `nanomsg_alloc_data`, with what `nn_allocmsg` gives
unfoldable pub alloc_data : (ℕ → Call Bytes) → ℕ → Option Bytes
alloc_data allocmsg data_len = elim (allocmsg data_len) [
  | gave block ↦ some block
  | failed e ↦ none
]
