-- ===== src/Message/Receive.antt =====
-- `icmp_unmarshal` of src/lib/icmp.c with `sanity_check_header`. A header that is read beyond the end
-- of the message and a payload pointer that was never set are faults.
use inter_container_messagin.Base.{
  ℕ, zero, ◌+◌, ◌%◌, ◌^◌, Bool, not, ◌&&◌, ◌||◌, Option, none, some, Bytes, Run, ok, fault, ◌>>=◌,
  leb, ltb, ◌==◌, if◌then◌else◌, drop,
}
use inter_container_messagin.Base.Word.{ℤ, pos}
use inter_container_messagin.ErrorCode.{Status, success}
use inter_container_messagin.Stream.{Stream, init, size, get_at, post_get}
use inter_container_messagin.Message.{
  icmp_cc_commandline, icmp_cc_echo, icmp_cc_not_specified, icmp_max_cc, icmp_message_header_length,
  icmp_version, rc_error, rc_ok, read_field, sizeof_v0_header,
}

-- The length fields that `sanity_check_header` reads: those of a version 1 header, else zeroes.
unfoldable pub read_lengths : Bytes → ℕ → ℕ → Run (ℕ × ℕ × ℕ)
read_lengths msg at ver =
    if ver == 1
    then (do
      header_len ← read_field msg (at + 1) 2
      payload_len ← read_field msg (at + 5) 4
      auth_len ← read_field msg (at + 9) 4
      ok (header_len, payload_len, auth_len))
    else ok (0, 0, 0)

-- `header_len + payload_len + auth_len` is computed on `uint32_t`.
check_lengths : Stream → ℕ → ℕ × ℕ × ℕ → ℤ
check_lengths bs ver (header_len, payload_len, auth_len) =
    if ltb header_len (icmp_message_header_length ver)
    then rc_error
    else if ltb (size bs) ((header_len + payload_len + auth_len) % 2 ^ 32)
    then rc_error
    else rc_ok

unexpected : ℕ → ℕ → Bool
unexpected cc command_code = not (cc == icmp_cc_not_specified) && not (command_code == cc)

-- `sanity_check_header` behind `bs_post_get`, at the pointer that it stored
check_header : Stream → ℕ → ℕ → Run ℤ
unfolding read_lengths check_lengths unexpected
check_header bs cc at = do
  ver ← read_field bs.buf at 1
  if ver == 0 then ok rc_error else (do
    command_code ← read_field bs.buf (at + 3) 2
    if leb icmp_max_cc command_code || unexpected cc command_code
        then ok rc_error
        else (do lengths ← read_lengths bs.buf at ver; ok (check_lengths bs ver lengths)))

unfoldable pub sanity_check_header : Stream → ℕ → Run (Stream × Status × ℤ)
unfolding check_header
sanity_check_header bs cc =
    let (bs', status, v0) = post_get bs sizeof_v0_header in
    elim v0 [
      | none ↦ ok (bs', status, rc_error)
      | some at ↦ check_header bs' cc at >>= λ rc. ok (bs', success, rc)
    ]

-- The version to go by: the older of the running one and the received one.
unfoldable pub negotiated : ℕ → ℕ
negotiated version =
    if version == icmp_version
    then icmp_version
    else if ltb version icmp_version
    then version
    else icmp_version

-- A handler gets the command code, the bytes from the payload pointer to the end of the message,
-- and the payload length. `S` is what it works on, `ic_errno` included.
abbrev pub Handler : Type 0 → Type 0
Handler S = ℕ → Bytes → ℕ → S → Run (S × ℤ)

module _ {S : Type 0} (note : Status → S → S) where
  -- The switch at the end of `icmp_unmarshal`. The result of `bs_get_at` is not looked at, so a
  -- refused read leaves `payload` unset.
  unfoldable pub deliver : Handler S → Stream → ℕ → ℕ → ℕ → S → Run (S × ℤ)
  deliver handler bs cc header_length payload_len s =
      if cc == icmp_cc_echo || cc == icmp_cc_commandline
      then (let (bs', status, payload) = get_at bs payload_len (pos header_length) in
          elim payload [
            | none ↦ fault
            | some at ↦ handler cc (drop at bs.buf) payload_len (note status s)
          ])
      else ok (s, rc_ok)

  -- `icmp_unmarshal` behind the sanity check
  unfoldable pub unmarshal_checked : Handler S → Stream → Bytes → ℕ → S → Run (S × ℤ)
  unfolding deliver negotiated
  unmarshal_checked handler bs msg cc s = do
    version ← read_field msg 0 1
    payload_len ← (if negotiated version == 1 then read_field msg 5 4 else ok 0)
    command_code ← read_field msg 3 2
    header_length ← read_field msg 1 2
    deliver handler bs (if cc == icmp_cc_not_specified then command_code else cc) header_length
        payload_len s

  -- `icmp_unmarshal` at a message that is not NULL
  unfoldable pub unmarshal_msg : Handler S → Bytes → ℕ → ℕ → S → Run (S × ℤ)
  unfolding unmarshal_checked sanity_check_header
  unmarshal_msg handler msg msg_len cc s = do
    (bs, status, rc) ← sanity_check_header (init msg msg_len) cc
    let s' = note status s
    elim rc [ pos zero ↦ unmarshal_checked handler bs msg cc s' | other ↦ ok (s', other) ]

  -- `none` is a NULL message or a NULL handler.
  unfoldable pub unmarshal : Option (Handler S) → Option Bytes → ℕ → ℕ → S → Run (S × ℤ)
  unfolding unmarshal_msg
  unmarshal (some handler) (some msg) msg_len cc s =
      if msg_len == 0 then ok (s, rc_error) else unmarshal_msg handler msg msg_len cc s
  unmarshal _ _ msg_len cc s = ok (s, rc_error)
