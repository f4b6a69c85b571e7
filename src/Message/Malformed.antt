-- ===== src/Message/Malformed.antt =====
-- Messages that src/lib/icmp.c accepts although their headers do not describe them.
use inter_container_messagin.Base.{
  ℕ, ◌+◌, ◌%◌, ◌^◌, ◌<◌, ◌≤◌, ◌≡◌, Bytes, ok, fault, arith, true, ◌||◌, some, if◌then◌else◌, length,
  ◌==◌,
}
use inter_container_messagin.ErrorCode.{Status, success, failure, bs_out_of_range}
use inter_container_messagin.Stream.{bs_get}
use inter_container_messagin.Message.{Header, rc_error, read_field, icmp_cc_not_specified}
use inter_container_messagin.Message.Receive.{read_lengths, Handler, unmarshal, unmarshal_checked}
use inter_container_messagin.Message.Layout.{Reads}
use inter_container_messagin.Message.Unmarshal.{read_field-le}

-- The header names a known command that the receiver waits for.
pub record IsExpected (h : Header) (expected : ℕ) : Type 0 where
  pub known : h.command_code < 2
  pub wanted : (expected == icmp_cc_not_specified || h.command_code == expected) ≡ true

read_lengths-short : (msg : Bytes) → length msg < 13 → read_lengths msg 0 1 ≡ fault
unfolding read_lengths read_field
read_lengths-short msg h = ground arith

module _ {S : Type 0} (note : Status → S → S) (handler : Handler S) (msg : Bytes) (h : Header)
    (expected : ℕ) (s : S) (reads : Reads msg h) (small : length msg < 2 ^ 63)
    (known : IsExpected h expected) (short : length msg < h.header_length + h.payload_length)
    (header16 : h.header_length < 2 ^ 16) (payload32 : h.payload_length < 2 ^ 32) where
  checked-fault :
      (t : S)
      → (1 ≤ h.version)
      → unmarshal_checked note handler
          (record { buf = msg; buf_len = length msg; current = 5 })
          msg
          expected
          t
        ≡ fault
  unfolding unmarshal_checked bs_get
  checked-fault t v = ground (
    arith, reads.version, reads.header_length, reads.command_code, reads.payload_length,
    known.known, known.wanted,
  )

  -- A version 1 message for a known and expected command, with a header of at least 16 bytes, whose
  -- length fields add up, modulo 2 ^ 32, to no more than its size, passes the sanity check even
  -- though header and payload reach beyond its end; the payload pointer is then used without having
  -- been set.
  pub wrapped_lengths-fault :
      h.version ≡ 1
      → 16 ≤ h.header_length
      → (h.header_length + h.payload_length + h.authorization_length) % 2 ^ 32 ≤ length msg
      → unmarshal note (some handler) (some msg) (length msg) expected s ≡ fault
  unfolding unmarshal bs_get
  wrapped_lengths-fault one long wraps = ground (
    arith,
    read_field-le msg 9 4 reads.authorization_length,
    reads.version,
    reads.header_length,
    reads.command_code,
    reads.payload_length,
    reads.authorization_length,
    known.known,
    known.wanted,
    checked-fault (note success s),
  )

  -- The lengths of a message of a version above 1 are not checked at all: if header and payload
  -- reach beyond its end, the payload pointer is used without having been set.
  pub newer_version-fault :
      2 ≤ h.version → unmarshal note (some handler) (some msg) (length msg) expected s ≡ fault
  unfolding unmarshal bs_get
  newer_version-fault newer = ground (
    arith,
    read_field-le msg 9 4 reads.authorization_length,
    reads.version,
    reads.command_code,
    known.known,
    known.wanted,
    checked-fault (note success s),
  )

-- A version 1 message with a known, expected command that has the five bytes of the version 0 header
-- but ends before its length fields is read beyond its end.
pub short_message-fault :
    {S : Type 0} (note : Status → S → S) (handler : Handler S) (msg : Bytes) (cc expected : ℕ)
    (s : S)
    → 5 ≤ length msg
    → length msg < 13
    → read_field msg 0 1 ≡ ok 1
    → read_field msg 3 2 ≡ ok cc
    → cc < 2
    → (expected == icmp_cc_not_specified || cc == expected) ≡ true
    → unmarshal note (some handler) (some msg) (length msg) expected s ≡ fault
unfolding unmarshal bs_get
short_message-fault note handler msg code expected s long short v c known wanted =
    ground (arith, read_lengths-short msg short)

-- A message of fewer than five bytes, or none, is refused without a call of the handler.
pub tiny_message-refused :
    {S : Type 0} (note : Status → S → S) (handler : Handler S) (msg : Bytes) (expected : ℕ) (s : S)
    → length msg < 5
    → unmarshal note (some handler) (some msg) (length msg) expected s
      ≡ ok (if length msg == 0 then s else note (failure bs_out_of_range) s, rc_error)
unfolding unmarshal bs_get
tiny_message-refused note handler msg expected s short = ground arith
