-- ===== src/Message/Unmarshal.antt =====
-- `icmp_unmarshal` of src/lib/icmp.c against a description of it in unbounded arithmetic.
use inter_container_messagin.Base.{
  ℕ, ◌+◌, ◌^◌, ◌<◌, ◌≤◌, ◌≡◌, inl, inr, Bytes, ok, arith, leb, ltb, Bool, true, ◌||◌, ◌&&◌, some,
  if◌then◌else◌, length, drop, ◌==◌, Bool-cases,
}
use inter_container_messagin.ErrorCode.{Status, success}
use inter_container_messagin.Stream.{init, bs_get}
use inter_container_messagin.Message.{
  Header, sizeof_v1_header, rc_ok, rc_error, read_field, icmp_cc_not_specified,
}
use inter_container_messagin.Message.Receive.{
  sanity_check_header, Handler, unmarshal_checked, unmarshal,
}
use inter_container_messagin.Message.Layout.{Reads}

-- The three parts that a header announces lie in a message of this length, and the command is one
-- that the receiver waits for.
unfoldable pub acceptable : Header → ℕ → ℕ → Bool
acceptable h len expected =
    leb sizeof_v1_header h.header_length
    && leb (h.header_length + h.payload_length + h.authorization_length) len
    && ltb h.command_code 2
    && (expected == icmp_cc_not_specified || h.command_code == expected)

pub read_field-le :
    (msg : Bytes) (at width : ℕ) {n : ℕ} → read_field msg at width ≡ ok n → at + width ≤ length msg
unfolding read_field
read_field-le msg at width h = ground arith

module _ (msg : Bytes) (h : Header) (reads : Reads msg h) (one : h.version ≡ 1)
    (small : length msg < 2 ^ 63) where
  sanity-acceptable :
      (expected : ℕ)
      → h.header_length + h.payload_length + h.authorization_length < 2 ^ 32
      → sanity_check_header (init msg (length msg)) expected
        ≡ ok (
          record { buf = msg; buf_len = length msg; current = 5 },
          success,
          if acceptable h (length msg) expected then rc_ok else rc_error,
        )
  unfolding sanity_check_header bs_get acceptable
  sanity-acceptable expected nowrap = ground (
    arith,
    read_field-le msg 9 4 reads.authorization_length,
    reads.version,
    reads.header_length,
    reads.command_code,
    reads.payload_length,
    reads.authorization_length,
  )

module _ {S : Type 0} (note : Status → S → S) (quiet : (s : S) → note success s ≡ s)
    (handler : Handler S) (msg : Bytes) (h : Header) (reads : Reads msg h) (one : h.version ≡ 1)
    (small : length msg < 2 ^ 63) where
  checked-delivers :
      (expected : ℕ) (s : S)
      → acceptable h (length msg) expected ≡ true
      → unmarshal_checked note handler
          (record { buf = msg; buf_len = length msg; current = 5 })
          msg
          expected
          s
        ≡ handler h.command_code (drop h.header_length msg) h.payload_length s
  unfolding unmarshal_checked acceptable bs_get
  checked-delivers expected s a =
      ground (
        arith,
        reads.version,
        reads.header_length,
        reads.command_code,
        reads.payload_length,
        quiet s,
      )

  -- A version 1 message whose three lengths do not add up beyond 32 bits is handed to the handler
  -- exactly when the parts that its header announces lie in the message and its command is expected:
  -- then the handler runs once, on the command code, the bytes behind the header and the payload
  -- length. Otherwise -1 is returned and nothing changes. `Reads` says that the message is long
  -- enough to hold the five header fields, and `note` stands for the effect on `ic_errno`.
  pub unmarshal-acceptable :
      (expected : ℕ) (s : S)
      → h.header_length + h.payload_length + h.authorization_length < 2 ^ 32
      → unmarshal note (some handler) (some msg) (length msg) expected s ≡ (
          if acceptable h (length msg) expected
          then handler h.command_code (drop h.header_length msg) h.payload_length s
          else ok (s, rc_error))
  unfolding unmarshal
  unmarshal-acceptable expected s nowrap =
      rw (sanity-acceptable msg h reads one small expected nowrap)
        (elim (Bool-cases (acceptable h (length msg) expected)) [
          | inl fits ↦ ground (
            arith,
            quiet s,
            checked-delivers expected s,
            read_field-le msg 9 4 reads.authorization_length,
          )
          | inr misfits ↦ ground (arith, quiet s, read_field-le msg 9 4 reads.authorization_length)
        ])
