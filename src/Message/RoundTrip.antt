-- ===== src/Message/RoundTrip.antt =====
-- What `icmp_marshal` packs, `icmp_unmarshal` hands to the handler (src/lib/icmp.c).
use inter_container_messagin.Base.{
  ℕ, ◌+◌, ◌-◌, ◌^◌, ◌<◌, ◌≡◌, ◌≢◌, refl, ◌∙◌, [], ◌++◌, Bytes, Run, ok, arith, true, ◌||◌, Option,
  some, if◌then◌else◌, length, ◌>>=◌, ◌==◌, length-append, drop-append,
}
use inter_container_messagin.ErrorCode.{Status, success}
use inter_container_messagin.Base.Word.{ℤ}
use inter_container_messagin.Message.{
  encode, v1_header, rc_error, marshalled, marshal, icmp_cc_not_specified,
}
use inter_container_messagin.Message.Receive.{Handler, unmarshal}
use inter_container_messagin.Message.Layout.{Fits, Reads-encode, length-encode}
use inter_container_messagin.Message.Marshal.{marshal_lem}
use inter_container_messagin.Message.Unmarshal.{acceptable, unmarshal-acceptable}

-- `icmp_marshal` with both results wanted, and `icmp_unmarshal` of the message that it made.
unfoldable pub send_and_receive :
    {S : Type 0} → (Status → S → S) → Handler S → Option Bytes → Bytes → ℕ → ℕ → S → Run (S × ℤ)
send_and_receive note handler block payload cc expected s =
    marshal block (some payload) (length payload) cc true true >>= λ m. elim m [
      | marshalled (some msg) (some len) ↦ unmarshal note (some handler) (some msg) len expected s
      | _ ↦ ok (s, rc_error)
    ]

v1_header-Fits : (cc n : ℕ) → Fits (v1_header cc n)
unfolding v1_header
v1_header-Fits cc n = omega arith

module _ {S : Type 0} (note : Status → S → S) (quiet : (s : S) → note success s ≡ s)
    (handler : Handler S) (payload : Bytes) (cc : ℕ) (small : length payload < 2 ^ 32 - 16)
    (known : cc < 2) where
  length_msg : length (encode (v1_header cc (length payload)) ++ payload) ≡ 16 + length payload
  length_msg = omega (
    arith,
    length-append (encode (v1_header cc (length payload))) payload,
    length-encode (v1_header cc (length payload)),
  )

  -- The packed header and a payload of a size that it can hold, as they are received.
  pub received :
      (expected : ℕ) (s : S)
      → unmarshal note
          (some handler)
          (some (encode (v1_header cc (length payload)) ++ payload))
          (length (encode (v1_header cc (length payload)) ++ payload))
          expected
          s
        ≡ (if expected == icmp_cc_not_specified || cc == expected
            then handler cc payload (length payload) s
            else ok (s, rc_error))
  unfolding acceptable v1_header
  received expected s =
      unmarshal-acceptable note quiet handler _ (v1_header cc (length payload))
        (Reads-encode (v1_header cc (length payload)) payload (v1_header-Fits cc (length payload)))
        refl (omega (arith, length_msg)) expected s (omega arith)
      ∙ ground (
        arith,
        length_msg,
        drop-append 16 (encode (v1_header cc (length payload))) payload,
        length-encode (v1_header cc (length payload)),
      )

module _ {S : Type 0} (note : Status → S → S) (quiet : (s : S) → note success s ≡ s)
    (handler : Handler S) (payload block : Bytes) (cc : ℕ) (ne : payload ≢ [])
    (small : length payload < 2 ^ 32 - 16) (l : length block ≡ 16 + length payload)
    (known : cc < 2) where
  -- A payload of at least one byte that leaves room for the header in 32 bits arrives unchanged: the
  -- receiver's handler runs on the same command code, payload and length if the receiver waits for
  -- that code or for any, and is not run, with -1 returned, if it waits for another.
  pub marshal-unmarshal :
      (expected : ℕ) (s : S)
      → send_and_receive note handler (some block) payload cc expected s ≡ (
          if expected == icmp_cc_not_specified || cc == expected
          then handler cc payload (length payload) s
          else ok (s, rc_error))
  unfolding send_and_receive
  marshal-unmarshal expected s =
      rw (marshal_lem payload block cc true true ne (omega arith) l known refl) (
        rw (← length_msg note quiet handler payload cc small known)
          (received note quiet handler payload cc small known expected s))
