-- ===== src/Examples/Messages.antt =====
-- Messages (src/lib/icmp.c) at concrete inputs.
use inter_container_messagin.Base.{
  ℕ, ◌≡◌, refl, true, some, none, [], ◌∷◌, ◌++◌, Bytes, ok, arith, fault, if◌then◌else◌, replicate,
}
use inter_container_messagin.Base.Word.{pos}
use inter_container_messagin.ErrorCode.{Status}
use inter_container_messagin.Message.{
  Header, marshalled, encode, v1_header, marshal, to_le, rc_error,
}
use inter_container_messagin.Message.Receive.{Handler, unmarshal}
use inter_container_messagin.Message.Layout.{Reads, Reads-encode, Fits}
use inter_container_messagin.Message.Marshal.{marshal_lem, marshal-null-fault}
use inter_container_messagin.Message.Unmarshal.{unmarshal-acceptable, acceptable}
use inter_container_messagin.Message.RoundTrip.{send_and_receive, marshal-unmarshal}
use inter_container_messagin.Message.Malformed.{wrapped_lengths-fault}

-- A receiver that keeps the last payload, and takes no note of `ic_errno`.
abbrev quiet_note : Status → Bytes → Bytes
quiet_note status s = s

abbrev keep : Handler Bytes
keep code payload len s = ok (payload, pos len)

abbrev hi : Bytes
hi = b'h' ∷ b'i' ∷ 0 ∷ []

abbrev block : Bytes
block = replicate 19 170

marshal-unmarshal_example :
    send_and_receive quiet_note keep (some block) hi 1 0xffff [] ≡ ok (hi, pos 3)
marshal-unmarshal_example =
    marshal-unmarshal quiet_note (λ s. refl) keep hi block 1 (λ e. cc) (omega arith) refl
      (omega arith) 0xffff []

marshal_lem_example :
    marshal (some block) (some hi) 3 0 true true
    ≡ ok (marshalled (some (encode (v1_header 0 3) ++ hi)) (some 19))
marshal_lem_example =
    marshal_lem hi block 0 true true (λ e. cc) (omega arith) refl (omega arith) refl

marshal-null-fault_example : marshal none (some hi) 3 1 true true ≡ fault
marshal-null-fault_example =
    marshal-null-fault hi 1 true true (λ e. cc) (omega arith) (omega arith) refl

-- A message with a payload of two bytes of which one is missing, by its length fields.
abbrev pub bad_header : ℕ → ℕ → Header
bad_header version auth = record {
  version = version;
  header_length = 16;
  command_code = 1;
  payload_length = 2;
  authorization_length = auth;
}

abbrev pub bad_msg : ℕ → ℕ → Bytes
bad_msg version auth = encode (bad_header version auth) ++ (1 ∷ [])

pub bad_msg-Reads :
    (version auth : ℕ)
    → Fits (bad_header version auth)
    → Reads (bad_msg version auth) (bad_header version auth)
bad_msg-Reads version auth fits = Reads-encode (bad_header version auth) (1 ∷ []) fits

unmarshal-acceptable_example :
    unmarshal quiet_note (some keep) (some (bad_msg 1 0)) 17 1 []
    ≡ (if acceptable (bad_header 1 0) 17 1 then ok (1 ∷ [], pos 2) else ok ([], rc_error))
unfolding encode to_le
unmarshal-acceptable_example =
    unmarshal-acceptable quiet_note (λ s. refl) keep (bad_msg 1 0) (bad_header 1 0)
      (bad_msg-Reads 1 0 (omega arith)) refl (omega arith) 1 [] (omega arith)

wrapped_lengths-fault_example :
    unmarshal quiet_note (some keep) (some (bad_msg 1 0xffff_ffff)) 17 1 [] ≡ fault
unfolding encode to_le
wrapped_lengths-fault_example =
    wrapped_lengths-fault quiet_note keep (bad_msg 1 0xffff_ffff) (bad_header 1 0xffff_ffff) 1 []
      (bad_msg-Reads 1 0xffff_ffff (omega arith)) (omega arith)
      (record { known = omega arith; wanted = refl }) (omega arith) (omega arith) (omega arith) refl
      (omega arith) (omega arith)
