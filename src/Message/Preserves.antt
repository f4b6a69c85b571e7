-- ===== src/Message/Preserves.antt =====
-- `icmp_unmarshal` of src/lib/icmp.c changes the state only through `ic_errno` and the handler.
use inter_container_messagin.Base.{
  ℕ, zero, suc, Option, none, some, Bytes, Run, ok, fault, Holds, Holds-behind, ◌==◌, ◌||◌,
  if◌then◌else◌, drop, Bool-cases, inl, inr,
}
use inter_container_messagin.Base.Word.{ℤ, pos, negsuc}
use inter_container_messagin.ErrorCode.{Status}
use inter_container_messagin.Stream.{Stream, init, get_at}
use inter_container_messagin.Message.{
  read_field, icmp_cc_not_specified, icmp_cc_echo, icmp_cc_commandline,
}
use inter_container_messagin.Message.Receive.{
  Handler, negotiated, deliver, unmarshal_checked, unmarshal_msg, unmarshal, sanity_check_header,
}

module _ {S : Type 0} (note : Status → S → S) (P Q : S → Type 0) (P_Q : (s : S) → P s → Q s)
    (note_keeps : (status : Status) (s : S) → P s → P (note status s)) (handler : Handler S)
    (handler_keeps : (cc : ℕ) (payload : Bytes) (len : ℕ) (s : S)
      → P s
      → Holds (λ r. Q r.0) (handler cc payload len s)) where
  Kept : Run (S × ℤ) → Type 0
  Kept r = Holds (λ x. Q x.0) r

  handed :
      (cc len : ℕ) (bs : Stream) (s : S) (read : Stream × Status × Option ℕ)
      → P s
      → Holds
          (λ x. Q x.0)
          (elim read.2 [ none ↦ fault | some at ↦ handler cc (drop at bs.buf) len (note read.1 s) ])
  handed cc len bs s (bs', status, none) p = tt
  handed cc len bs s (bs', status, some at) p =
      handler_keeps cc (drop at bs.buf) len (note status s) (note_keeps status s p)

  deliver-Kept :
      (bs : Stream) (cc header_length len : ℕ) (s : S)
      → P s
      → Kept (deliver note handler bs cc header_length len s)
  unfolding deliver Kept
  deliver-Kept bs cc header_length len s p =
      elim (Bool-cases (cc == icmp_cc_echo || cc == icmp_cc_commandline)) [
        | inl known ↦ rw known (handed cc len bs s (get_at bs len (pos header_length)) p)
        | inr other ↦ rw other (P_Q s p)
      ]

  checked-Kept :
      (bs : Stream) (msg : Bytes) (cc : ℕ) (s : S)
      → P s
      → Kept (unmarshal_checked note handler bs msg cc s)
  unfolding unmarshal_checked Kept
  checked-Kept bs msg cc s p = Holds-behind _ (read_field msg 0 1) _ (λ version.
      Holds-behind _ (if negotiated version == 1 then read_field msg 5 4 else ok 0) _ (λ len.
        Holds-behind _ (read_field msg 3 2) _ (λ command.
          Holds-behind _ (read_field msg 1 2) _ (λ header_length.
            deliver-Kept bs (if cc == icmp_cc_not_specified then command else cc) header_length len
              s p))))

  behind_check :
      (msg : Bytes) (cc : ℕ) (s : S) (found : Stream × Status × ℤ)
      → P s
      → Kept (elim found.2 [
        | pos zero ↦ unmarshal_checked note handler found.0 msg cc (note found.1 s)
        | other ↦ ok (note found.1 s, other)
      ])
  unfolding Kept
  behind_check msg cc s (bs, status, pos zero) p =
      checked-Kept bs msg cc (note status s) (note_keeps status s p)
  behind_check msg cc s (bs, status, pos (suc n)) p = P_Q (note status s) (note_keeps status s p)
  behind_check msg cc s (bs, status, negsuc n) p = P_Q (note status s) (note_keeps status s p)

  unmarshal_msg-Kept :
      (msg : Bytes) (len cc : ℕ) (s : S) → P s → Kept (unmarshal_msg note handler msg len cc s)
  unfolding unmarshal_msg Kept
  unmarshal_msg-Kept msg len cc s p =
      Holds-behind _ (sanity_check_header (init msg len) cc) _
        (λ found. behind_check msg cc s found p)

  -- Whatever a message is, what the handler makes of a state with the one property holds of the state
  -- behind `icmp_unmarshal`, if it follows from that property, and the changes of `ic_errno` keep it.
  pub unmarshal-Holds :
      (msg : Bytes) (len cc : ℕ) (s : S)
      → P s
      → Holds (λ r. Q r.0) (unmarshal note (some handler) (some msg) len cc s)
  unfolding unmarshal Kept
  unmarshal-Holds msg len cc s p = elim (Bool-cases (len == 0)) [
    | inl empty ↦ rw empty (P_Q s p)
    | inr some_bytes ↦ rw some_bytes (unmarshal_msg-Kept msg len cc s p)
  ]
