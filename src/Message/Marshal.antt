-- ===== src/Message/Marshal.antt =====
-- `icmp_marshal` of src/lib/icmp.c: the message that it makes, and what it refuses.
use inter_container_messagin.Base.{
  ℕ, ◌+◌, ◌^◌, ◌<◌, ◌≤◌, ◌≡◌, ◌≢◌, ◌⊎◌, refl, ◌∙◌, [], ◌∷◌, ◌++◌, Bytes, ok, fault, arith, Bool,
  true, false, ◌||◌, Option, none, some, if◌then◌else◌, length, take, length-append, append-nil,
  take-all, drop-all, drop-append, length-take, ◌==◌,
}
use inter_container_messagin.Base.Word.{pos, add_ulong}
use inter_container_messagin.ErrorCode.{success}
use inter_container_messagin.Stream.{init, reserve, put_at, bs_put, bs_get, seek_at}
use inter_container_messagin.Stream.Bounds.{bs_put-written, written, position}
use inter_container_messagin.Message.{
  encode, v1_header, refused, marshalled, fill_header, marshal_payload, marshal,
}
use inter_container_messagin.Message.Layout.{length-encode}

length-ne-zero : (p : Bytes) → p ≢ [] → (length p == 0) ≡ false
length-ne-zero [] ne = absurd (ne refl)
length-ne-zero (x ∷ p) ne = ground arith

add_ulong-small : (n : ℕ) → n < 2 ^ 62 → add_ulong 16 n ≡ 16 + n
add_ulong-small n h = omega arith

reserve_fresh :
    (block : Bytes) (n : ℕ)
    → n < 2 ^ 63
    → 0 < n
    → length block ≡ n
    → reserve (some block) (init [] 0) n
      ≡ ok (record { buf = block; buf_len = n; current = 0 }, success)
unfolding reserve seek_at
reserve_fresh block n small h l = ground arith

module _ (payload block : Bytes) (small : length payload < 2 ^ 62)
    (l : length block ≡ 16 + length payload) where
  put_payload :
      put_at
        (record { buf = block; buf_len = 16 + length payload; current = 0 })
        (some payload)
        (length payload)
        (pos 16)
      ≡ ok (
        record { buf = take 16 block ++ payload; buf_len = 16 + length payload; current = 16 },
        success,
      )
  put_payload =
      bs_put-written (record { buf = block; buf_len = 16 + length payload; current = 0 }) payload
        (length payload) false (pos 16)
        (record { sized = l; within = omega arith; small = omega arith }) (omega arith)
        (omega arith) (omega arith)
      ∙ unfold written position in
        ground (
          arith,
          take-all (length payload) payload,
          drop-all (16 + length payload) block,
          append-nil payload,
        )

  fill_front :
      (front : Bytes) (cc : ℕ) (want_msg want_len : Bool)
      → length front ≡ 16
      → fill_header
          (record { buf = front ++ payload; buf_len = 16 + length payload; current = 16 })
          (length payload)
          cc
          want_msg
          want_len
        ≡ ok (
            marshalled
              (if want_msg then some (encode (v1_header cc (length payload)) ++ payload) else none)
              (if want_len then some (16 + length payload) else none))
  unfolding fill_header seek_at bs_get
  fill_front front cc want_msg want_len h = ground (
    arith,
    length-append front payload,
    length-encode (v1_header cc (length payload)),
    take-all 16 (encode (v1_header cc (length payload))),
    drop-append 16 front payload,
  )

  marshal_payload_lem :
      (cc : ℕ) (want_msg want_len : Bool)
      → payload ≢ []
      → marshal_payload (some block) (some payload) (length payload) cc want_msg want_len
        ≡ ok (
            marshalled
              (if want_msg then some (encode (v1_header cc (length payload)) ++ payload) else none)
              (if want_len then some (16 + length payload) else none))
  unfolding marshal_payload
  marshal_payload_lem cc want_msg want_len ne =
      rw (length-ne-zero payload ne, add_ulong-small (length payload) small)
        (rw (reserve_fresh block (16 + length payload) (omega arith) (omega arith) l) (
          rw put_payload (
            fill_front (take 16 block) cc want_msg want_len (omega (arith, length-take 16 block)))))

-- With memory for the message, a payload of at least one byte and a known command, `icmp_marshal`
-- stores the packed header followed by the payload, and their length, where the caller wants them.
-- The payload length in the header is the low 32 bits of the true one.
pub marshal_lem :
    (payload block : Bytes) (cc : ℕ) (want_msg want_len : Bool)
    → payload ≢ []
    → length payload < 2 ^ 62
    → length block ≡ 16 + length payload
    → cc < 2
    → (want_msg || want_len) ≡ true
    → marshal (some block) (some payload) (length payload) cc want_msg want_len
      ≡ ok (
          marshalled
            (if want_msg then some (encode (v1_header cc (length payload)) ++ payload) else none)
            (if want_len then some (16 + length payload) else none))
unfolding marshal
marshal_lem payload block cc want_msg want_len ne small l c w =
    ground (arith, marshal_payload_lem payload block small l cc want_msg want_len ne)

-- `icmp_marshal` returns -1 when no result is wanted, for a command code that it does not know, and
-- for a missing or empty payload.
pub marshal-refused :
    (block payload : Option Bytes) (payload_len cc : ℕ) (want_msg want_len : Bool)
    → ((want_msg || want_len) ≡ false) ⊎ ((2 ≤ cc) ⊎ ((payload ≡ none) ⊎ (payload_len ≡ 0)))
    → marshal block payload payload_len cc want_msg want_len ≡ ok refused
unfolding marshal marshal_payload
marshal-refused block payload payload_len cc want_msg want_len h = ground arith

-- When `eee_malloc` fails, `icmp_marshal` goes on with the NULL buffer, and writes the header through
-- a pointer that was never set, for every payload and command that it accepts.
pub marshal-null-fault :
    (payload : Bytes) (cc : ℕ) (want_msg want_len : Bool)
    → payload ≢ []
    → length payload < 2 ^ 62
    → cc < 2
    → (want_msg || want_len) ≡ true
    → marshal none (some payload) (length payload) cc want_msg want_len ≡ fault
unfolding marshal marshal_payload fill_header reserve bs_put bs_get seek_at
marshal-null-fault [] cc want_msg want_len ne small c w = absurd (ne refl)
marshal-null-fault (x ∷ payload) cc want_msg want_len ne small c w = ground arith
