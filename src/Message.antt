-- ===== src/Message.antt =====
-- Messages: src/include/icmp.h (the packed headers, little-endian) and src/lib/icmp.c
-- (`icmp_marshal`). The debugging dump of a header is left out, and the two authorization hooks, which
-- do nothing but return 0, are written as that result; `icmp_unmarshal` is in Receive.
pub mod Layout
pub mod Marshal
pub mod Unmarshal
pub mod RoundTrip
pub mod Malformed
pub mod Preserves
pub mod Receive
use inter_container_messagin.Base.{
  ℕ, zero, suc, ◌+◌, ◌*◌, ◌/◌, ◌%◌, ◌^◌, Bool, not, ◌&&◌, ◌||◌, Option, none, some, [], ◌∷◌, ◌++◌,
  Bytes, Run, ok, fault, ◌>>=◌, leb, ◌==◌, if◌then◌else◌, length, take, drop,
}
use inter_container_messagin.Base.Word.{ℤ, pos, negsuc, add_ulong}
use inter_container_messagin.Stream.{
  Stream, memcpy, init, size, head, seek_at, reserve, get, put_at,
}

abbrev pub icmp_version : ℕ
icmp_version = 1

abbrev pub icmp_cc_echo : ℕ
icmp_cc_echo = 0

abbrev pub icmp_cc_commandline : ℕ
icmp_cc_commandline = 1

abbrev pub icmp_max_cc : ℕ
icmp_max_cc = icmp_cc_commandline + 1

abbrev pub icmp_cc_not_specified : ℕ
icmp_cc_not_specified = 0xffff

-- the return values 0 and -1
abbrev pub rc_ok : ℤ
rc_ok = pos 0

abbrev pub rc_error : ℤ
rc_error = negsuc 0

-- The fields of `icmp_message_v1_header_t`; the first three are those of version 0.
pub record Header : Type 0 where
  pub version : ℕ
  pub header_length : ℕ
  pub command_code : ℕ
  pub payload_length : ℕ
  pub authorization_length : ℕ

-- `sizeof` of the packed headers
abbrev pub sizeof_v0_header : ℕ
sizeof_v0_header = 5

abbrev pub sizeof_v1_header : ℕ
sizeof_v1_header = 16

abbrev pub icmp_message_header_length : ℕ → ℕ
icmp_message_header_length ver =
    if ver == 1 then sizeof_v1_header else if ver == 0 then sizeof_v0_header else 0

-- A number in `width` bytes, the lowest first, and back.
unfoldable pub to_le : ℕ → ℕ → Bytes
to_le zero n = []
to_le (suc width) n = (n % 256) ∷ to_le width (n / 256)

unfoldable pub from_le : Bytes → ℕ
from_le [] = 0
from_le (b ∷ bs) = b + 256 * from_le bs

-- The packed bytes of a version 1 header; the three reserved bytes are zero.
unfoldable pub encode : Header → Bytes
encode h =
    to_le 1 h.version
    ++ (to_le 2 h.header_length
        ++ (to_le 2 h.command_code
            ++ (to_le 4 h.payload_length ++ (to_le 4 h.authorization_length ++ (0 ∷ 0 ∷ 0 ∷ [])))))

-- A field of `width` bytes at an offset of the message, a fault when the object ends before it.
unfoldable pub read_field : Bytes → ℕ → ℕ → Run ℕ
read_field msg at width =
    if leb (at + width) (length msg) then ok (from_le (take width (drop at msg))) else fault

-- What `icmp_marshal` returns: -1, or 0 with the results that the caller asked for.
pub data Marshalled : Type 0 where
  refused : Marshalled
  marshalled : Option Bytes → Option ℕ → Marshalled

unfoldable pub v1_header : ℕ → ℕ → Header
v1_header cc payload_len = record {
  version = 1;
  header_length = sizeof_v1_header;
  command_code = cc % 2 ^ 16;
  payload_length = payload_len % 2 ^ 32;
  authorization_length = 0;
}

-- `icmp_marshal` from the first `bs_seek_at` on: the header is written through the pointer that
-- `bs_get` stored.
fill_header : Stream → ℕ → ℕ → Bool → Bool → Run Marshalled
fill_header msg payload_len cc want_msg want_len =
    let (msg, _) = seek_at msg (pos 0) in
    let (msg, _, header) = get msg (icmp_message_header_length icmp_version) in
    elim header [
      | none ↦ fault
      | some at ↦
          memcpy msg.buf at (encode (v1_header cc payload_len)) sizeof_v1_header >>= λ filled.
          let (msg, _) = seek_at (record msg { buf = filled }) (pos 0) in
          ok (
            marshalled (if want_msg then some (head msg) else none)
              (if want_len then some (size msg) else none))
    ]

-- The shared case of the switch for ICMP_CC_ECHO and ICMP_CC_COMMMANDLINE. The results of
-- `bs_reserve` and `bs_put_at` are not looked at.
marshal_payload : Option Bytes → Option Bytes → ℕ → ℕ → Bool → Bool → Run Marshalled
unfolding fill_header
marshal_payload block none payload_len cc want_msg want_len = ok refused
marshal_payload block (some payload) payload_len cc want_msg want_len =
    if payload_len == 0
    then ok refused
    else reserve block (init [] 0) (add_ulong (icmp_message_header_length icmp_version) payload_len)
      >>= λ (msg, _).
          put_at msg (some payload) payload_len (pos (icmp_message_header_length icmp_version))
          >>= λ (msg, _). fill_header msg payload_len cc want_msg want_len

-- `icmp_marshal`; `block` is what `eee_malloc` returns for the message.
unfoldable pub marshal : Option Bytes → Option Bytes → ℕ → ℕ → Bool → Bool → Run Marshalled
unfolding marshal_payload
marshal block payload payload_len cc want_msg want_len =
    if not want_msg && not want_len
    then ok refused
    else if leb icmp_max_cc cc
    then ok refused
    else if cc == icmp_cc_echo || cc == icmp_cc_commandline
    then marshal_payload block payload payload_len cc want_msg want_len
    else ok refused
