-- ===== src/Message/Layout.antt =====
-- The packed header of src/include/icmp.h: each field is read back where it was written.
use inter_container_messagin.Base.{
  ℕ, ◌+◌, ◌/◌, ◌%◌, ◌^◌, ◌<◌, ◌≤◌, ◌≡◌, refl, ap, ◌∙◌, [], ◌∷◌, ◌++◌, Bytes, ok, arith, length,
  take, drop,
}
use inter_container_messagin.Message.{Header, to_le, from_le, encode, read_field, sizeof_v1_header}

-- Every field fits the width that it is packed in.
pub record Fits (h : Header) : Type 0 where
  pub version : h.version < 2 ^ 8
  pub header_length : h.header_length < 2 ^ 16
  pub command_code : h.command_code < 2 ^ 16
  pub payload_length : h.payload_length < 2 ^ 32
  pub authorization_length : h.authorization_length < 2 ^ 32

-- The five fields as they are read from a message.
pub record Reads (msg : Bytes) (h : Header) : Type 0 where
  pub version : read_field msg 0 1 ≡ ok h.version
  pub header_length : read_field msg 1 2 ≡ ok h.header_length
  pub command_code : read_field msg 3 2 ≡ ok h.command_code
  pub payload_length : read_field msg 5 4 ≡ ok h.payload_length
  pub authorization_length : read_field msg 9 4 ≡ ok h.authorization_length

pub length-encode : (h : Header) → length (encode h) ≡ sizeof_v1_header
unfolding encode to_le
length-encode h = refl

from_le_1 : (n : ℕ) → n < 2 ^ 8 → from_le ((n % 256) ∷ []) ≡ n
unfolding from_le
from_le_1 n h = omega arith

from_le_2 : (n : ℕ) → n < 2 ^ 16 → from_le ((n % 256) ∷ (n / 256 % 256) ∷ []) ≡ n
unfolding from_le
from_le_2 n h = omega arith

from_le_4 :
    (n : ℕ)
    → n < 2 ^ 32
    → from_le
        ((n % 256) ∷ (n / 256 % 256) ∷ (n / 256 / 256 % 256) ∷ (n / 256 / 256 / 256 % 256) ∷ [])
      ≡ n
unfolding from_le
from_le_4 n h = omega arith

read_front :
    (a b c d e f g i j k l m n : ℕ) (rest : Bytes) (at width : ℕ)
    → at + width ≤ 13
    → read_field (a ∷ b ∷ c ∷ d ∷ e ∷ f ∷ g ∷ i ∷ j ∷ k ∷ l ∷ m ∷ n ∷ rest) at width
      ≡ ok (
          from_le (take width (drop at (a ∷ b ∷ c ∷ d ∷ e ∷ f ∷ g ∷ i ∷ j ∷ k ∷ l ∷ m ∷ n ∷ rest))))
unfolding read_field
read_front a b c d e f g i j k l m n rest at width h = ground arith

-- What was packed is read back, whatever stands behind the header.
pub Reads-encode : (h : Header) (rest : Bytes) → Fits h → Reads (encode h ++ rest) h
unfolding encode to_le
Reads-encode h rest fits = record {
  version =
      read_front _ _ _ _ _ _ _ _ _ _ _ _ _ _ 0 1 (omega arith)
      ∙ ap ok (from_le_1 h.version fits.version);
  header_length =
      read_front _ _ _ _ _ _ _ _ _ _ _ _ _ _ 1 2 (omega arith)
      ∙ ap ok (from_le_2 h.header_length fits.header_length);
  command_code =
      read_front _ _ _ _ _ _ _ _ _ _ _ _ _ _ 3 2 (omega arith)
      ∙ ap ok (from_le_2 h.command_code fits.command_code);
  payload_length =
      read_front _ _ _ _ _ _ _ _ _ _ _ _ _ _ 5 4 (omega arith)
      ∙ ap ok (from_le_4 h.payload_length fits.payload_length);
  authorization_length =
      read_front _ _ _ _ _ _ _ _ _ _ _ _ _ _ 9 4 (omega arith)
      ∙ ap ok (from_le_4 h.authorization_length fits.authorization_length);
}
