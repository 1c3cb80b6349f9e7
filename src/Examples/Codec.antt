-- ===== src/Examples/Codec.antt =====
-- Frames and texts.
use pus_proj.Common.{ℕ, ◌≡◌, ◌↔◌, ◌⊎◌, ap, refl, [], ◌∷◌, ◌++◌, replicate, take, arith}
use pus_proj.Common.Results.{ok, err, format_error, hmac_error, value_error}
use pus_proj.Bytes.{Bytes, IsBytes, to_le, of_le, pack, bytes_eq}
use pus_proj.Bytes.Header.{pack_header, unpack_header}
use pus_proj.Text.{encode_text, encode_char, decode_text}
use pus_proj.Server.Protocol.{MsgType, to_code, of_code, Frame, encode, decode, header_len}
use pus_proj.Server.Protocol.RoundTrip.{IsSendable, signed_part, decode-encode, encode_iff}
use pus_proj.Server.Protocol.Canonical.{encode-decode, decode_forged, decode_errors}
use pus_proj.Server.Wire.{read_frame, read_frame_inv}
use pus_proj.Examples.Samples.{checksum, length-checksum, ping}

abbrev key : Bytes
key = replicate 32 0

abbrev raw : Bytes
raw = 1 ∷ 0x20 ∷ 0 ∷ 0 ∷ 0 ∷ 0 ∷ 0 ∷ 8 ∷ 0 ∷ 0 ∷ 0 ∷ (replicate 8 1 ++ replicate 32 169)

abbrev read_ping : Frame
read_ping = record {
  version = 1;
  msg_type = MsgType.ping;
  flags = 0;
  seq_id = 0;
  payload_len = 8;
  payload = replicate 8 1;
  hmac = replicate 32 169;
}

encode-ping : encode checksum ping key ≡ ok raw
unfolding encode to_code pack_header pack to_le
encode-ping = refl

decode_ping : decode checksum raw key ≡ ok read_ping
unfolding decode unpack_header of_le of_code bytes_eq
decode_ping = refl

decode-encode_example :
    decode checksum raw key ≡ ok (record ping { hmac = checksum key (signed_part ping) })
decode-encode_example = decode-encode checksum length-checksum ping key encode-ping

raw-IsBytes : IsBytes raw
raw-IsBytes = omega arith

encode-decode_example : encode checksum read_ping key ≡ ok raw
encode-decode_example = encode-decode checksum raw key raw-IsBytes decode_ping

encode_iff_example : ((bs : Bytes) × (encode checksum ping key ≡ ok bs)) ↔ IsSendable ping
encode_iff_example = encode_iff checksum ping key

abbrev first : Bytes → ℕ
first [] = 0
first (b ∷ bs) = b

-- The ping with a changed payload.
abbrev forged : Bytes
forged = 1 ∷ 0x20 ∷ 0 ∷ 0 ∷ 0 ∷ 0 ∷ 0 ∷ 8 ∷ 0 ∷ 0 ∷ 0 ∷ (replicate 8 2 ++ replicate 32 169)

forged_header :
    unpack_header (take header_len forged)
    ≡ ok (record { version = 1; msg_type = 0x20; flags = 0; seq_id = 0; payload_len = 8 })
unfolding unpack_header of_le
forged_header = refl

decode_forged_example : decode checksum forged key ≡ err hmac_error
decode_forged_example =
    decode_forged checksum forged key _ forged_header (omega arith) refl
      (λ e. omega (arith, ap first e))

forged_refused : decode checksum forged key ≡ err hmac_error
unfolding decode unpack_header of_le of_code bytes_eq
forged_refused = refl

decode_errors_example : ◌⊎◌ (hmac_error ≡ format_error) (hmac_error ≡ hmac_error)
decode_errors_example = decode_errors checksum forged key forged_refused

read_ping_frame : read_frame checksum (raw ++ (5 ∷ [])) key ≡ ok (read_ping, 5 ∷ [])
unfolding read_frame decode unpack_header of_le of_code bytes_eq
read_ping_frame = refl

read_frame_inv_example :
    (bs : Bytes) × (raw ++ (5 ∷ []) ≡ bs ++ (5 ∷ [])) × (decode checksum bs key ≡ ok read_ping)
read_frame_inv_example = read_frame_inv checksum (raw ++ (5 ∷ [])) key read_ping_frame

-- "ł", and a code point of each longer form
zloty :
    encode_text (0x142 ∷ 0x20AC ∷ 0x1F600 ∷ [])
    ≡ ok (0xC5 ∷ 0x82 ∷ 0xE2 ∷ 0x82 ∷ 0xAC ∷ 0xF0 ∷ 0x9F ∷ 0x98 ∷ 0x80 ∷ [])
unfolding encode_text encode_char
zloty = refl

-- A long form and a surrogate are refused.
long_form : decode_text (0xC0 ∷ 0x80 ∷ []) ≡ err value_error
unfolding decode_text
long_form = refl
