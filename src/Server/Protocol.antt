-- ===== src/Server/Protocol.antt =====
-- server-py/protocol.py: message types, flags, frames and the binary codec of frames.
-- HMAC-SHA256 is a parameter, `hmac key message`.
pub mod RoundTrip
pub mod Canonical
use pus_proj.Common.{
  ℕ, ◌+◌, ◌≡◌, refl, Bool, true, false, not, Option, none, some, List, ◌++◌, arith, length, take,
  drop, slice, ltb, ◌==◌, if◌then◌else◌, bit_and,
}
use pus_proj.Common.Results.{
  Result, ok, err, Error, format_error, hmac_error, struct_error, ◌>>=◌, ◌>>◌, raise_if,
}
use pus_proj.Bytes.{Bytes, bytes_eq}
use pus_proj.Bytes.Header.{Header, pack_header, unpack_header}

pub data MsgType : Type 0 where
  hello challenge auth auth_ok auth_fail : MsgType
  vault_get vault_put vault_sync vault_data vault_ack : MsgType
  ping pong bye error : MsgType

-- int(msg_type)
unfoldable pub to_code : MsgType → ℕ
to_code hello = 0x01
to_code challenge = 0x02
to_code auth = 0x03
to_code auth_ok = 0x04
to_code auth_fail = 0x05
to_code vault_get = 0x10
to_code vault_put = 0x11
to_code vault_sync = 0x12
to_code vault_data = 0x13
to_code vault_ack = 0x14
to_code ping = 0x20
to_code pong = 0x21
to_code bye = 0xF0
to_code error = 0xFF

-- MsgType(raw); `none` is the ValueError of a number that no member has.
unfoldable pub of_code : ℕ → Option MsgType
of_code n =
    if n == 0x01
    then some hello
    else if n == 0x02
    then some challenge
    else if n == 0x03
    then some auth
    else if n == 0x04
    then some auth_ok
    else if n == 0x05
    then some auth_fail
    else if n == 0x10
    then some vault_get
    else if n == 0x11
    then some vault_put
    else if n == 0x12
    then some vault_sync
    else if n == 0x13
    then some vault_data
    else if n == 0x14
    then some vault_ack
    else if n == 0x20
    then some ping
    else if n == 0x21
    then some pong
    else if n == 0xF0
    then some bye
    else if n == 0xFF
    then some error
    else none

-- SVPFlags, an IntFlag: any combination of the bits is a value of it.
abbrev pub no_flags : ℕ
no_flags = 0x00

abbrev pub compressed : ℕ
compressed = 0x01

abbrev pub encrypted : ℕ
encrypted = 0x02

abbrev pub fragmented : ℕ
fragmented = 0x04

abbrev pub last_frag : ℕ
last_frag = 0x08

pub record Frame : Type 0 where
  pub version : ℕ
  pub msg_type : MsgType
  pub flags : ℕ
  pub seq_id : ℕ
  pub payload_len : ℕ
  pub payload : Bytes
  pub hmac : Bytes

abbrev pub header_len : ℕ
header_len = 11

abbrev pub hmac_len : ℕ
hmac_len = 32

abbrev pub max_payload_len : ℕ
max_payload_len = 1_048_576

abbrev pub reserved_flag_mask : ℕ
reserved_flag_mask = 0xF0

-- bool(flags & mask)
abbrev pub has_flag : ℕ → ℕ → Bool
has_flag flags mask = not (bit_and flags mask == 0)

-- The arguments of HEADER_STRUCT.pack in `encode`.
unfoldable pub header_of : Frame → Header
header_of f = record {
  version = f.version;
  msg_type = to_code f.msg_type;
  flags = f.flags;
  seq_id = f.seq_id;
  payload_len = f.payload_len;
}

-- The end of SVPCodec.decode, behind the reserved bits: an unknown type is an SVPFormatError.
unfoldable pub typed_frame : Header → Bytes → Bytes → Option MsgType → Result Frame
typed_frame h payload frame_hmac none = err format_error
typed_frame h payload frame_hmac (some t) = ok (record {
  version = h.version;
  msg_type = t;
  flags = h.flags;
  seq_id = h.seq_id;
  payload_len = h.payload_len;
  payload = payload;
  hmac = frame_hmac;
})

-- `except struct.error` around the unpacking of a header
unfoldable pub header_or_format_error : Result Header → Result Header
header_or_format_error (ok h) = ok h
header_or_format_error (err struct_error) = err format_error
header_or_format_error (err e) = err e

module _ (hmac : Bytes → Bytes → Bytes) where
  -- SVPCodec.encode
  unfoldable pub encode : Frame → Bytes → Result Bytes
  unfolding header_of
  encode f mac_key = do
    raise_if (not (length f.payload == f.payload_len)) format_error
    raise_if (ltb max_payload_len f.payload_len) format_error
    raise_if (has_flag f.flags reserved_flag_mask) format_error
    header ← pack_header (header_of f)
    let signed_part = header ++ f.payload
    ok (signed_part ++ hmac mac_key signed_part)

  -- SVPCodec.decode
  unfoldable pub decode : Bytes → Bytes → Result Frame
  unfolding typed_frame header_or_format_error
  decode raw mac_key = do
    raise_if (ltb (length raw) (header_len + hmac_len)) format_error
    let header = take header_len raw
    h ← header_or_format_error (unpack_header header)
    raise_if (ltb max_payload_len h.payload_len) format_error
    raise_if (not (length raw == header_len + h.payload_len + hmac_len)) format_error
    let payload = slice header_len (header_len + h.payload_len) raw
    let frame_hmac = drop (header_len + h.payload_len) raw
    let calculated_hmac = hmac mac_key (header ++ payload)
    raise_if (not (bytes_eq frame_hmac calculated_hmac)) hmac_error
    raise_if (has_flag h.flags reserved_flag_mask) format_error
    typed_frame h payload frame_hmac (of_code h.msg_type)
