-- ===== src/Client/Framing.antt =====
-- The frames of client-py/framing.py, with the constants of client-py/protocol.py, and what the
-- server makes of them.
use pus_proj.Common.{
  ℕ, ◌≡◌, Bool, false, [], take, drop, if◌then◌else◌, Option, none, some, ◌++◌, length, replicate,
  ltb, ◌==◌, not, arith,
}
use pus_proj.Common.Results.{Result, ok, err, frame_error, tls_error, ◌>>=◌, ◌>>◌, raise_if}
use pus_proj.Bytes.{Bytes, bytes_eq}
use pus_proj.Bytes.Header.{Header, pack_header, unpack_header}
use pus_proj.Server.Protocol.{
  MsgType, Frame, to_code, of_code, encode, has_flag, header_of, reserved_flag_mask, hmac_len,
}
use pus_proj.Server.Wire.{read_frame, read_frame-append}
use pus_proj.Server.Protocol.RoundTrip.{to_code-of_code, signed_part}

-- HMAC_LEN, MAX_PAYLOAD, HEADER_LEN and SVP_VERSION
abbrev pub mac_len : ℕ
mac_len = 32

abbrev pub max_payload : ℕ
max_payload = 1_048_576

abbrev pub head_len : ℕ
head_len = 11

abbrev pub svp_version : ℕ
svp_version = 1

pub record ClientFrame : Type 0 where
  pub version : ℕ
  pub type : ℕ
  pub flags : ℕ
  pub seq : ℕ
  pub payload : Bytes

module _ (hmac : Bytes → Bytes → Bytes) where
  -- The trailer: zeros without a key.
  unfoldable pub trailer : Option Bytes → Bytes → Bytes
  trailer none body = replicate mac_len 0
  trailer (some k_mac) body = hmac k_mac body

  -- serialize
  unfoldable pub serialize : ClientFrame → Option Bytes → Result Bytes
  unfolding trailer
  serialize frame k_mac = do
    raise_if (ltb max_payload (length frame.payload)) frame_error
    hdr ← pack_header (record {
      version = frame.version;
      msg_type = frame.type;
      flags = frame.flags;
      seq_id = frame.seq;
      payload_len = length frame.payload;
    })
    let body = hdr ++ frame.payload
    ok (body ++ trailer k_mac body)

-- parse_header
unfoldable pub parse_header : Bytes → Result Header
parse_header hdr = unpack_header hdr

-- TlsConnection._read_exact over what the peer sends until it closes.
unfoldable pub read_exact : ℕ → Bytes → Result (Bytes × Bytes)
read_exact n stream =
    if ltb (length stream) n then err tls_error else ok (take n stream, drop n stream)

module _ (hmac : Bytes → Bytes → Bytes) where
  -- The check of the trailer: none without a key.
  unfoldable pub wrong_mac : Option Bytes → Bytes → Bytes → Bool
  wrong_mac none body mac = false
  wrong_mac (some k_mac) body mac = not (bytes_eq (hmac k_mac body) mac)

  -- TlsConnection.recv_frame
  unfoldable pub recv_frame : Option Bytes → Bytes → Result (ClientFrame × Bytes)
  unfolding read_exact wrong_mac parse_header
  recv_frame k_mac stream = do
    (hdr, behind) ← read_exact head_len stream
    h ← parse_header hdr
    raise_if (not (h.version == svp_version)) frame_error
    raise_if (ltb max_payload h.payload_len) frame_error
    (payload, last) ← read_exact h.payload_len behind
    (mac, rest) ← read_exact mac_len last
    raise_if (wrong_mac k_mac (hdr ++ payload) mac) frame_error
    ok (
      record {
        version = h.version;
        type = h.msg_type;
        flags = h.flags;
        seq = h.seq_id;
        payload = payload;
      },
      rest,
    )

-- The frame that the server sees.
abbrev pub as_server : MsgType → ClientFrame → Frame
as_server t f = record {
  version = f.version;
  msg_type = t;
  flags = f.flags;
  seq_id = f.seq;
  payload_len = length f.payload;
  payload = f.payload;
  hmac = [];
}

module _ (hmac : Bytes → Bytes → Bytes) where
  -- With a key, the client serializes a frame to the bytes that the server's codec makes of it.
  pub serialize-encode :
      (f : ClientFrame) (key : Bytes) {t : MsgType} {raw : Bytes}
      → of_code f.type ≡ some t
      → has_flag f.flags reserved_flag_mask ≡ false
      → serialize hmac f (some key) ≡ ok raw
      → encode hmac (as_server t f) key ≡ ok raw
  unfolding serialize encode header_of
  serialize-encode f key {t} {raw} known plain h =
      let code : to_code t ≡ f.type = to_code-of_code f.type known in
      rw code (ground (arith, plain))

  -- The converse, for a frame of a type that the server knows.
  pub encode-serialize :
      (f : ClientFrame) (key : Bytes) {t : MsgType} {raw : Bytes}
      → of_code f.type ≡ some t
      → encode hmac (as_server t f) key ≡ ok raw
      → serialize hmac f (some key) ≡ ok raw
  unfolding serialize encode header_of
  encode-serialize f key {t} {raw} known h =
      let code : to_code t ≡ f.type = to_code-of_code f.type known in ground (arith, code, h)

  module _ (hmac_length : (k m : Bytes) → length (hmac k m) ≡ hmac_len) where
    -- The server reads a frame that the client has serialized with the same key, when its type is
    -- one of the server's and no reserved flag is set, from the front of the stream and nothing
    -- behind it.
    pub read_frame-serialize :
        (f : ClientFrame) (key rest : Bytes) {t : MsgType} {raw : Bytes}
        → of_code f.type ≡ some t
        → has_flag f.flags reserved_flag_mask ≡ false
        → serialize hmac f (some key) ≡ ok raw
        → read_frame hmac (raw ++ rest) key
          ≡ ok (record (as_server t f) { hmac = hmac key (signed_part (as_server t f)) }, rest)
    read_frame-serialize f key rest {t} known plain h =
        read_frame-append hmac hmac_length (as_server t f) key rest
          (serialize-encode f key known plain h)
