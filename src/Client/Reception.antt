-- ===== src/Client/Reception.antt =====
-- What TlsConnection.recv_frame of client-py/transport.py makes of the server's frames.
use pus_proj.Common.{
  ◌≡◌, refl, ◌++◌, some, length, append_assoc, length-append, take-append, drop-append, arith,
}
use pus_proj.Common.Results.{ok}
use pus_proj.Bytes.{Bytes, bytes_eq_refl}
use pus_proj.Bytes.Header.{header_bytes, length-header_bytes, unpack_header-header_bytes}
use pus_proj.Server.Protocol.{Frame, to_code, encode, header_of, hmac_len}
use pus_proj.Server.Protocol.RoundTrip.{signed_part, encode_inv, Fits-header_of}
use pus_proj.Client.Framing.{ClientFrame, recv_frame, mac_len, head_len}

-- The frame that the client sees.
abbrev pub as_client : Frame → ClientFrame
as_client f = record {
  version = f.version;
  type = to_code f.msg_type;
  flags = f.flags;
  seq = f.seq_id;
  payload = f.payload;
}

module _ (hmac : Bytes → Bytes → Bytes)
    (hmac_length : (k m : Bytes) → length (hmac k m) ≡ hmac_len) where
  -- The client reads a frame of version 1 that the server has encoded with the same key from the
  -- front of the stream, and nothing behind it.
  pub recv_frame-encode :
      (f : Frame) (key rest : Bytes) {raw : Bytes}
      → encode hmac f key ≡ ok raw
      → f.version ≡ 1
      → recv_frame hmac (some key) (raw ++ rest) ≡ ok (as_client f, rest)
  unfolding recv_frame
  recv_frame-encode f key rest {raw} e one =
      let (s, r) = encode_inv hmac f key e in
      let h = header_of f in
      let hb = header_bytes h in
      let m = hmac key (signed_part f) in
      let whole : raw ++ rest ≡ hb ++ (f.payload ++ (m ++ rest)) =
        unfold signed_part in rw (r, append_assoc, append_assoc) refl in
      let signed : hb ++ f.payload ≡ signed_part f = unfold signed_part in refl in
      let hlen = length-header_bytes h in
      rw whole (
        unfold header_of in
        ground (
          arith,
          s,
          one,
          signed,
          hlen,
          hmac_length key (signed_part f),
          bytes_eq_refl m,
          unpack_header-header_bytes h (Fits-header_of f s),
          take-append head_len hb (f.payload ++ (m ++ rest)) hlen,
          drop-append head_len hb (f.payload ++ (m ++ rest)) hlen,
          take-append f.payload_len f.payload (m ++ rest) s.measured,
          drop-append f.payload_len f.payload (m ++ rest) s.measured,
          take-append mac_len m rest (hmac_length key (signed_part f)),
          drop-append mac_len m rest (hmac_length key (signed_part f)),
          length-append hb (f.payload ++ (m ++ rest)),
          length-append f.payload (m ++ rest),
          length-append m rest,
        ))
