-- ===== src/Server/Wire.antt =====
-- `_read_frame` of server-py/server.py over the bytes that the peer sends until it closes.
use pus_proj.Common.{
  ℕ, ◌+◌, ◌≡◌, ◌++◌, arith, length, take, drop, ltb, if◌then◌else◌, append_assoc, length-append,
  take-append, drop-append, take-append-drop, ◌∙◌, inl, inr,
}
use pus_proj.Common.Results.{
  Result, ok, err, format_error, incomplete_read, ◌>>=◌, ◌>>◌, raise_if, Result-cases,
}
use pus_proj.Bytes.{Bytes}
use pus_proj.Bytes.Header.{
  unpack_header, header_bytes, length-header_bytes, unpack_header-header_bytes,
}
use pus_proj.Server.Protocol.{
  Frame, decode, encode, header_len, hmac_len, max_payload_len, header_or_format_error, header_of,
}
use pus_proj.Server.Protocol.RoundTrip.{signed_part, encode_inv, decode-encode, Fits-header_of}

-- StreamReader.readexactly(n): the bytes and what is left, or IncompleteReadError at the end.
unfoldable pub read_exactly : ℕ → Bytes → Result (Bytes × Bytes)
read_exactly n stream =
    if ltb (length stream) n then err incomplete_read else ok (take n stream, drop n stream)

module _ (hmac : Bytes → Bytes → Bytes) where
  -- _read_frame
  unfoldable pub read_frame : Bytes → Bytes → Result (Frame × Bytes)
  unfolding read_exactly header_or_format_error
  read_frame stream mac_key = do
    (header, behind) ← read_exactly header_len stream
    h ← header_or_format_error (unpack_header header)
    raise_if (ltb max_payload_len h.payload_len) format_error
    (body_and_hmac, rest) ← read_exactly (h.payload_len + hmac_len) behind
    frame ← decode hmac (header ++ body_and_hmac) mac_key
    ok (frame, rest)

  module _ (hmac_length : (k m : Bytes) → length (hmac k m) ≡ hmac_len) where
    -- From a stream that begins with an encoded frame, that frame is read and nothing behind it.
    pub read_frame-append :
        (f : Frame) (key rest : Bytes) {raw : Bytes}
        → encode hmac f key ≡ ok raw
        → read_frame (raw ++ rest) key ≡ ok (record f { hmac = hmac key (signed_part f) }, rest)
    unfolding read_frame
    read_frame-append f key rest {raw} e =
        let (s, r) = encode_inv hmac f key e in
        let h = header_of f in
        let hb = header_bytes h in
        let m = hmac key (signed_part f) in
        let tail = f.payload ++ m in
        let whole : raw ≡ hb ++ tail = unfold signed_part in rw r (append_assoc hb f.payload m) in
        let size : length tail ≡ f.payload_len + hmac_len =
          omega (arith, length-append f.payload m, hmac_length key (signed_part f), s.measured) in
        let decoded : decode hmac (hb ++ tail) key ≡ ok (record f { hmac = m }) =
          rw (← whole) (decode-encode hmac hmac_length f key e) in
        let hlen = length-header_bytes h in
        rw (whole, append_assoc)
          (unfold header_of in
            ground (
              arith,
              s,
              unpack_header-header_bytes h (Fits-header_of f s),
              take-append header_len hb (tail ++ rest) hlen,
              drop-append header_len hb (tail ++ rest) hlen,
              take-append (f.payload_len + hmac_len) tail rest size,
              drop-append (f.payload_len + hmac_len) tail rest size,
              length-append hb (tail ++ rest),
              length-append tail rest,
              size,
              hlen,
              decoded,
            ))

  -- What a read frame has consumed is a prefix of the stream that decodes to it.
  pub read_frame_inv :
      (stream key : Bytes) {f : Frame} {rest : Bytes}
      → read_frame stream key ≡ ok (f, rest)
      → (raw : Bytes) × (stream ≡ raw ++ rest) × (decode hmac raw key ≡ ok f)
  unfolding read_frame
  read_frame_inv stream key {f} {rest} e =
      elim (Result-cases (unpack_header (take header_len stream))) [
        | inl (h, p) ↦
            let behind = drop header_len stream in
            let body = take (h.payload_len + hmac_len) behind in
            elim (Result-cases (decode hmac (take header_len stream ++ body) key)) [
              | inl (g, q) ↦
                  let r : rest ≡ drop (h.payload_len + hmac_len) behind = ground arith in
                  let same : ok g ≡ ok f = ground arith in
                  (
                    take header_len stream ++ body,
                    rw (r, append_assoc, take-append-drop, take-append-drop),
                    q ∙ same,
                  )
              | inr (x, q) ↦ ground arith
            ]
        | inr (x, p) ↦ ground arith
      ]
