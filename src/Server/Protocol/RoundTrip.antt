-- ===== src/Server/Protocol/RoundTrip.antt =====
-- Decoding after encoding, and encoding after decoding.
use pus_proj.Common.{
  ℕ, ◌+◌, ◌^◌, ◌≤◌, ◌↔◌, ◌<◌, ◌≡◌, refl, ap, some, ◌++◌, arith, length, take, drop, slice, bit_and,
  length-append, append_assoc, take-append, drop-append, inl, inr,
}
use pus_proj.Common.Results.{Result-cases, ok}
use pus_proj.Bytes.{Bytes, bytes_eq_refl}
use pus_proj.Bytes.Fields.{slice-append}
use pus_proj.Bytes.Header.{
  Fits, header_bytes, pack_header, pack_header-eq-ok, pack_header_inv, length-header_bytes,
  unpack_header-header_bytes,
}
use pus_proj.Server.Protocol.{
  MsgType, to_code, of_code, Frame, encode, decode, header_of, header_len, hmac_len,
  max_payload_len, reserved_flag_mask, typed_frame, header_or_format_error,
}

pub of_code-to_code : (t : MsgType) → of_code (to_code t) ≡ some t
unfolding of_code to_code
of_code-to_code MsgType.hello = refl
of_code-to_code _ = refl

pub to_code-of_code : (n : ℕ) {t : MsgType} → of_code n ≡ some t → to_code t ≡ n
unfolding of_code to_code
to_code-of_code n e = ground arith

pub to_code_injective : (s t : MsgType) → to_code s ≡ to_code t → s ≡ t
to_code_injective s t e = cc (of_code-to_code s, of_code-to_code t, ap of_code e)

pub to_code-lt : (t : MsgType) → to_code t < 256
unfolding to_code
to_code-lt MsgType.hello = omega arith
to_code-lt _ = omega arith

-- What `encode` asks of a frame.
pub record IsSendable (f : Frame) : Type 0 where
  pub measured : length f.payload ≡ f.payload_len
  pub small : f.payload_len ≤ max_payload_len
  pub reserved : bit_and f.flags reserved_flag_mask ≡ 0
  pub version : f.version < 256
  pub flags : f.flags < 256
  pub seq_id : f.seq_id < 2 ^ 32

unfoldable pub signed_part : Frame → Bytes
signed_part f = header_bytes (header_of f) ++ f.payload

pub Fits-header_of : (f : Frame) → IsSendable f → Fits (header_of f)
unfolding header_of
Fits-header_of f s = omega (arith, to_code-lt f.msg_type)

module _ (hmac : Bytes → Bytes → Bytes) where
  pub encode-eq-ok :
      (f : Frame) (key : Bytes)
      → IsSendable f
      → encode hmac f key ≡ ok (signed_part f ++ hmac key (signed_part f))
  unfolding encode signed_part
  encode-eq-ok f key s = ground (arith, pack_header-eq-ok (header_of f) (Fits-header_of f s))

  pub encode_inv :
      (f : Frame) (key : Bytes) {raw : Bytes}
      → encode hmac f key ≡ ok raw
      → IsSendable f × (raw ≡ signed_part f ++ hmac key (signed_part f))
  unfolding encode signed_part
  encode_inv f key e = elim (Result-cases (pack_header (header_of f))) [
    | inl (bs, p) ↦
        let (fits, b) = pack_header_inv (header_of f) p in
        (unfold header_of in ground arith, ground arith)
    | inr (x, p) ↦ ground arith
  ]

  module _ (hmac_length : (k m : Bytes) → length (hmac k m) ≡ hmac_len) where
    -- Where the parts of an encoded frame lie.
    parts :
        (f : Frame) (m : Bytes)
        → IsSendable f
        → length m ≡ hmac_len
        → let raw = signed_part f ++ m in
          (length raw ≡ header_len + f.payload_len + hmac_len)
          × (take header_len raw ≡ header_bytes (header_of f))
          × (slice header_len (header_len + f.payload_len) raw ≡ f.payload)
          × (drop (header_len + f.payload_len) raw ≡ m)
    unfolding signed_part
    parts f m s l =
        let hb = header_bytes (header_of f) in
        let n : length hb ≡ header_len = length-header_bytes (header_of f) in
        rw append_assoc (
          omega (arith, length-append hb (f.payload ++ m), length-append f.payload m),
          take-append header_len hb (f.payload ++ m) n,
          slice-append header_len (header_len + f.payload_len) hb f.payload m n (omega arith),
          rw (← append_assoc hb f.payload m) (
              drop-append (header_len + f.payload_len) (hb ++ f.payload) m
                (omega (arith, length-append hb f.payload))),
        )

    decode-signed :
        (f : Frame) (key : Bytes)
        → IsSendable f
        → decode hmac (signed_part f ++ hmac key (signed_part f)) key
          ≡ ok (record f { hmac = hmac key (signed_part f) })
    unfolding decode typed_frame header_or_format_error
    decode-signed f key s =
        let m = hmac key (signed_part f) in
        let (p1, p2, p3, p4) = parts f m s (hmac_length key (signed_part f)) in
        let u = unpack_header-header_bytes (header_of f) (Fits-header_of f s) in
        unfold signed_part header_of in
        ground (arith, p1, p2, p3, p4, u, bytes_eq_refl m, of_code-to_code f.msg_type)

    -- A frame that `encode` accepts is decoded under the same key to itself, with the trailer
    -- filled in by the HMAC of header and payload.
    pub decode-encode :
        (f : Frame) (key : Bytes) {raw : Bytes}
        → encode hmac f key ≡ ok raw
        → decode hmac raw key ≡ ok (record f { hmac = hmac key (signed_part f) })
    decode-encode f key e = let (s, r) = encode_inv f key e in rw r (decode-signed f key s)

  -- `encode` succeeds exactly on the frames with a payload of the stated length, at most
  -- `max_payload_len`, no reserved flag, and header fields that fit their widths.
  pub encode_iff :
      (f : Frame) (key : Bytes) → ((raw : Bytes) × (encode hmac f key ≡ ok raw)) ↔ IsSendable f
  encode_iff f key = (λ r. (encode_inv f key r.1).0, λ s. (_, encode-eq-ok f key s))
