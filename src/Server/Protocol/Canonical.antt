-- ===== src/Server/Protocol/Canonical.antt =====
-- What `decode` accepts, and how it refuses.
use pus_proj.Common.{
  take-append-drop, All-take, ◌⊎◌, ◌+◌, ◌≤◌, ◌≡◌, ◌≢◌, ap, ◌∙◌, some, ◌++◌, arith, length, take,
  drop, slice, bit_and, append_assoc, Option-cases, inl, inr,
}
use pus_proj.Common.Results.{Error, format_error, hmac_error, Result-cases, ok, err}
use pus_proj.Bytes.{Bytes, IsBytes, IsByte, bytes_eq→eq}
use pus_proj.Bytes.Fields.{slice-append-drop, length-slice, take-append-slice}
use pus_proj.Bytes.Header.{Header, unpack_header, unpack_header_inv, unpack_header_error}
use pus_proj.Server.Protocol.{
  of_code, Frame, encode, decode, header_of, header_len, hmac_len, max_payload_len,
  reserved_flag_mask, typed_frame, header_or_format_error,
}
use pus_proj.Server.Protocol.RoundTrip.{IsSendable, signed_part, encode-eq-ok, to_code-of_code}

module _ (hmac : Bytes → Bytes → Bytes) where
  -- What a successful `decode` has read and checked.
  record Decoded (raw key : Bytes) (f : Frame) (h : Header) : Type 0 where
    read : unpack_header (take header_len raw) ≡ ok h
    typed : of_code h.msg_type ≡ some f.msg_type
    version : f.version ≡ h.version
    flags : f.flags ≡ h.flags
    seq_id : f.seq_id ≡ h.seq_id
    payload_len : f.payload_len ≡ h.payload_len
    small : h.payload_len ≤ max_payload_len
    total : length raw ≡ header_len + h.payload_len + hmac_len
    payload : f.payload ≡ slice header_len (header_len + h.payload_len) raw
    trailer : drop (header_len + h.payload_len) raw ≡ f.hmac
    mac : f.hmac ≡ hmac key (take header_len raw ++ f.payload)
    reserved : bit_and h.flags reserved_flag_mask ≡ 0

  decode_inv :
      (raw key : Bytes) {f : Frame}
      → decode hmac raw key ≡ ok f
      → (h : Header) × Decoded raw key f h
  unfolding decode header_or_format_error
  decode_inv raw key {f} e = elim (Result-cases (unpack_header (take header_len raw))) [
    | inl (h, p) ↦ elim (Option-cases (of_code h.msg_type)) [
      | inl q ↦ unfold typed_frame in ground arith
      | inr (t, q) ↦
          let same =
            bytes_eq→eq (drop (header_len + h.payload_len) raw) (
              hmac key
                (take header_len raw ++ slice header_len (header_len + h.payload_len) raw)) in
          (h, unfold typed_frame in ground (arith, same))
    ]
    | inr (x, p) ↦ ground arith
  ]

  -- Whatever `decode` accepts is byte for byte what `encode` makes of the frame that it returns.
  pub encode-decode :
      (raw key : Bytes) {f : Frame}
      → IsBytes raw
      → decode hmac raw key ≡ ok f
      → encode hmac f key ≡ ok raw
  encode-decode raw key {f} b e =
      let (h, d) = decode_inv raw key e in
      let (fits, hb, n) =
        unpack_header_inv (take header_len raw) (All-take IsByte header_len raw b) d.read in
      let same : header_of f ≡ h =
        unfold header_of in ground (arith, d, to_code-of_code h.msg_type d.typed) in
      let s : IsSendable f = record {
        measured =
            rw (d.payload, d.payload_len)
              (length-slice header_len (header_len + h.payload_len) raw (omega arith)
                  (omega (arith, d.total))
                ∙ omega arith);
        small = omega (arith, d.small, d.payload_len);
        reserved = rw d.flags d.reserved;
        version = omega (arith, fits.version, d.version);
        flags = omega (arith, fits.flags, d.flags);
        seq_id = omega (arith, fits.seq_id, d.seq_id);
      } in
      let signed : signed_part f ≡ take header_len raw ++ f.payload =
        unfold signed_part in rw (same, hb) in
      encode-eq-ok hmac f key s
      ∙ ap ok (
          rw
            (
              signed,
              ← d.mac,
              ← d.trailer,
              d.payload,
              append_assoc,
              slice-append-drop header_len (header_len + h.payload_len) raw (omega arith),
            )
            (take-append-drop header_len raw))

  -- A frame whose shape is right and whose trailer is wrong is an SVPHmacError, whatever its flags
  -- and its message type are.
  pub decode_forged :
      (raw key : Bytes) (h : Header)
      → unpack_header (take header_len raw) ≡ ok h
      → h.payload_len ≤ max_payload_len
      → length raw ≡ header_len + h.payload_len + hmac_len
      → drop (header_len + h.payload_len) raw ≢ hmac key (take (header_len + h.payload_len) raw)
      → decode hmac raw key ≡ err hmac_error
  unfolding decode header_or_format_error
  decode_forged raw key h p small total ne =
      let cut = take-append-slice header_len (header_len + h.payload_len) raw (omega arith) in
      let differ =
        bytes_eq→eq (drop (header_len + h.payload_len) raw)
          (hmac key (take header_len raw ++ slice header_len (header_len + h.payload_len) raw)) in
      ground (arith, cut, differ)

  -- `decode` fails with an SVPFormatError or an SVPHmacError and in no other way.
  pub decode_errors :
      (raw key : Bytes) {e : Error}
      → decode hmac raw key ≡ err e
      → (e ≡ format_error) ⊎ (e ≡ hmac_error)
  unfolding decode header_or_format_error typed_frame
  decode_errors raw key {e} p = elim (Result-cases (unpack_header (take header_len raw))) [
    | inl (h, q) ↦ ground arith
    | inr (x, q) ↦ ground (arith, unpack_header_error (take header_len raw) q)
  ]
