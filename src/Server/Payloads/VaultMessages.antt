-- ===== src/Server/Payloads/VaultMessages.antt =====
-- The VAULT_PUT payloads that _parse_vault_put_payload of server-py/server.py accepts.
use pus_proj.Common.{
  ℕ, ◌+◌, ◌^◌, ◌≤◌, ◌<◌, ◌≡◌, ap, sym, ◌∙◌, ◌++◌, length, slice, drop, [], append-nil, drop_all,
  take-append, append_assoc, length-append, arith,
}
use pus_proj.Common.Results.{ok}
use pus_proj.Bytes.{Bytes, IsBytes, to_le, of_le, length-to_le, of_le-to_le}
use pus_proj.Bytes.Fields.{slice-append, slice-append-drop, length-slice}
use pus_proj.Bytes.Header.{repack}
use pus_proj.Server.Payloads.{
  VaultPut, parse_vault_put, max_vault_blob_bytes, vault_put_header_size,
}

-- The layout: vault id, version, length of the blob, blob.
unfoldable pub put_payload : VaultPut → Bytes
put_payload put =
    put.vault_id ++ (to_le 8 put.base_version ++ (to_le 4 (length put.blob) ++ put.blob))

pub record IsPut (put : VaultPut) : Type 0 where
  pub id_length : length put.vault_id ≡ 16
  pub version_fits : put.base_version < 256 ^ 8
  pub blob_fits : length put.blob ≤ max_vault_blob_bytes

module _ (put : VaultPut) (p : IsPut put) where
  pub length-put_payload : length (put_payload put) ≡ vault_put_header_size + length put.blob
  unfolding put_payload
  length-put_payload = omega (
    arith,
    p.id_length,
    length-append put.vault_id
        (to_le 8 put.base_version ++ (to_le 4 (length put.blob) ++ put.blob)),
    length-append (to_le 8 put.base_version) (to_le 4 (length put.blob) ++ put.blob),
    length-append (to_le 4 (length put.blob)) put.blob,
    length-to_le 8 put.base_version,
    length-to_le 4 (length put.blob),
  )

  -- A put whose id has 16 bytes, whose version fits eight bytes and whose blob is within the limit
  -- is read back from its layout.
  pub parse_vault_put-put_payload : parse_vault_put (put_payload put) ≡ ok put
  unfolding parse_vault_put put_payload
  parse_vault_put-put_payload =
      let vid = put.vault_id in
      let version = to_le 8 put.base_version in
      let size = to_le 4 (length put.blob) in
      let tail = size ++ put.blob in
      let two : put_payload put ≡ (vid ++ version) ++ tail = sym (append_assoc vid version tail) in
      let three : put_payload put ≡ ((vid ++ version) ++ size) ++ (put.blob ++ []) =
        two
        ∙ sym (append_assoc (vid ++ version) size put.blob)
        ∙ ap (λ (b : Bytes). ((vid ++ version) ++ size) ++ b) (sym (append-nil put.blob)) in
      let l8 = length-to_le 8 put.base_version in
      let l4 = length-to_le 4 (length put.blob) in
      let n2 : length (vid ++ version) ≡ 24 =
        omega (arith, length-append vid version, l8, p.id_length) in
      let n3 : length ((vid ++ version) ++ size) ≡ 28 =
        omega (arith, length-append (vid ++ version) size, n2, l4) in
      let e0 : slice 0 16 (put_payload put) ≡ vid =
        take-append 16 vid (version ++ tail) p.id_length in
      let e1 : slice 16 24 (put_payload put) ≡ version =
        slice-append 16 24 vid version tail p.id_length l8 in
      let e2 : slice 24 28 (put_payload put) ≡ size =
        rw two (slice-append 24 28 (vid ++ version) size put.blob n2 l4) in
      let e3 : slice 28 (28 + length put.blob) (put_payload put) ≡ put.blob = rw three (
        slice-append 28 (28 + length put.blob) ((vid ++ version) ++ size) put.blob [] n3
          (omega arith)) in
      let v : of_le version ≡ put.base_version = of_le-to_le 8 _ p.version_fits in
      let n : of_le size ≡ length put.blob = of_le-to_le 4 _ (omega (arith, p.blob_fits)) in
      rw (e2, n, e0, e1, v, e3) (ground (arith, length-put_payload, p.blob_fits))

-- The four slices of a put, together.
put_slices :
    (payload : Bytes) (n : ℕ)
    → length payload ≡ 28 + n
    → slice 0 16 payload
        ++ (slice 16 24 payload ++ (slice 24 28 payload ++ slice 28 (28 + n) payload))
      ≡ payload
put_slices payload n e =
    let last : drop (28 + n) payload ≡ [] = drop_all (28 + n) payload (omega arith) in
    let tail : slice 28 (28 + n) payload ≡ drop 28 payload =
      sym (append-nil (slice 28 (28 + n) payload))
      ∙ ap (λ zs. slice 28 (28 + n) payload ++ zs) (sym last)
      ∙ slice-append-drop 28 (28 + n) payload (omega arith) in
    rw (
      tail,
      slice-append-drop 24 28 payload (omega arith),
      slice-append-drop 16 24 payload (omega arith),
      slice-append-drop 0 16 payload (omega arith),
    )

module _ (payload : Bytes) (bytes : IsBytes payload) where
  -- Whatever bytes are accepted as a put are the layout of the put that is read from them, whose
  -- blob is within the limit.
  pub parse_vault_put_inv :
      {put : VaultPut} → parse_vault_put payload ≡ ok put → IsPut put × (payload ≡ put_payload put)
  unfolding parse_vault_put put_payload
  parse_vault_put_inv {put} h =
      let n = of_le (slice 24 28 payload) in
      let whole : length payload ≡ 28 + n = ground arith in
      let small : n ≤ max_vault_blob_bytes = ground arith in
      let e0 : put.vault_id ≡ slice 0 16 payload = ground arith in
      let e1 : put.base_version ≡ of_le (slice 16 24 payload) = ground arith in
      let e2 : put.blob ≡ slice 28 (28 + n) payload = ground arith in
      let len : length put.blob ≡ n =
        ap length e2 ∙ length-slice 28 (28 + n) payload (omega arith) (omega arith) ∙ omega arith in
      let p1 = repack 16 24 8 payload bytes (omega arith) (omega arith) in
      let p2 = repack 24 28 4 payload bytes (omega arith) (omega arith) in
      (
        record {
          id_length = ap length e0 ∙ length-slice 0 16 payload (omega arith) (omega arith);
          version_fits = rw e1 p1.0;
          blob_fits = omega arith;
        },
        rw (len, e0, e1, p1.1, p2.1, e2) (sym (put_slices payload n whole)),
      )
