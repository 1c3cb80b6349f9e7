-- ===== src/Client/Requests/Understood.antt =====
-- What the parsers of server-py/server.py make of the payloads that client-py/svpclient.py builds.
use pus_proj.Common.{
  ℕ, ◌^◌, ◌≤◌, ◌<◌, ◌≡◌, refl, sym, ap, ◌∙◌, ◌++◌, [], length, slice, append-nil, append_assoc,
  length-append, take-append, arith,
}
use pus_proj.Common.Results.{ok}
use pus_proj.Bytes.{Bytes, to_le, length-to_le, of_le-to_le, pack}
use pus_proj.Bytes.Fields.{slice-append}
use pus_proj.Server.Payloads.{distance, parse_hello, parse_vault_get, max_clock_skew_ms}
use pus_proj.Server.Payloads.VaultMessages.{put_payload}
use pus_proj.Client.Writer
use pus_proj.Client.Requests.{hello_payload, vault_get_payload, vault_put_payload}

-- A HELLO with a nonce of 32 bytes and an identifier of 16, and a time that fits eight bytes and is
-- within the skew of the server's clock, is accepted and read as what the client put in.
pub parse_hello-hello_payload :
    (now now_ms : ℕ) (nonce_c client_id : Bytes) {payload : Bytes}
    → length nonce_c ≡ 32
    → length client_id ≡ 16
    → distance now now_ms ≤ max_clock_skew_ms
    → hello_payload nonce_c client_id now_ms ≡ ok payload
    → parse_hello now payload
      ≡ ok (record { nonce_c = nonce_c; client_id = client_id; timestamp_ms = now_ms })
unfolding hello_payload Writer.raw Writer.u64 parse_hello pack
parse_hello-hello_payload now now_ms nonce_c client_id {payload} n32 n16 near h =
    let t = to_le 8 now_ms in
    let lt = length-to_le 8 now_ms in
    let whole : payload ≡ (nonce_c ++ client_id) ++ t = ground arith in
    let fits : now_ms < 256 ^ 8 = ground arith in
    let assoc = append_assoc nonce_c client_id t in
    let end : (nonce_c ++ client_id) ++ (t ++ []) ≡ (nonce_c ++ client_id) ++ t =
      ap (λ b. (nonce_c ++ client_id) ++ b) (append-nil t) in
    let l2 : length (nonce_c ++ client_id) ≡ 48 = omega (arith, length-append nonce_c client_id) in
    let size : length ((nonce_c ++ client_id) ++ t) ≡ 56 =
      omega (arith, length-append (nonce_c ++ client_id) t) in
    let s0 : slice 0 32 ((nonce_c ++ client_id) ++ t) ≡ nonce_c =
      rw assoc (take-append 32 nonce_c (client_id ++ t) n32) in
    let s1 : slice 32 48 ((nonce_c ++ client_id) ++ t) ≡ client_id =
      rw assoc (slice-append 32 48 nonce_c client_id t n32 n16) in
    let s2 : slice 48 56 ((nonce_c ++ client_id) ++ t) ≡ t =
      rw (← end) (slice-append 48 56 (nonce_c ++ client_id) t [] l2 lt) in
    let v = of_le-to_le 8 now_ms fits in rw whole (rw (size, s2, v, s0, s1) (ground (arith, near)))

-- A VAULT_GET with an identifier of 16 bytes is read by the server as what the client put in.
pub parse_vault_get-vault_get_payload :
    (vault_id : Bytes) (version : ℕ) {payload : Bytes}
    → length vault_id ≡ 16
    → vault_get_payload vault_id version ≡ ok payload
    → parse_vault_get payload ≡ ok (vault_id, version)
unfolding vault_get_payload Writer.raw Writer.u64 parse_vault_get pack
parse_vault_get-vault_get_payload vault_id version {payload} n16 h =
    let t = to_le 8 version in
    let lt = length-to_le 8 version in
    let fits : version < 256 ^ 8 = ground arith in
    let whole : payload ≡ vault_id ++ t = ground arith in
    let size : length payload ≡ 24 = ap length whole ∙ omega (arith, length-append vault_id t) in
    let s0 : slice 0 16 payload ≡ vault_id =
      ap (slice 0 16) whole ∙ take-append 16 vault_id t n16 in
    let s1 : slice 16 24 payload ≡ t =
      ap (slice 16 24) (whole ∙ ap (λ b. vault_id ++ b) (sym (append-nil t)))
      ∙ slice-append 16 24 vault_id t [] n16 lt in
    rw (size, s0, s1, of_le-to_le 8 version fits) refl

-- The client lays a VAULT_PUT out as the server reads it.
pub vault_put_payload-put_payload :
    (vault_id : Bytes) (base_version : ℕ) (blob : Bytes) {payload : Bytes}
    → vault_put_payload vault_id base_version blob ≡ ok payload
    → (payload
        ≡ put_payload (record { vault_id = vault_id; base_version = base_version; blob = blob }))
      × (base_version < 256 ^ 8)
unfolding vault_put_payload put_payload Writer.raw Writer.u64 Writer.u32 pack
vault_put_payload-put_payload vault_id base_version blob {payload} h =
    let t = to_le 8 base_version in
    let u = to_le 4 (length blob) in
    let whole : payload ≡ ((vault_id ++ t) ++ u) ++ blob = ground arith in
    (
      whole ∙ append_assoc (vault_id ++ t) u blob ∙ append_assoc vault_id t (u ++ blob),
      ground arith,
    )
