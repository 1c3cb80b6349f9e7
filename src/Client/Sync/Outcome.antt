-- ===== src/Client/Sync/Outcome.antt =====
-- What do_sync of client-py/secvault.py has done when it returns.
use pus_proj.Common.{
  ℕ, ◌≡◌, ◌≢◌, ap, inl, inr, true, false, List, [], ◌∷◌, ◌+◌, All, length, ◌==◌, Bool-cases,
}
use pus_proj.Common.Results.{ok, Error, protocol_error, Result-cases}
use pus_proj.Bytes.{Bytes}
use pus_proj.Client.Vault.Plaintext.{encrypt}
use pus_proj.Client.Vault.Parsing.{decrypt, gcm_tag_len}
use pus_proj.Client.Vault.RoundTrip.{decrypt-encrypt}
use pus_proj.Client.Act.{ClientCrypto, World, attempt, ◌>>=◌}
use pus_proj.Client.Exchange.{put_vault}
use pus_proj.Client.Upkeep.{Outside, ensure_session}
use pus_proj.Client.Sync.{vault_now, fetch_and_merge, resolve, sync_round, sync_rounds, do_sync}
use pus_proj.Client.Sync.Sessions.{Keeps-put_vault}

module _ (c : ClientCrypto) where
  -- A vault that the server has acknowledged: what was encrypted and sent is the vault in memory.
  pub record Acknowledged (z : World) : Type 0 where
    pub before : World
    pub iv : Bytes
    pub iv_size : length iv ≡ 12
    pub blob : Bytes
    pub version : ℕ
    pub sealed : encrypt c.seal z.client.k_vault iv z.vault ≡ ok blob
    pub put : put_vault c blob before.client.vault_version before ≡ (ok version, z)

  resolve_lem : (e : Error) (x : World) → (resolve c e x).0 ≢ ok true
  unfolding resolve ◌>>=◌
  resolve_lem (protocol_error code) x h = elim (Bool-cases (code == 0x0A)) [
    | inr other ↦ cc (rw other at h)
    | inl conflict ↦ elim (Result-cases (fetch_and_merge c x).0) [
      | inl (b, p) ↦ cc (rw (conflict, p) at h)
      | inr (e, p) ↦ cc (rw (conflict, p) at h)
    ]
  ]
  resolve_lem e x h = cc

  sync_round_lem :
      (iv : Bytes) (x : World)
      → length iv ≡ 12
      → (sync_round c iv x).0 ≡ ok true
      → Acknowledged (sync_round c iv x).1
  unfolding sync_round vault_now attempt ◌>>=◌
  sync_round_lem iv x size h = elim (Result-cases (encrypt c.seal x.client.k_vault iv x.vault)) [
    | inr (e, p) ↦ cc (rw p at h)
    | inl (blob, p) ↦ elim (Result-cases (put_vault c blob x.client.vault_version x).0) [
      | inr (e, q) ↦ absurd (resolve_lem e _ (rw (p, q) at h))
      | inl (version, q) ↦
          let z = (put_vault c blob x.client.vault_version x).1 in
          let k = (Keeps-put_vault c blob x.client.vault_version).kept x in
          let done : Acknowledged z = record {
            before = x;
            iv = iv;
            iv_size = size;
            blob = blob;
            version = version;
            sealed = rw (k.same_vault, k.same_k_vault) p;
            put = ap (λ r. (r, z)) q;
          } in
          rw (p, q) done
    ]
  ]

  sync_rounds_lem :
      (ivs : List Bytes) (x : World)
      → All (λ (iv : Bytes). length iv ≡ 12) ivs
      → (sync_rounds c ivs x).0 ≡ ok true
      → Acknowledged (sync_rounds c ivs x).1
  unfolding sync_rounds ◌>>=◌
  sync_rounds_lem [] x sizes h = cc
  sync_rounds_lem (iv ∷ ivs) x (size, sizes) h = elim (Result-cases (sync_round c iv x).0) [
    | inr (e, p) ↦ cc (rw p at h)
    | inl (true, p) ↦ rw p (sync_round_lem iv x size p)
    | inl (false, p) ↦ rw p (sync_rounds_lem ivs (sync_round c iv x).1 sizes (rw p at h))
  ]

  -- When do_sync returns True, the server has acknowledged, under the client's key, an encryption of
  -- just the vault that is then in memory, with what was merged into it on the way. The nonces have
  -- 12 bytes each.
  pub do_sync-Acknowledged :
      (o : Outside) (iv1 iv2 iv3 : Bytes) (x : World)
      → length iv1 ≡ 12
      → length iv2 ≡ 12
      → length iv3 ≡ 12
      → (do_sync c o iv1 iv2 iv3 x).0 ≡ ok true
      → Acknowledged (do_sync c o iv1 iv2 iv3 x).1
  unfolding do_sync ◌>>=◌
  do_sync-Acknowledged o iv1 iv2 iv3 x n1 n2 n3 h = elim (Result-cases (ensure_session c o x).0) [
    | inr (e, p) ↦ cc (rw p at h)
    | inl (u, p) ↦ rw p (
        sync_rounds_lem (iv1 ∷ iv2 ∷ iv3 ∷ []) (ensure_session c o x).1 (n1, (n2, (n3, tt)))
          (rw p at h))
  ]

  -- When do_sync returns True, an acknowledged VAULT_PUT carried a blob that decrypts, under the
  -- key of the master password, to just the vault that is then in memory, with what was merged into
  -- it on the way. It is so with an authenticated cipher that opens what it sealed and adds a tag
  -- of 16 bytes, when the nonces have 12 bytes each.
  pub do_sync-decrypt :
      ((k iv p : Bytes) → c.unseal k iv (c.seal k iv p) ≡ ok p)
      → ((k iv p : Bytes) → length (c.seal k iv p) ≡ length p + gcm_tag_len)
      → (o : Outside) (iv1 iv2 iv3 : Bytes) (x : World) → length iv1 ≡ 12
      → length iv2 ≡ 12
      → length iv3 ≡ 12
      → (do_sync c o iv1 iv2 iv3 x).0 ≡ ok true
      → let z = (do_sync c o iv1 iv2 iv3 x).1 in
        (y : World) × (blob : Bytes) × (version : ℕ) × (put_vault c blob y.client.vault_version y
          ≡ (ok version, z))
        × (decrypt c.unseal blob z.client.k_vault ≡ ok z.vault)
  do_sync-decrypt opens tagged o iv1 iv2 iv3 x n1 n2 n3 h =
      let a = do_sync-Acknowledged o iv1 iv2 iv3 x n1 n2 n3 h in
      let z = (do_sync c o iv1 iv2 iv3 x).1 in
      let k = z.client.k_vault in
      let same =
        decrypt-encrypt c.seal c.unseal k a.iv (opens k a.iv) (tagged k a.iv) z.vault a.iv_size
          a.sealed in
      (a.before, a.blob, a.version, a.put, same)
