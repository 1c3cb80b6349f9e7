-- ===== src/Joint/Devices.antt =====
-- put_vault of one device and fetch_vault of another (client-py/svpclient.py) with the server of
-- server-py/server.py, each client fed what the server writes for it.
use pus_proj.Common.{
  ℕ, suc, ◌+◌, ◌^◌, ◌≤◌, ◌<◌, ◌≡◌, refl, sym, ap, ◌∙◌, true, some, List, [], ◌∷◌, ◌++◌, length,
}
use pus_proj.Common.Results.{ok}
use pus_proj.Bytes.{Bytes, bytes_eq_refl}
use pus_proj.Server.Protocol.{hmac_len, max_payload_len}
use pus_proj.Server.Database.{Db, VaultRow, get_vault, update_vault}
use pus_proj.Server.Database.Laws.{update_vault-success}
use pus_proj.Server.Connection.{Conn}
use pus_proj.Server.Handler.Environment.{Env, in_time, again}
use pus_proj.Server.Handler.Loop.{round}
use pus_proj.Client.Framing.{serialize}
use pus_proj.Client.Requests.{vault_put_payload, vault_get_payload}
use pus_proj.Client.Act.{ClientCrypto, World, dialled}
use pus_proj.Client.Session.Talk.{frame_of}
use pus_proj.Client.Exchange.{put_vault, fetch_vault}
use pus_proj.Client.Exchange.Fetches.{stream}
use pus_proj.Joint.Requests.{IsServing, IsCurrent}
use pus_proj.Joint.Storing.{stored_fits, put_run}
use pus_proj.Joint.Fetching.{fetch_run}

-- What one device has stored, another fetches. A put_vault that the server takes is acknowledged to
-- the first device with the version behind the one that it has named, and a later fetch_vault of
-- another device of the same user, on a connection of its own, returns that blob and that version,
-- when no write has come to the vault between. It is so when digests have 32 bytes, the identifier
-- of the vault 16, each client and its connection have the same HMAC key, the put fits one frame and
-- names the stored version of the user's own vault, or 0 for a vault that is not stored, the
-- requests come in time, the sequence numbers fit 32 bits, and a write succeeds on each side.
pub fetch_vault-put_vault :
    (c : ClientCrypto) (env_a env_b : Env) (uid : ℕ) (key_a key_b : Bytes) (a b : World)
    (xa xb : Conn) (blob more_a more_b rest_a rest_b : Bytes) (base left_a left_b : ℕ) (d1 : Db)
    {put_bytes get_bytes sent_a sent_b : Bytes}
    → ((k m : Bytes) → length (c.shared.hmac k m) ≡ hmac_len)
    → a.client.k_mac ≡ some key_a
    → b.client.k_mac ≡ some key_b
    → length a.client.vault_id ≡ 16
    → b.client.vault_id ≡ a.client.vault_id
    → vault_put_payload a.client.vault_id base blob ≡ ok put_bytes
    → vault_get_payload b.client.vault_id b.client.vault_version ≡ ok get_bytes
    → length blob + 28 ≤ max_payload_len
    → serialize c.shared.hmac (frame_of 0x11 0 put_bytes a.client) (some key_a) ≡ ok sent_a
    → serialize c.shared.hmac (frame_of 0x10 0 get_bytes b.client) (some key_b) ≡ ok sent_b
    → IsServing uid key_a xa
    → IsServing uid key_b xb
    → env_a.arrival ≡ in_time
    → env_b.arrival ≡ in_time
    → xa.incoming ≡ sent_a ++ more_a
    → xb.incoming ≡ sent_b ++ more_b
    → IsCurrent uid base (get_vault a.client.vault_id (env_a.others 0 xa.db))
    → update_vault a.client.vault_id uid
        (base + 1)
        blob
        (env_a.now_ms 0)
        (env_a.others 1 (env_a.others 0 xa.db))
      ≡ (ok true, d1)
    → get_vault a.client.vault_id (env_b.others 0 xb.db) ≡ get_vault a.client.vault_id d1
    → xa.session.outbound_seq < 2 ^ 32
    → xb.session.outbound_seq + (length blob + 24) ≤ 2 ^ 32
    → ((raw : Bytes) × (y : Conn) × (z : World) × (round c.shared env_a xa ≡ (ok again, y))
        × (y.written ≡ xa.written ++ (raw ∷ []))
        × (y.db ≡ d1)
        × (put_vault c blob base (record a { conn = some (dialled (raw ++ rest_a) (suc left_a)) })
            ≡ (ok (base + 1), z)))
      × ((raws : List Bytes) × (y : Conn) × (z : World) × (round c.shared env_b xb ≡ (ok again, y))
          × (y.written ≡ xb.written ++ raws)
          × (fetch_vault c (record b { conn = some (dialled (stream raws ++ rest_b) (suc left_b)) })
              ≡ (ok (some blob), z))
          × (z.client.vault_version ≡ base + 1))
fetch_vault-put_vault c env_a env_b uid key_a key_b a b xa xb blob more_a more_b rest_a rest_b base
      left_a left_b d1 hmac_length ka kb n16 same p q small sa sb serving_a serving_b ta tb ia ib
      current stored quiet fits_a fits_b =
    let vid = a.client.vault_id in
    let now = env_a.now_ms 0 in
    let before = env_a.others 1 (env_a.others 0 xa.db) in
    let row : VaultRow = record {
      id = vid;
      user_id = some uid;
      version = some (base + 1);
      blob = some blob;
      ts = some now;
    } in
    let (open_lock, rows, users, sessions) =
      update_vault-success vid uid (base + 1) blob now before (ap (λ r. r.0) stored) in
    let there : get_vault vid d1 ≡ some row =
      ap (λ r. get_vault vid r.1) (sym stored) ∙ rows vid ∙ rw (bytes_eq_refl vid) refl in
    let found : get_vault b.client.vault_id (env_b.others 0 xb.db) ≡ some row =
      ap (λ v. get_vault v (env_b.others 0 xb.db)) same ∙ quiet ∙ there in
    (
      put_run c hmac_length env_a uid key_a a xa blob more_a rest_a base left_a d1 ka n16 p small sa
          serving_a ta ia current stored fits_a,
      fetch_run c hmac_length env_b uid key_b b xb row blob more_b rest_b (base + 1) left_b kb
          (ap length same ∙ n16) q sb serving_b tb ib found refl refl refl
          (stored_fits vid uid (base + 1) blob now before d1 stored) fits_b,
    )
