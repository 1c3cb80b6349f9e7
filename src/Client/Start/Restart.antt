-- ===== src/Client/Start/Restart.antt =====
-- What client-py/secvault.py finds offline of the vault that it has synchronised.
use pus_proj.Common.{◌+◌, ◌≡◌, refl, true, false, some, length}
use pus_proj.Common.Results.{ok}
use pus_proj.Bytes.{Bytes}
use pus_proj.Client.Vault.Plaintext.{encrypt}
use pus_proj.Client.Vault.Parsing.{gcm_tag_len}
use pus_proj.Client.Vault.RoundTrip.{decrypt-encrypt}
use pus_proj.Client.Cache.{Cached, save_cache, load_cache}
use pus_proj.Client.Cache.RoundTrip.{load_cache-save_cache}
use pus_proj.Client.Act.{ClientCrypto, World}
use pus_proj.Client.Commands.{App, cache_after, synced}
use pus_proj.Client.Start.{begun, go_offline, open_cached, with_cached}

module _ (c : ClientCrypto) (opens : (k iv p : Bytes) → c.unseal k iv (c.seal k iv p) ≡ ok p)
    (tagged : (k iv p : Bytes) → length (c.seal k iv p) ≡ length p + gcm_tag_len) where
  -- After a sync that returned True and whose vault could be written to the cache file, a start in
  -- offline mode with the same master password finds in that file just the vault that was in memory,
  -- when vault identifiers have 16 bytes and the nonce 12. The cipher opens what it sealed and adds a
  -- tag of 16 bytes.
  pub go_offline-synced :
      (iv : Bytes) (x y : World) (a : App) {blob bytes : Bytes}
      → length iv ≡ 12
      → length x.client.vault_id ≡ 16
      → encrypt c.seal x.client.k_vault iv x.vault ≡ ok blob
      → save_cache (record {
        login = x.client.login_name;
        vault_id = x.client.vault_id;
        version = x.client.vault_version;
        blob = blob;
      })
        ≡ ok bytes
      → y.client.k_vault ≡ x.client.k_vault
      → let file = (synced c (ok true) iv x a).cache in
        go_offline c file y
        ≡ begun (record {
          world = record y { vault = x.vault };
          dirty = false;
          online = false;
          cache = file;
        })
  unfolding synced cache_after go_offline open_cached with_cached
  go_offline-synced iv x y a {blob} {bytes} size id_size sealed saved same =
      let cached : Cached = record {
        login = x.client.login_name;
        vault_id = x.client.vault_id;
        version = x.client.vault_version;
        blob = blob;
      } in
      let loaded : load_cache (some bytes) ≡ ok (some cached) =
        load_cache-save_cache cached id_size saved in
      let opened =
        decrypt-encrypt c.seal c.unseal x.client.k_vault iv (opens x.client.k_vault iv)
          (tagged x.client.k_vault iv) x.vault size sealed in
      let file : cache_after c iv x a.cache ≡ some bytes = rw (cache_after, sealed, saved) refl in
      rw (synced, file, go_offline, loaded, open_cached, same, opened) refl
