-- ===== src/Examples/Vaults.antt =====
-- The vault, its formats and the command line at concrete inputs.
use pus_proj.Common.{none, true, false, ◌≡◌, refl, some, Option, [], ◌∷◌, ◌++◌, replicate}
use pus_proj.Common.Results.{ok}
use pus_proj.Bytes.{Bytes, to_le}
use pus_proj.Bytes
use pus_proj.Text.{encode_text}
use pus_proj.Text
use pus_proj.Client.Writer
use pus_proj.Client.Vault.{Vault, find_by_id, merge_from}
use pus_proj.Client.Vault.Dict.{UniqueIds}
use pus_proj.Client.Vault.Merge.{IsChoice, merge_from-IsChoice}
use pus_proj.Client.Vault.Plaintext.{
  magic, write_entry, write_entries, serialize_plaintext, encrypt,
}
use pus_proj.Client.Vault.Parsing.{decrypt}
use pus_proj.Client.Vault.RoundTrip.{decrypt-encrypt}
use pus_proj.Client.Cache.{Cached, save_cache, load_cache}
use pus_proj.Client.Act.{World}
use pus_proj.Client.Commands.{App, synced}
use pus_proj.Client.Start.{begun, go_offline}
use pus_proj.Client.Start.Restart.{go_offline-synced}
use pus_proj.Client.Failures.{load_cache_total}
use pus_proj.Examples.Samples.{bob, vault_id}
use pus_proj.Examples.Devices.{
  talking, logged_in, keyed, devices, unseal_sample, unseal-seal, length-seal, tag, entry, changed,
}

abbrev theirs : Vault
theirs = changed ∷ record entry { id = 50 ∷ [] } ∷ []

UniqueIds-theirs : UniqueIds theirs
unfolding find_by_id Bytes.bytes_eq
UniqueIds-theirs = (refl, (refl, tt))

UniqueIds-entry : UniqueIds (entry ∷ [])
unfolding find_by_id
UniqueIds-entry = (refl, tt)

merge_from-IsChoice_example :
    IsChoice
      (find_by_id (49 ∷ []) (entry ∷ []))
      (find_by_id (49 ∷ []) theirs)
      (find_by_id (49 ∷ []) (merge_from theirs (entry ∷ [])).0)
merge_from-IsChoice_example =
    merge_from-IsChoice (49 ∷ []) theirs (entry ∷ []) UniqueIds-theirs UniqueIds-entry

abbrev k_vault : Bytes
k_vault = replicate 32 4

abbrev iv : Bytes
iv = replicate 12 6

abbrev sealed_entry : Bytes
sealed_entry =
    iv
    ++ ((magic
          ++ (1 ∷ 0 ∷ 0 ∷ 0 ∷ 1 ∷ 0 ∷ 49 ∷ 2 ∷ 0 ∷ 97 ∷ 98 ∷ 3 ∷ 0 ∷ 98 ∷ 111 ∷ 98 ∷ 1 ∷ 0 ∷ 120 ∷ 0
              ∷ 0 ∷ 100 ∷ 0 ∷ 0 ∷ 0 ∷ 0 ∷ 0 ∷ 0 ∷ 0 ∷ []))
        ++ tag k_vault)

encrypted :
    encrypt devices.seal k_vault iv (entry ∷ [])
    ≡ ok (
        iv
        ++ ((magic
              ++ (1 ∷ 0 ∷ 0 ∷ 0 ∷ 1 ∷ 0 ∷ 49 ∷ 2 ∷ 0 ∷ 97 ∷ 98 ∷ 3 ∷ 0 ∷ 98 ∷ 111 ∷ 98 ∷ 1 ∷ 0 ∷ 120
                  ∷ 0 ∷ 0 ∷ 100 ∷ 0 ∷ 0 ∷ 0 ∷ 0 ∷ 0 ∷ 0 ∷ 0 ∷ []))
            ++ tag k_vault))
unfolding encrypt serialize_plaintext write_entries write_entry Writer.lpstr Writer.raw Writer.u16
    Writer.u32 Writer.u64 Bytes.pack Bytes.to_le encode_text Text.encode_char
encrypted = refl

decrypt-encrypt_example :
    decrypt unseal_sample
      (iv
        ++ ((magic
              ++ (1 ∷ 0 ∷ 0 ∷ 0 ∷ 1 ∷ 0 ∷ 49 ∷ 2 ∷ 0 ∷ 97 ∷ 98 ∷ 3 ∷ 0 ∷ 98 ∷ 111 ∷ 98 ∷ 1 ∷ 0 ∷ 120
                  ∷ 0 ∷ 0 ∷ 100 ∷ 0 ∷ 0 ∷ 0 ∷ 0 ∷ 0 ∷ 0 ∷ 0 ∷ []))
            ++ tag k_vault))
      k_vault
    ≡ ok (entry ∷ [])
decrypt-encrypt_example =
    decrypt-encrypt devices.seal unseal_sample k_vault iv (unseal-seal k_vault iv)
      (length-seal k_vault iv) (entry ∷ []) refl encrypted

abbrev cached : Cached
cached = record { login = bob; vault_id = vault_id; version = 4; blob = 1 ∷ 2 ∷ [] }

abbrev file : Bytes
file =
    b'S'
    ∷ b'V'
    ∷ b'C'
    ∷ b'A'
    ∷ b'C'
    ∷ b'H'
    ∷ b'E'
    ∷ b'1'
    ∷ 3
    ∷ 0
    ∷ 98
    ∷ 111
    ∷ 98
    ∷ (vault_id ++ (4 ∷ 0 ∷ 0 ∷ 0 ∷ 0 ∷ 0 ∷ 0 ∷ 0 ∷ 2 ∷ 0 ∷ 0 ∷ 0 ∷ 1 ∷ 2 ∷ []))

saved : save_cache cached ≡ ok file
unfolding save_cache Writer.lpstr Writer.raw Writer.u16 Writer.u32 Writer.u64 Writer.lpblob
    Bytes.pack Bytes.to_le encode_text Text.encode_char
saved = refl

load_cache_total_example : (c : Option Cached) × (load_cache (some (7 ∷ 7 ∷ [])) ≡ ok c)
load_cache_total_example = load_cache_total (some (7 ∷ 7 ∷ []))

abbrev cache_bytes : Bytes
cache_bytes =
    b'S'
    ∷ b'V'
    ∷ b'C'
    ∷ b'A'
    ∷ b'C'
    ∷ b'H'
    ∷ b'E'
    ∷ b'1'
    ∷ 3
    ∷ 0
    ∷ 98
    ∷ 111
    ∷ 98
    ∷ (vault_id ++ (4 ∷ 0 ∷ 0 ∷ 0 ∷ 0 ∷ 0 ∷ 0 ∷ 0 ∷ 65 ∷ 0 ∷ 0 ∷ 0 ∷ sealed_entry))

cached_again :
    save_cache (record { login = bob; vault_id = vault_id; version = 4; blob = sealed_entry })
    ≡ ok cache_bytes
unfolding save_cache Writer.lpstr Writer.raw Writer.u16 Writer.u32 Writer.u64 Writer.lpblob
    Bytes.pack Bytes.to_le encode_text Text.encode_char
cached_again = refl

-- The client that has synchronised, and one that starts again.
abbrev done : World
done = talking logged_in []

abbrev anew : World
anew = record { client = keyed; conn = none; vault = [] }

abbrev app : App
app = record { world = done; dirty = true; online = true; cache = none }

go_offline-synced_example :
    go_offline devices (synced devices (ok true) iv done app).cache anew
    ≡ begun (record {
      world = record anew { vault = entry ∷ [] };
      dirty = false;
      online = false;
      cache = (synced devices (ok true) iv done app).cache;
    })
go_offline-synced_example =
    go_offline-synced devices unseal-seal length-seal iv done anew app refl refl encrypted
      cached_again refl
