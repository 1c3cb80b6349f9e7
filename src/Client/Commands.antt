-- ===== src/Client/Commands.antt =====
-- The commands of client-py/secvault.py, lines 268 to 349, that change the vault or talk to the
-- server, behind the parsing of the line. What the user types in and what comes from the clock, from
-- random_bytes and from connecting is the data of a command.
pub mod Runs
use pus_proj.Common.{ℕ, Bool, true, false, not, ◌&&◌, Option, none, some, [], ◌∷◌, if◌then◌else◌}
use pus_proj.Common.Results.{Result, ok, err}
use pus_proj.Common.Results
use pus_proj.Bytes.{Bytes}
use pus_proj.Text.{Text}
use pus_proj.Client.Vault.{Entry, Vault, text_eq, find_by_service, find_by_id, add, remove, or_else}
use pus_proj.Client.Vault.Plaintext.{encrypt}
use pus_proj.Client.Cache.{save_cache}
use pus_proj.Client.Codes.{bye_normal}
use pus_proj.Client.Act.{ClientCrypto, World}
use pus_proj.Client.Upkeep.{Outside, ensure_session, bye}
use pus_proj.Client.Sync.{do_sync, pull}

-- The local variables of main, and the content of the cache file.
pub record App : Type 0 where
  pub world : World
  pub dirty : Bool
  pub online : Bool
  pub cache : Option Bytes

pub data Command : Type 0 where
  add_entry : Bytes → ℕ → Text → Text → Text → Text → Command
  edit_entry : Text → Text → Text → Text → ℕ → Command
  remove_entry : Text → Command
  sync_now : Outside → Bytes → Bytes → Bytes → Bytes → Command
  pull_now ping_now : Outside → Command

-- The assignments of `edit` to the entry that was found.
abbrev pub edited : Text → Text → Text → ℕ → Entry → Entry
edited u pw n now e = record e {
  username = or_else u e.username;
  password = or_else pw e.password;
  notes = or_else n e.notes;
  updated_at = now;
}

-- The entries with the first one of a service, or of an id, changed.
unfoldable pub change_service : Text → (Entry → Entry) → Vault → Vault
change_service key f [] = []
change_service key f (e ∷ entries) =
    if text_eq e.service key then f e ∷ entries else e ∷ change_service key f entries

unfoldable pub change_id : Text → (Entry → Entry) → Vault → Vault
change_id key f [] = []
change_id key f (e ∷ entries) =
    if text_eq e.id key then f e ∷ entries else e ∷ change_id key f entries

-- What `edit` does to the vault and to `dirty`: the entry is the one that `find` returns.
unfoldable pub edit_found :
    Option Entry → Option Entry → Text → (Entry → Entry) → Bool → Vault → Vault × Bool
unfolding change_service change_id
edit_found (some e) other key f dirty v = (change_service key f v, true)
edit_found none (some e) key f dirty v = (change_id key f v, true)
edit_found none none key f dirty v = (v, dirty)

unfoldable pub edit : Text → (Entry → Entry) → Bool → Vault → Vault × Bool
unfolding edit_found find_by_service find_by_id
edit key f dirty v = edit_found (find_by_service key v) (find_by_id key v) key f dirty v

abbrev pub with_vault : Vault → App → App
with_vault v a = record a { world = record a.world { vault = v } }

module _ (c : ClientCrypto) where
  -- save_cache behind a sync, with a new encryption; an exception leaves the file.
  unfoldable pub cache_after : Bytes → World → Option Bytes → Option Bytes
  unfolding encrypt save_cache
  cache_after iv x file =
      elim (Results.◌>>=◌ (encrypt c.seal x.client.k_vault iv x.vault) λ blob. save_cache (record {
        login = x.client.login_name;
        vault_id = x.client.vault_id;
        version = x.client.vault_version;
        blob = blob;
      })) [ ok bytes ↦ some bytes | err e ↦ file ]

  unfoldable pub synced : Result Bool → Bytes → World → App → App
  unfolding cache_after
  synced (ok true) iv x a = record a { world = x; dirty = false; cache = cache_after iv x a.cache }
  synced _ iv x a = record a { world = x }

  -- One round of the loop of main.
  unfoldable pub run : Command → App → App
  unfolding edit add remove synced do_sync pull ensure_session
  run (add_entry random now service username pw notes) a =
      record (with_vault (add random now service username pw notes a.world.vault) a) {
        dirty = true;
      }
  run (edit_entry key u pw n now) a =
      let (v, dirty) = edit key (edited u pw n now) a.dirty a.world.vault in
      record (with_vault v a) { dirty = dirty }
  run (remove_entry key) a =
      let (found, v) = remove key a.world.vault in
      record (with_vault v a) { dirty = if found then true else a.dirty }
  run (sync_now o iv1 iv2 iv3 iv4) a =
      if not a.online then a else (let (r, x) = do_sync c o iv1 iv2 iv3 a.world in synced r iv4 x a)
  run (pull_now o) a = if not a.online then a else record a { world = (pull c o a.world).1 }
  run (ping_now o) a =
      if not a.online then a else record a { world = (ensure_session c o a.world).1 }

  -- The end of main: changes are sent, and the server is told.
  unfoldable pub quit : Outside → Bytes → Bytes → Bytes → App → App
  unfolding do_sync bye
  quit o iv1 iv2 iv3 a =
      let x = (if a.online && a.dirty then (do_sync c o iv1 iv2 iv3 a.world).1 else a.world) in
      record a { world = if a.online then (bye c bye_normal x).1 else x }
