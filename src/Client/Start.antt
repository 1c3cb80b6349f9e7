-- ===== src/Client/Start.antt =====
-- The start of main in client-py/secvault.py, lines 197 to 239, behind the questions to the user.
pub mod Restart
use pus_proj.Common.{ℕ, Bool, true, false, Option, none, some, [], if◌then◌else◌}
use pus_proj.Common.Results.{Result, ok, err, Error, protocol_error}
use pus_proj.Common.Results
use pus_proj.Bytes.{Bytes}
use pus_proj.Text.{Text}
use pus_proj.Client.Vault.{Vault}
use pus_proj.Client.Vault.Parsing.{decrypt}
use pus_proj.Client.Cache.{Cached, save_cache, load_cache}
use pus_proj.Client.Act.{ClientCrypto, Link, World, Act, new_client, pure, lift, self, ◌>>=◌, ◌>>◌}
use pus_proj.Client.Login.{connect, derive_keys, login, register_account}
use pus_proj.Client.Exchange.{fetch_vault}
use pus_proj.Client.Sync.{set_vault}
use pus_proj.Client.Commands.{App}

-- What main has when the loop begins, or how it ended before: with `return 1`, or by an exception.
pub data Started : Type 0 where
  begun : App → Started
  returned_1 : Started
  raised : Error → Started

-- What comes from outside: the option --offline, what connecting leads to, whether the user wants a
-- new account, and the nonce and the time of the login.
pub record Opening : Type 0 where
  pub offline : Bool
  pub answer : Result Link
  pub new_account : Bool
  pub nonce : Bytes
  pub now_ms : ℕ

module _ (c : ClientCrypto) where
  -- The vault that was fetched is opened, and kept in the cache file.
  unfoldable pub keep_fetched : Text → Option Bytes → Option Bytes → Act (Option Bytes)
  unfolding decrypt set_vault save_cache
  keep_fetched login_name file none = pure file
  keep_fetched login_name file (some blob) = do
    cl ← self
    v ← lift (decrypt c.unseal blob cl.k_vault)
    set_vault (λ old. v)
    bytes ← lift (
        save_cache (record {
          login = login_name;
          vault_id = cl.vault_id;
          version = cl.vault_version;
          blob = blob;
        }))
    pure (some bytes)

  -- The body of the `try`, lines 201 to 218; the result is the content of the cache file.
  unfoldable pub go_online : Opening → Text → Option Bytes → Act (Option Bytes)
  unfolding connect register_account login fetch_vault keep_fetched
  go_online o login_name file = do
    connect o.answer
    (if o.new_account then register_account c else pure tt)
    login c o.nonce o.now_ms none
    fetched ← fetch_vault c
    keep_fetched login_name file fetched

  unfoldable pub with_cached : Result Vault → Option Bytes → World → Started
  with_cached (ok v) file x =
      begun (record { world = record x { vault = v }; dirty = false; online = false; cache = file })
  with_cached (err e) file x = returned_1

  unfoldable pub open_cached : Result (Option Cached) → Option Bytes → World → Started
  unfolding with_cached decrypt
  open_cached (err e) file x = raised e
  open_cached (ok none) file x = returned_1
  open_cached (ok (some cached)) file x =
      with_cached (decrypt c.unseal cached.blob x.client.k_vault) file x

  -- Lines 228 to 239.
  unfoldable pub go_offline : Option Bytes → World → Started
  unfolding open_cached load_cache
  go_offline file x = open_cached (load_cache file) file x

  -- Lines 218 to 226: how the `try` ended.
  unfoldable pub after_online : Option Bytes → Result (Option Bytes) → World → Started
  unfolding go_offline
  after_online file (ok file') x =
      begun (record { world = x; dirty = false; online = true; cache = file' })
  after_online file (err (protocol_error code)) x = returned_1
  after_online file (err e) x = go_offline file x

  unfoldable pub after_keys : Opening → Text → Option Bytes → Result (Unit {0}) → World → Started
  unfolding go_online after_online go_offline
  after_keys o login_name file (err e) x = raised e
  after_keys o login_name file (ok u) x =
      if o.offline
      then go_offline file x
      else after_online file (go_online o login_name file x).0 (go_online o login_name file x).1

  unfoldable pub begin_main : Opening → Bytes → Text → Text → Option Bytes → Started
  unfolding derive_keys after_keys
  begin_main o client_id login_name password file =
      let x : World = record { client = new_client client_id; conn = none; vault = [] } in
      let (r, y) = derive_keys c login_name password x in after_keys o login_name file r y
