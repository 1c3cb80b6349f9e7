-- ===== src/Client/Sync.antt =====
-- do_sync and the command pull of client-py/secvault.py.
pub mod Keeps
pub mod Sessions
pub mod Outcome
pub mod Unique
use pus_proj.Common.{Bool, true, false, Option, none, some, List, [], ◌∷◌, ◌==◌, if◌then◌else◌}
use pus_proj.Common.Results.{ok, Error, protocol_error}
use pus_proj.Bytes.{Bytes}
use pus_proj.Client.Vault.{Vault, merge_from}
use pus_proj.Client.Vault.Plaintext.{encrypt}
use pus_proj.Client.Vault.Parsing.{decrypt}
use pus_proj.Client.Codes.{err_conflict}
use pus_proj.Client.Act.{ClientCrypto, Act, pure, raise, lift, self, attempt, ◌>>=◌, ◌>>◌}
use pus_proj.Client.Exchange.{fetch_vault, put_vault}
use pus_proj.Client.Upkeep.{Outside, ensure_session}

-- The vault of the command line.
unfoldable pub vault_now : Act Vault
vault_now x = (ok x.vault, x)

unfoldable pub set_vault : (Vault → Vault) → Act (Unit {0})
set_vault f x = (ok tt, record x { vault = f x.vault })

module _ (c : ClientCrypto) where
  -- What is fetched is decrypted and merged into the vault; whether the server has a vault.
  unfoldable pub merge_fetched : Option Bytes → Act Bool
  unfolding decrypt set_vault merge_from
  merge_fetched none = pure false
  merge_fetched (some blob) = do
    cl ← self
    srv ← lift (decrypt c.unseal blob cl.k_vault)
    set_vault (λ v. (merge_from srv v).0)
    pure true

  unfoldable pub fetch_and_merge : Act Bool
  unfolding fetch_vault merge_fetched
  fetch_and_merge = do fetched ← fetch_vault c; merge_fetched fetched

  -- `except ProtocolError as e` in do_sync: False is `continue`.
  unfoldable pub resolve : Error → Act Bool
  unfolding fetch_and_merge
  resolve (protocol_error code) =
      if code == err_conflict then (do fetch_and_merge; pure false) else raise (protocol_error code)
  resolve e = raise e

  -- One round: True is `return True`.
  unfoldable pub sync_round : Bytes → Act Bool
  unfolding vault_now encrypt put_vault resolve
  sync_round iv = do
    v ← vault_now
    cl ← self
    blob ← lift (encrypt c.seal cl.k_vault iv v)
    attempt (do put_vault c blob cl.vault_version; pure true) resolve

  -- The rounds, one for each nonce that random_bytes returns.
  unfoldable pub sync_rounds : List Bytes → Act Bool
  unfolding sync_round
  sync_rounds [] = pure false
  sync_rounds (iv ∷ ivs) = do sent ← sync_round iv; if sent then pure true else sync_rounds ivs

  -- do_sync
  unfoldable pub do_sync : Outside → Bytes → Bytes → Bytes → Act Bool
  unfolding ensure_session sync_rounds
  do_sync o iv1 iv2 iv3 = do ensure_session c o; sync_rounds (iv1 ∷ iv2 ∷ iv3 ∷ [])

  -- pull: the body of its `try`.
  unfoldable pub pull : Outside → Act Bool
  unfolding ensure_session fetch_and_merge
  pull o = do ensure_session c o; fetch_and_merge
