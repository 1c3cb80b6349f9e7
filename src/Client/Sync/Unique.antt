-- ===== src/Client/Sync/Unique.antt =====
-- The ids of the entries in do_sync of client-py/secvault.py.
use pus_proj.Common.{
  ℕ, Bool, true, false, Option, none, some, List, [], ◌∷◌, inl, inr, if◌then◌else◌,
}
use pus_proj.Common.Results.{Result, Error, protocol_error, Result-cases}
use pus_proj.Bytes.{Bytes}
use pus_proj.Client.Vault.{Vault, merge_from}
use pus_proj.Client.Vault.Dict.{UniqueIds}
use pus_proj.Client.Vault.Merge.{merge_from-UniqueIds}
use pus_proj.Client.Act.{ClientCrypto, World, Act, pure, raise, lift, self, attempt, ◌>>=◌}
use pus_proj.Client.Exchange.{fetch_vault, put_vault}
use pus_proj.Client.Upkeep.{Outside, ensure_session}
use pus_proj.Client.Sync.{
  vault_now, set_vault, merge_fetched, fetch_and_merge, resolve, sync_round, sync_rounds, do_sync,
  pull,
}
use pus_proj.Client.Sync.Keeps.{Keeps}
use pus_proj.Client.Sync.Sessions.{Keeps-fetch_vault, Keeps-put_vault, Keeps-ensure_session}

-- An action that keeps the ids of the vault unique.
record KeepsUnique {ℓ} {A : Type ℓ} (m : Act A) : Type ℓ where
  unique : (x : World) → UniqueIds x.vault → UniqueIds (m x).1.vault

KeepsUnique-bind {ℓ κ} :
    {A : Type ℓ} {B : Type κ} (m : Act A) (f : A → Act B)
    → KeepsUnique m
    → ((a : A) → KeepsUnique (f a))
    → KeepsUnique (m >>= f)
unfolding ◌>>=◌
KeepsUnique-bind m f p q = record {
  unique = λ x u. elim (Result-cases (m x).0) [
    | inl (a, e) ↦ rw e ((q a).unique (m x).1 (p.unique x u))
    | inr (b, e) ↦ rw e (p.unique x u)
  ];
}

module _ {ℓ} {A : Type ℓ} where
  KeepsUnique-Keeps : (m : Act A) → Keeps m → KeepsUnique m
  KeepsUnique-Keeps m p = record { unique = λ x u. rw (p.kept x).same_vault u }

  KeepsUnique-attempt :
      (m : Act A) (handler : Error → Act A)
      → KeepsUnique m
      → ((e : Error) → KeepsUnique (handler e))
      → KeepsUnique (attempt m handler)
  unfolding attempt
  KeepsUnique-attempt m handler p q = record {
    unique = λ x u. elim (Result-cases (m x).0) [
      | inl (a, e) ↦ rw e (p.unique x u)
      | inr (b, e) ↦ rw e ((q b).unique (m x).1 (p.unique x u))
    ];
  }

  KeepsUnique-if :
      (b : Bool) (m n : Act A) → KeepsUnique m → KeepsUnique n → KeepsUnique (if b then m else n)
  KeepsUnique-if true m n p q = p
  KeepsUnique-if false m n p q = q

  KeepsUnique-pure : (a : A) → KeepsUnique (pure a)
  unfolding pure
  KeepsUnique-pure a = record { unique = λ x u. u }

  KeepsUnique-raise : (e : Error) → KeepsUnique (raise {A = A} e)
  unfolding raise
  KeepsUnique-raise e = record { unique = λ x u. u }

  KeepsUnique-lift : (r : Result A) → KeepsUnique (lift r)
  unfolding lift
  KeepsUnique-lift r = record { unique = λ x u. u }

KeepsUnique-self : KeepsUnique self
unfolding self
KeepsUnique-self = record { unique = λ x u. u }

KeepsUnique-vault_now : KeepsUnique vault_now
unfolding vault_now
KeepsUnique-vault_now = record { unique = λ x u. u }

KeepsUnique-set_vault : (srv : Vault) → KeepsUnique (set_vault (λ v. (merge_from srv v).0))
unfolding set_vault
KeepsUnique-set_vault srv = record { unique = λ x u. merge_from-UniqueIds srv x.vault }

ruleset unique_rules = (
  KeepsUnique-bind, KeepsUnique-attempt, KeepsUnique-if, KeepsUnique-pure, KeepsUnique-raise,
  KeepsUnique-lift, KeepsUnique-self, KeepsUnique-vault_now, KeepsUnique-set_vault,
)

module _ (c : ClientCrypto) where
  KeepsUnique-merge_fetched : (o : Option Bytes) → KeepsUnique (merge_fetched c o)
  unfolding merge_fetched
  KeepsUnique-merge_fetched none = KeepsUnique-pure false
  KeepsUnique-merge_fetched (some blob) = search unique_rules depth 20

  KeepsUnique-fetch_and_merge : KeepsUnique (fetch_and_merge c)
  unfolding fetch_and_merge
  KeepsUnique-fetch_and_merge =
      KeepsUnique-bind (fetch_vault c) (merge_fetched c)
        (KeepsUnique-Keeps (fetch_vault c) (Keeps-fetch_vault c)) KeepsUnique-merge_fetched

  KeepsUnique-resolve : (e : Error) → KeepsUnique (resolve c e)
  unfolding resolve
  KeepsUnique-resolve (protocol_error code) =
      search (unique_rules, KeepsUnique-fetch_and_merge) depth 20
  KeepsUnique-resolve e = search unique_rules

  KeepsUnique-put_vault : (blob : Bytes) (n : ℕ) → KeepsUnique (put_vault c blob n)
  KeepsUnique-put_vault blob n = KeepsUnique-Keeps (put_vault c blob n) (Keeps-put_vault c blob n)

  KeepsUnique-sync_round : (iv : Bytes) → KeepsUnique (sync_round c iv)
  unfolding sync_round
  KeepsUnique-sync_round iv =
      search (unique_rules, KeepsUnique-put_vault, KeepsUnique-resolve) depth 20

  KeepsUnique-sync_rounds : (ivs : List Bytes) → KeepsUnique (sync_rounds c ivs)
  unfolding sync_rounds
  KeepsUnique-sync_rounds [] = KeepsUnique-pure false
  KeepsUnique-sync_rounds (iv ∷ ivs) =
      KeepsUnique-bind (sync_round c iv) (λ sent. if sent then pure true else sync_rounds c ivs)
        (KeepsUnique-sync_round iv)
        (λ sent.
          KeepsUnique-if sent (pure true) (sync_rounds c ivs) (KeepsUnique-pure true)
            (KeepsUnique-sync_rounds ivs))

  -- A vault whose ids are distinct has distinct ids after do_sync, whether it returns True or False or
  -- raises, and whatever vaults the server sends.
  pub do_sync-UniqueIds :
      (o : Outside) (iv1 iv2 iv3 : Bytes) (x : World)
      → UniqueIds x.vault
      → UniqueIds (do_sync c o iv1 iv2 iv3 x).1.vault
  unfolding do_sync
  do_sync-UniqueIds o iv1 iv2 iv3 x u =
      (KeepsUnique-bind (ensure_session c o) (λ a. sync_rounds c (iv1 ∷ iv2 ∷ iv3 ∷ []))
          (KeepsUnique-Keeps (ensure_session c o) (Keeps-ensure_session c o))
          (λ a. KeepsUnique-sync_rounds (iv1 ∷ iv2 ∷ iv3 ∷ []))).unique
        x u

  -- So it has after a pull.
  pub pull-UniqueIds :
      (o : Outside) (x : World) → UniqueIds x.vault → UniqueIds (pull c o x).1.vault
  unfolding pull
  pull-UniqueIds o x u =
      (KeepsUnique-bind (ensure_session c o) (λ a. fetch_and_merge c)
          (KeepsUnique-Keeps (ensure_session c o) (Keeps-ensure_session c o))
          (λ a. KeepsUnique-fetch_and_merge)).unique
        x u
