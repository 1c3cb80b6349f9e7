-- ===== src/Server/Database/Laws.antt =====
-- The optimistic lock of `update_vault`, and what the statements leave alone.
use pus_proj.Common.{
  ℕ, ◌+◌, ◌<◌, ◌≡◌, ◌≢◌, ◌↔◌, ap, ◌∙◌, refl, ◌⊎◌, inl, inr, Bool, true, false, Option, none, some,
  List, [], ◌∷◌, if◌then◌else◌, arith, Option-cases, Bool-cases,
}
use pus_proj.Common.Results.{Result, ok, err}
use pus_proj.Bytes.{Bytes, bytes_eq, bytes_eq_iff}
use pus_proj.Server.Database.{
  VaultRow, Db, fetch_one, get_vault, put_row, may_update, update_vault, int64_limit, has_user,
}

abbrev pub succeeded : Result Bool → Bool
succeeded (ok b) = b
succeeded (err e) = false

pub succeeded→ok : (r : Result Bool) → succeeded r ≡ true → r ≡ ok true
succeeded→ok (ok b) h = ap ok h
succeeded→ok (err e) h = cc

abbrev has_id : Bytes → VaultRow → Bool
has_id j r = bytes_eq r.id j

-- A look-up after a row was put.
pub fetch-put_row :
    (row : VaultRow) (j : Bytes) (rows : List VaultRow)
    → fetch_one (has_id j) (put_row row rows)
      ≡ (if bytes_eq row.id j then some row else fetch_one (has_id j) rows)
unfolding fetch_one put_row
fetch-put_row row j [] = refl
fetch-put_row row j (r ∷ rows) = ground (
  arith,
  bytes_eq_iff r.id row.id,
  bytes_eq_iff r.id j,
  bytes_eq_iff row.id j,
  fetch-put_row row j rows,
)

-- The lock of one row: it is open to its owner, for the version behind the stored one.
abbrev pub IsOpen : Option VaultRow → ℕ → ℕ → Type 0
IsOpen none user_id version = Unit
IsOpen (some r) user_id version =
    (r.user_id ≡ some user_id) × ((v : ℕ) × (r.version ≡ some v) × (version ≡ v + 1))

may_update→IsOpen :
    (r : VaultRow) (uid version : ℕ) → may_update r uid version ≡ true → IsOpen (some r) uid version
unfolding may_update
may_update→IsOpen r uid version h = ground arith

IsOpen→may_update :
    (r : VaultRow) (uid version : ℕ) → IsOpen (some r) uid version → may_update r uid version ≡ true
unfolding may_update
IsOpen→may_update r uid version (p, (v, q, e)) = ground arith

module _ (vid : Bytes) (uid version : ℕ) (blob : Bytes) (ts : ℕ) (db : Db) where
  abbrev pub new_row : VaultRow
  new_row = record {
    id = vid;
    user_id = some uid;
    version = some version;
    blob = some blob;
    ts = some ts;
  }

  pub success_shape :
      (update_vault vid uid version blob ts db).0 ≡ ok true
      → IsOpen (get_vault vid db) uid version
        × ((update_vault vid uid version blob ts db).1
            ≡ record db { vaults = put_row new_row db.vaults })
  success_shape h = elim (Option-cases (get_vault vid db)) [
    | inl p ↦ (rw p tt, unfold update_vault in ground arith)
    | inr (r, p) ↦ (
      rw p (may_update→IsOpen r uid version (unfold update_vault in ground arith)),
      unfold update_vault in ground arith,
    )
  ]

  -- A successful update found the lock open, and from then on the row of that vault is the new
  -- one; every other vault, the users and the sessions are as before.
  pub update_vault-success :
      (update_vault vid uid version blob ts db).0 ≡ ok true
      → IsOpen (get_vault vid db) uid version
        × ((j : Bytes)
            → get_vault j (update_vault vid uid version blob ts db).1 ≡ (
                if bytes_eq vid j
                then some (record {
                  id = vid;
                  user_id = some uid;
                  version = some version;
                  blob = some blob;
                  ts = some ts;
                })
                else get_vault j db))
        × ((update_vault vid uid version blob ts db).1.users ≡ db.users)
        × ((update_vault vid uid version blob ts db).1.sessions ≡ db.sessions)
  update_vault-success h =
      let (open_lock, e) = success_shape h in
      (
        open_lock,
        λ j.
            unfold get_vault in
            (ap (λ (d : Db). fetch_one (has_id j) d.vaults) e ∙ fetch-put_row new_row j db.vaults),
        ap (λ (d : Db). d.users) e,
        ap (λ (d : Db). d.sessions) e,
      )

  -- An update that does not succeed, by a closed lock or an error of the database, changes nothing.
  pub update_vault-failure :
      (update_vault vid uid version blob ts db).0 ≢ ok true
      → (update_vault vid uid version blob ts db).1 ≡ db
  unfolding update_vault
  update_vault-failure h = ground arith

  -- With numbers in range and a user that exists, exactly an open lock lets an update succeed.
  pub update_vault_iff :
      uid < int64_limit
      → version < int64_limit
      → ts < int64_limit
      → has_user uid db.users ≡ true
      → ((update_vault vid uid version blob ts db).0 ≡ ok true)
        ↔ IsOpen (get_vault vid db) uid version
  update_vault_iff hu hv ht ok_user = (
    λ h. (success_shape h).0,
    λ o. elim (Option-cases (get_vault vid db)) [
      | inl p ↦ unfold update_vault in ground arith
      | inr (r, p) ↦
          let allowed = IsOpen→may_update r uid version (rw p at o) in
          unfold update_vault in ground arith
    ],
  )

  -- The two ways out of an update.
  pub update_vault_cases :
      ((update_vault vid uid version blob ts db).1 ≡ db)
      ⊎ (((update_vault vid uid version blob ts db).0 ≡ ok true)
          × ((update_vault vid uid version blob ts db).1
              ≡ record db { vaults = put_row new_row db.vaults }))
  update_vault_cases = elim (Bool-cases (succeeded (update_vault vid uid version blob ts db).0)) [
    | inl t ↦ let e = succeeded→ok _ t in inr (e, (success_shape e).1)
    | inr f ↦ inl (update_vault-failure (λ e. cc))
  ]
