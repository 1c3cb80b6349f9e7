-- ===== src/Server/Database/Integrity.antt =====
-- The foreign keys, the primary keys and the UNIQUE names of server-py/database.py.
use pus_proj.Common.{
  ◌⊎◌, subst, ℕ, suc, ◌≡◌, ◌≢◌, refl, inl, inr, Bool, true, ◌&&◌, Option, none, some, List, [], ◌∷◌,
  ◌++◌, arith, ltb, All, All-append, Option-cases, Bool-cases,
}
use pus_proj.Common.Results.{ok}
use pus_proj.Bytes.{Bytes}
use pus_proj.Server.Database.Keys.{
  AllPairs, OtherUser, All-map, AllPairs-append, All-put_row, AllPairs-put_row, other_names,
  other_tokens,
}
use pus_proj.Server.Database.Laws.{success_shape, new_row, update_vault_cases}
use pus_proj.Server.Database.{
  User, VaultRow, SessionRow, Db, has_user, get_user_by_username, get_session, get_vault,
  create_user, create_session, update_vault, max_id, fetch_one, int64_limit,
}

-- A foreign key is NULL or the id of a user.
abbrev pub Refers : List User → Option ℕ → Type 0
Refers users none = Unit
Refers users (some uid) = has_user uid users ≡ true

pub record IsConsistent (db : Db) : Type 0 where
  pub vaults : All (λ (r : VaultRow). Refers db.users r.user_id) db.vaults
  pub sessions : All (λ (r : SessionRow). Refers db.users r.user_id) db.sessions
  pub users_apart : AllPairs OtherUser db.users
  pub ids_apart : AllPairs (λ (r s : VaultRow). r.id ≢ s.id) db.vaults
  pub tokens_apart : AllPairs (λ (r s : SessionRow). r.token ≢ s.token) db.sessions

has_user-append : (n : ℕ) (us vs : List User) → has_user n us ≡ true → has_user n (us ++ vs) ≡ true
unfolding has_user
has_user-append n [] vs h = cc
has_user-append n (u ∷ us) vs h = ground (arith, has_user-append n us vs)

Refers-append : (us vs : List User) (o : Option ℕ) → Refers us o → Refers (us ++ vs) o
Refers-append us vs none h = tt
Refers-append us vs (some n) h = has_user-append n us vs h

fetch_one-All {ℓ} :
    {A : Type ℓ} (P : A → Type 0) (p : A → Bool) (xs : List A) {x : A}
    → All P xs
    → fetch_one p xs ≡ some x
    → P x
unfolding fetch_one
fetch_one-All P p [] h e = cc
fetch_one-All P p (y ∷ xs) {x} (h, hs) e = elim (Bool-cases (p y)) [
  | inl t ↦ let same : y ≡ x = ground arith in subst P same h
  | inr t ↦ fetch_one-All P p xs hs (ground arith)
]

-- What each statement leaves: the database as it was, or with one new row.
create_user_cases :
    (name : List ℕ) (key : Bytes) (db : Db)
    → ((create_user name key db).1 ≡ db)
      ⊎ ((u : User) × (u.id ≡ suc (max_id db.users))
          × (u.username ≡ some name)
          × (get_user_by_username name db ≡ none)
          × ((create_user name key db).1 ≡ record db { users = db.users ++ (u ∷ []) }))
unfolding create_user
create_user_cases name key db = elim (Option-cases (get_user_by_username name db)) [
  | inr (u, e) ↦ inl (ground arith)
  | inl e ↦ inr (
    record {
      id = suc (max_id db.users);
      username = some name;
      k_auth = some key;
      totp_secret = none;
    },
    refl,
    refl,
    e,
    ground arith,
  )
]

create_session_cases :
    (token : Bytes) (uid expiry : ℕ) (cid : Bytes) (db : Db)
    → ((create_session token uid expiry cid db).1 ≡ db)
      ⊎ ((r : SessionRow) × (r.user_id ≡ some uid)
          × (r.token ≡ token)
          × (get_session token db ≡ none)
          × (has_user uid db.users ≡ true)
          × ((create_session token uid expiry cid db).1
              ≡ record db { sessions = db.sessions ++ (r ∷ []) }))
unfolding create_session
create_session_cases token uid expiry cid db =
    elim (Bool-cases (ltb uid int64_limit && ltb expiry int64_limit)) [
      | inr big ↦ inl (ground arith)
      | inl fits ↦ elim (Option-cases (get_session token db)) [
        | inr (r, e) ↦ inl (ground arith)
        | inl e ↦ elim (Bool-cases (has_user uid db.users)) [
          | inr f ↦ inl (ground arith)
          | inl t ↦ inr (
            record {
              token = token;
              user_id = some uid;
              expiry = some expiry;
              client_id = some cid;
            },
            refl,
            refl,
            e,
            t,
            ground arith,
          )
        ]
      ]
    ]

update_vault_user :
    (vid : Bytes) (uid version : ℕ) (blob : Bytes) (ts : ℕ) {db : Db}
    → IsConsistent db
    → (update_vault vid uid version blob ts db).0 ≡ ok true
    → has_user uid db.users ≡ true
unfolding update_vault
update_vault_user vid uid version blob ts {db} h e = elim (Option-cases (get_vault vid db)) [
  | inl none_there ↦ ground arith
  | inr (r, found) ↦
      let owned : r.user_id ≡ some uid =
        (rw found at (success_shape vid uid version blob ts db e).0).0 in
      let refers : Refers db.users r.user_id =
        fetch_one-All (λ (r : VaultRow). Refers db.users r.user_id) _ db.vaults h.vaults
          (unfold get_vault in found) in
      rw owned at refers
]

pub create_user-IsConsistent :
    (name : List ℕ) (key : Bytes) {db : Db}
    → IsConsistent db
    → IsConsistent (create_user name key db).1
create_user-IsConsistent name key {db} h = elim (create_user_cases name key db) [
  | inl e ↦ rw e h
  | inr (u, i, n, fresh, e) ↦ rw e (record {
    vaults = All-map _ _ (λ r. Refers-append db.users _ r.user_id) db.vaults h.vaults;
    sessions = All-map _ _ (λ r. Refers-append db.users _ r.user_id) db.sessions h.sessions;
    users_apart = AllPairs-append _ db.users u h.users_apart (other_names db name u i n fresh);
    ids_apart = h.ids_apart;
    tokens_apart = h.tokens_apart;
  })
]

pub create_session-IsConsistent :
    (token : Bytes) (uid expiry : ℕ) (cid : Bytes) {db : Db}
    → IsConsistent db
    → IsConsistent (create_session token uid expiry cid db).1
create_session-IsConsistent token uid expiry cid {db} h =
    elim (create_session_cases token uid expiry cid db) [
      | inl e ↦ rw e h
      | inr (r, owner, t, fresh, there, e) ↦ rw e (record {
        vaults = h.vaults;
        sessions = All-append _ db.sessions (r ∷ []) h.sessions (rw owner there, tt);
        users_apart = h.users_apart;
        ids_apart = h.ids_apart;
        tokens_apart =
            AllPairs-append _ db.sessions r h.tokens_apart (other_tokens db token r t fresh);
      })
    ]

pub update_vault-IsConsistent :
    (vid : Bytes) (uid version : ℕ) (blob : Bytes) (ts : ℕ) {db : Db}
    → IsConsistent db
    → IsConsistent (update_vault vid uid version blob ts db).1
update_vault-IsConsistent vid uid version blob ts {db} h =
    elim (update_vault_cases vid uid version blob ts db) [
      | inl same ↦ rw same h
      | inr (success, e) ↦ rw e (record {
        vaults =
            All-put_row _ (new_row vid uid version blob ts db) db.vaults
              (update_vault_user vid uid version blob ts h success) h.vaults;
        sessions = h.sessions;
        users_apart = h.users_apart;
        ids_apart = AllPairs-put_row _ db.vaults h.ids_apart;
        tokens_apart = h.tokens_apart;
      })
    ]
