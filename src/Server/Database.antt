-- ===== src/Server/Database.antt =====
-- server-py/database.py: the three tables and the statements of DatabaseManager. Each statement
-- is one atomic step on the whole database. Integer columns hold naturals here; a nullable column
-- is an Option, and a comparison with NULL does not hold.
pub mod Laws
pub mod History
pub mod Keys
pub mod Integrity
use pus_proj.Common.{
  ℕ, zero, suc, ◌+◌, ◌^◌, ◌≡◌, Bool, true, false, ◌&&◌, ◌||◌, Option, none, some, List, [], ◌∷◌,
  ◌++◌, ltb, ◌==◌, if◌then◌else◌,
}
use pus_proj.Common.Results.{Result, ok, err, overflow_error, integrity_error}
use pus_proj.Bytes.{Bytes, bytes_eq}
use Prim.Native.Nat.{max}

pub record User : Type 0 where
  pub id : ℕ
  pub username : Option (List ℕ)
  pub k_auth : Option Bytes
  pub totp_secret : Option (List ℕ)

pub record VaultRow : Type 0 where
  pub id : Bytes
  pub user_id : Option ℕ
  pub version : Option ℕ
  pub blob : Option Bytes
  pub ts : Option ℕ

pub record SessionRow : Type 0 where
  pub token : Bytes
  pub user_id : Option ℕ
  pub expiry : Option ℕ
  pub client_id : Option Bytes

pub record Db : Type 0 where
  pub users : List User
  pub vaults : List VaultRow
  pub sessions : List SessionRow

-- init_db: the tables of a new file are empty, those of an old one stay as they are.
abbrev pub empty_db : Db
empty_db = record { users = []; vaults = []; sessions = [] }

-- fetchone() of a SELECT with a WHERE clause
unfoldable pub fetch_one {ℓ} : {A : Type ℓ} → (A → Bool) → List A → Option A
fetch_one p [] = none
fetch_one p (x ∷ xs) = if p x then some x else fetch_one p xs

-- `column = ?` for a number and for a text
abbrev pub is_num : Option ℕ → ℕ → Bool
is_num none n = false
is_num (some m) n = m == n

abbrev pub is_text : Option (List ℕ) → List ℕ → Bool
is_text none s = false
is_text (some t) s = bytes_eq t s

unfoldable pub get_user_by_username : List ℕ → Db → Option User
get_user_by_username username db = fetch_one (λ u. is_text u.username username) db.users

unfoldable pub get_session : Bytes → Db → Option SessionRow
get_session token db = fetch_one (λ r. bytes_eq r.token token) db.sessions

unfoldable pub get_vault : Bytes → Db → Option VaultRow
get_vault vault_id db = fetch_one (λ r. bytes_eq r.id vault_id) db.vaults

-- The parent row that FOREIGN KEY(user_id) REFERENCES users(id) wants.
unfoldable pub has_user : ℕ → List User → Bool
has_user n [] = false
has_user n (u ∷ us) = u.id == n || has_user n us

abbrev pub int64_limit : ℕ
int64_limit = 2 ^ 63

pub max_id : List User → ℕ
max_id [] = 0
max_id (u ∷ us) = max u.id (max_id us)

-- `INSERT INTO users`: the id is the largest one plus one; a second row with the same name is
-- refused by UNIQUE.
unfoldable pub create_user : List ℕ → Bytes → Db → Result ℕ × Db
unfolding max_id get_user_by_username fetch_one
create_user username k_auth db = elim (get_user_by_username username db) [
  | some u ↦ (err integrity_error, db)
  | none ↦
      let new = suc (max_id db.users) in
      let row : User = record {
        id = new;
        username = some username;
        k_auth = some k_auth;
        totp_secret = none;
      } in
      (ok new, record db { users = db.users ++ (row ∷ []) })
]

-- `INSERT INTO sessions`: sqlite3 refuses an integer beyond 64 bits, PRIMARY KEY a second row for
-- the token, FOREIGN KEY a user that is not there.
unfoldable pub create_session : Bytes → ℕ → ℕ → Bytes → Db → Result (Unit {0}) × Db
unfolding get_session fetch_one has_user
create_session token user_id expiry client_id db =
    if ltb user_id int64_limit && ltb expiry int64_limit
    then elim (get_session token db) [
      | some r ↦ (err integrity_error, db)
      | none ↦
          let row : SessionRow = record {
            token = token;
            user_id = some user_id;
            expiry = some expiry;
            client_id = some client_id;
          } in
          if has_user user_id db.users
          then (ok tt, record db { sessions = db.sessions ++ (row ∷ []) })
          else (err integrity_error, db)
    ]
    else (err overflow_error, db)

-- The row under its primary key, new or in place of the old one.
unfoldable pub put_row : VaultRow → List VaultRow → List VaultRow
put_row row [] = row ∷ []
put_row row (r ∷ rs) = if bytes_eq r.id row.id then row ∷ rs else r ∷ put_row row rs

-- The WHERE clause of the upsert:
-- vaults.user_id = excluded.user_id AND vaults.version = excluded.version - 1
unfoldable pub may_update : VaultRow → ℕ → ℕ → Bool
may_update r user_id version =
    is_num r.user_id user_id && elim r.version [ none ↦ false | some v ↦ v + 1 == version ]

-- update_vault; the result is `affected_rows > 0`. Versions are naturals, so the ValueError of a
-- negative one does not arise.
unfoldable pub update_vault : Bytes → ℕ → ℕ → Bytes → ℕ → Db → Result Bool × Db
unfolding get_vault fetch_one has_user put_row may_update
update_vault vault_id user_id version blob ts db =
    let row : VaultRow = record {
      id = vault_id;
      user_id = some user_id;
      version = some version;
      blob = some blob;
      ts = some ts;
    } in
    let stored : Db = record db { vaults = put_row row db.vaults } in
    if ltb user_id int64_limit && (ltb version int64_limit && ltb ts int64_limit)
    then elim (get_vault vault_id db) [
      | none ↦ if has_user user_id db.users then (ok true, stored) else (err integrity_error, db)
      | some r ↦ if may_update r user_id version then (ok true, stored) else (ok false, db)
    ]
    else (err overflow_error, db)
