-- ===== src/Server/Handler/Credentials.antt =====
-- What the login of `handle_client` (server-py/server.py, lines 412 to 456) accepts as a proof of identity.
use pus_proj.Common.{
  ℕ, ◌<◌, ◌≡◌, ◌≢◌, refl, ap, ◌∙◌, ◌⊎◌, inl, inr, true, Option, none, some, ◌++◌, arith, ◌==◌,
  Bool-cases, Option-cases, ==→eq,
}
use pus_proj.Common.Results.{Result, ok, Result-cases}
use pus_proj.Bytes.{Bytes, bytes_eq, bytes_eq→eq}
use pus_proj.Text.{Text, encode_text}
use pus_proj.Server.Database.{Db, User, SessionRow, get_session}
use pus_proj.Server.Payloads.{Auth}
use pus_proj.Server.Connection.{Conn, Crypto, ◌>>=◌, pure}
use pus_proj.Server.Connection.Sound.{bind_inv}
use pus_proj.Server.Handler.Environment.{Env}
use pus_proj.Server.Handler.Login.{
  or_zero, or_empty, totp_text, totp_check, refresh_check, password_check, refresh_row,
  authenticate,
}

-- The code of the second factor that a user with a secret has sent, and that was verified.
abbrev pub SecondFactor : Env → Option Text → Auth → Type 0
SecondFactor env none auth = Unit
SecondFactor env (some secret) auth =
    (code : ℕ) × (auth.totp_present ≡ 1)
    × (auth.totp_code ≡ some code)
    × (env.totp_verify secret (totp_text code) ≡ true)

-- A right answer to the challenge, made with the key of the user, and the second factor.
pub record ByPassword (c : Crypto) (env : Env) (nonce_c nonce_s : Bytes) (auth : Auth) (user : User)
    : Type 0 where
  pub fresh : auth.token_refresh ≢ 1
  pub name : Bytes
  pub encoded : encode_text auth.username ≡ ok name
  pub k_auth : Bytes
  pub stored : user.k_auth ≡ some k_auth
  pub answer : auth.hmac_resp ≡ c.hmac k_auth (nonce_c ++ (nonce_s ++ name))
  pub second : SecondFactor env user.totp_secret auth

-- A token whose session in the database is unexpired and belongs to the user and the client.
pub record ByToken (env : Env) (client_id : Bytes) (auth : Auth) (user : User) (db : Db)
    : Type 0 where
  pub refresh : auth.token_refresh ≡ 1
  pub token : Bytes
  pub sent : auth.refresh_token ≡ some token
  pub row : SessionRow
  pub found : get_session token db ≡ some row
  pub unexpired : env.now_ms 0 < or_zero row.expiry
  pub owner : or_zero row.user_id ≡ user.id
  pub client : or_empty row.client_id ≡ client_id

totp_check_lem :
    (c : Crypto) (env : Env) (secret : Option Text) (auth : Auth)
    → totp_check c env secret auth ≡ true
    → SecondFactor env secret auth
unfolding totp_check
totp_check_lem c env none auth h = tt
totp_check_lem c env (some secret) auth h = ground arith

password_check_lem :
    (c : Crypto) (env : Env) (nonce_c nonce_s : Bytes) (auth : Auth) (name : Bytes)
    (o : Option User) {uid : ℕ}
    → password_check c env nonce_c nonce_s auth name o ≡ some uid
    → (user : User) × (k : Bytes) × (o ≡ some user)
      × (user.id ≡ uid)
      × (user.k_auth ≡ some k)
      × (auth.hmac_resp ≡ c.hmac k (nonce_c ++ (nonce_s ++ name)))
      × SecondFactor env user.totp_secret auth
unfolding password_check
password_check_lem c env nonce_c nonce_s auth name none h = cc
password_check_lem c env nonce_c nonce_s auth name (some user) h = elim (Option-cases user.k_auth) [
  | inl e ↦ ground arith
  | inr (k, e) ↦
      let same : bytes_eq auth.hmac_resp (c.hmac k (nonce_c ++ (nonce_s ++ name))) ≡ true =
        ground arith in
      let second : totp_check c env user.totp_secret auth ≡ true = ground arith in
      (
        user,
        k,
        refl,
        ground arith,
        e,
        bytes_eq→eq _ _ same,
        totp_check_lem c env user.totp_secret auth second,
      )
]

refresh_check_lem :
    (now : ℕ) (client_id : Bytes) (o : Option User) (r : Option SessionRow) {uid : ℕ}
    → refresh_check now client_id o r ≡ some uid
    → (user : User) × (row : SessionRow) × (o ≡ some user)
      × (r ≡ some row)
      × (user.id ≡ uid)
      × (now < or_zero row.expiry)
      × (or_zero row.user_id ≡ user.id)
      × (or_empty row.client_id ≡ client_id)
unfolding refresh_check
refresh_check_lem now client_id none r h = cc
refresh_check_lem now client_id (some user) none h = cc
refresh_check_lem now client_id (some user) (some row) h =
    let same : bytes_eq (or_empty row.client_id) client_id ≡ true = ground arith in
    (user, row, refl, refl, ground arith, ground arith, ground arith, bytes_eq→eq _ _ same)

module _ (c : Crypto) (env : Env) where
  refresh_row_lem :
      (o : Option User) (token : Option Bytes) (x : Conn) {row : SessionRow}
      → (refresh_row c env o token x).0 ≡ ok (some row)
      → (t : Bytes) × (token ≡ some t) × (get_session t (env.others 1 x.db) ≡ some row)
  unfolding refresh_row ◌>>=◌
  refresh_row_lem none token x h = cc
  refresh_row_lem (some user) none x h = cc
  refresh_row_lem (some user) (some t) x h = (t, refl, ground arith)

  pub authenticate_lem :
      (nonce_c nonce_s client_id : Bytes) (auth : Auth) (o : Option User) (x : Conn) {uid : ℕ}
      → (authenticate c env nonce_c nonce_s client_id auth o x).0 ≡ ok (some uid)
      → (user : User) × (o ≡ some user)
        × (user.id ≡ uid)
        × (ByPassword c env nonce_c nonce_s auth user
            ⊎ ByToken env client_id auth user (env.others 1 x.db))
  unfolding authenticate ◌>>=◌
  authenticate_lem nonce_c nonce_s client_id auth o x {uid} h =
      elim (Bool-cases (auth.token_refresh == 1)) [
        | inl refresh ↦
            let q = rw refresh at h in
            let (row, p, e) =
              bind_inv (refresh_row c env o auth.refresh_token)
                (λ r. pure (refresh_check (env.now_ms 0) client_id o r)) x q in
            let returned = ap (λ (r : Result (Option ℕ) × Conn). r.0) e in
            let chk : refresh_check (env.now_ms 0) client_id o row ≡ some uid = cc (returned, q) in
            let (user, found, known, there, who, unexpired, owner, client) =
              refresh_check_lem (env.now_ms 0) client_id o row chk in
            let (token, sent, stored) = refresh_row_lem o auth.refresh_token x (p ∙ ap ok there) in
            (
              user,
              known,
              who,
              inr (record {
                refresh = ==→eq _ _ refresh;
                token = token;
                sent = sent;
                row = found;
                found = stored;
                unexpired = unexpired;
                owner = owner;
                client = client;
              }),
            )
        | inr fresh ↦ elim (Result-cases (encode_text auth.username)) [
          | inl (name, p) ↦
              let chk : password_check c env nonce_c nonce_s auth name o ≡ some uid =
                ground arith in
              let (user, k, known, who, stored, answer, second) =
                password_check_lem c env nonce_c nonce_s auth name o chk in
              (
                user,
                known,
                who,
                inl (record {
                  fresh = λ e. ground arith;
                  name = name;
                  encoded = p;
                  k_auth = k;
                  stored = stored;
                  answer = answer;
                  second = second;
                }),
              )
          | inr (e, p) ↦ ground arith
        ]
      ]
