-- ===== src/Client/Login/Accepted.antt =====
-- The login of client-py/svpclient.py as the server of server-py/server.py checks it.
use pus_proj.Common.{ℕ, ◌≤◌, ◌≡◌, refl, true, Option, some, length}
use pus_proj.Common.Results.{ok}
use pus_proj.Bytes.{Bytes, bytes_eq_refl}
use pus_proj.Text.{Text, encode_text}
use pus_proj.Server.Protocol.{hmac_len}
use pus_proj.Server.Database.{User}
use pus_proj.Server.Payloads.{Auth, parse_auth}
use pus_proj.Server.Connection.{Conn, Crypto, ◌>>=◌}
use pus_proj.Server.Handler.Environment.{Env}
use pus_proj.Server.Handler.Login.{totp_check, password_check, authenticate}
use pus_proj.Client.Requests.{login_payload}
use pus_proj.Client.Requests.Auths.{with_totp, parse_auth-login_payload}
use pus_proj.Client.Login.{response_message}

-- The server reads the AUTH of a login and finds the user by it: when the key that it has stored
-- for the user is the client's, both have the same nonces, digests have 32 bytes, the name takes 1
-- to 64 bytes, and the second factor, if the user has one, is verified, the login is accepted as
-- that user.
pub authenticate-login_payload :
    (c : Crypto) (env : Env) (login_name : Text) (nonce_c nonce_s client_id k_auth : Bytes)
    (totp_code : Option ℕ) (user : User) (x : Conn) {username payload : Bytes}
    → ((k m : Bytes) → length (c.hmac k m) ≡ hmac_len)
    → encode_text login_name ≡ ok username
    → 1 ≤ length username
    → length username ≤ 64
    → user.k_auth ≡ some k_auth
    → let resp = c.hmac k_auth (response_message nonce_c nonce_s username) in
      totp_check c env user.totp_secret (with_totp login_name resp totp_code) ≡ true
      → login_payload username resp totp_code ≡ ok payload
      → (auth : Auth) × (parse_auth payload ≡ ok auth)
        × (auth.username ≡ login_name)
        × (authenticate c env nonce_c nonce_s client_id auth (some user) x ≡ (ok (some user.id), x))
unfolding authenticate password_check ◌>>=◌
authenticate-login_payload c env login_name nonce_c nonce_s client_id k_auth totp_code user x
      {username} hmac_length encoded some_name short stored second h =
    let resp = c.hmac k_auth (response_message nonce_c nonce_s username) in
    (
      with_totp login_name resp totp_code,
      parse_auth-login_payload login_name resp encoded some_name short (hmac_length k_auth _)
          totp_code h,
      refl,
      rw (encoded, stored, bytes_eq_refl resp, second) refl,
    )
