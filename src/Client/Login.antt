-- ===== src/Client/Login.antt =====
-- Logging in, registering and refreshing a session: client-py/svpclient.py, lines 84 to 120 and 128
-- to 192.
pub mod Agreement
pub mod Completes
pub mod Accepted
pub mod Refused
use pus_proj.Common.{
  ℕ, false, not, Option, none, some, [], ◌∷◌, ◌++◌, length, take, leb, ◌==◌, if◌then◌else◌,
}
use pus_proj.Common.Results.{Result, ok, value_error}
use pus_proj.Common.Results
use pus_proj.Bytes.{Bytes}
use pus_proj.Text.{Text, encode_text}
use pus_proj.Client.Reader.{Read}
use pus_proj.Client.Reader
use pus_proj.Client.Cache.{vault_id_len}
use pus_proj.Client.Codes.{
  msg_hello, msg_challenge, msg_auth, msg_auth_ok, msg_register, msg_register_ok, flag_none,
  key_len, nonce_len,
}
use pus_proj.Client.Requests.{
  hello_payload, auth_name, login_payload, refresh_payload, register_payload,
}
use pus_proj.Client.Act.{
  ClientCrypto, Link, Act, pure, raise, lift, self, assign, set_conn, ◌>>=◌, ◌>>◌,
}
use pus_proj.Client.Session.{parse, send, expect}

-- What is read of a CHALLENGE: the nonce; the time behind it is skipped.
unfoldable pub challenge : Read Bytes
challenge = Reader.◌>>=◌ (Reader.raw nonce_len) λ nonce_s. Reader.◌>>=◌ Reader.remaining λ n.
    if leb 8 n
    then Reader.◌>>=◌ Reader.u64 (λ timestamp. Reader.pure nonce_s)
    else Reader.pure nonce_s

-- b"svp-mac", "svp-vault:" and "secvault-vault:"
abbrev pub mac_info : Bytes
mac_info = b's' ∷ b'v' ∷ b'p' ∷ b'-' ∷ b'm' ∷ b'a' ∷ b'c' ∷ []

abbrev pub vault_prefix : Text
vault_prefix = b's' ∷ b'v' ∷ b'p' ∷ b'-' ∷ b'v' ∷ b'a' ∷ b'u' ∷ b'l' ∷ b't' ∷ b':' ∷ []

abbrev pub salt_prefix : Text
salt_prefix =
    b's' ∷ b'e' ∷ b'c' ∷ b'v' ∷ b'a' ∷ b'u' ∷ b'l' ∷ b't' ∷ b'-' ∷ b'v' ∷ b'a' ∷ b'u' ∷ b'l' ∷ b't'
    ∷ b':' ∷ []

-- The message that the response to a challenge authenticates.
abbrev pub response_message : Bytes → Bytes → Bytes → Bytes
response_message nonce_c nonce_s login = nonce_c ++ (nonce_s ++ login)

-- connect; `answer` is what the constructor TlsConnection returned or raised.
unfoldable pub connect : Result Link → Act (Unit {0})
connect answer = do
  link ← lift answer
  set_conn (some link)
  assign (λ cl. record cl { k_mac = none })

module _ (c : ClientCrypto) where
  -- _do_challenge; `nonce` is what random_bytes returned, `now_ms` the time in milliseconds.
  unfoldable pub do_challenge : Bytes → ℕ → Act Bytes
  unfolding hello_payload send expect challenge
  do_challenge nonce now_ms = do
    assign (λ cl. record cl { nonce_c = nonce })
    cl ← self
    payload ← lift (hello_payload cl.nonce_c cl.client_id now_ms)
    send c msg_hello flag_none payload false
    ch ← expect c msg_challenge false
    parse challenge ch.payload

  -- _compute_kmac
  unfoldable pub compute_kmac : Act (Unit {0})
  compute_kmac =
      assign λ cl. record cl { k_mac = some (c.shared.hkdf cl.session_token cl.nonce_c mac_info) }

  -- The identifier of the vault that a login has by default.
  unfoldable pub default_vault_id : Text → Result Bytes
  default_vault_id login_name =
      Results.◌>>=◌ (encode_text (vault_prefix ++ login_name))
        λ b. ok (take vault_id_len (c.sha256 b))

  -- `if not self.vault_id`
  unfoldable pub keep_vault_id : Bytes → Act (Unit {0})
  unfolding default_vault_id
  keep_vault_id [] = do
    cl ← self
    id ← lift (default_vault_id cl.login_name)
    assign (λ cl. record cl { vault_id = id })
  keep_vault_id (b ∷ bs) = pure tt

  -- _parse_auth_ok: an attribute is assigned before the next field is read.
  unfoldable pub parse_auth_ok : Bytes → Act (Unit {0})
  unfolding keep_vault_id
  parse_auth_ok payload = do
    (session_token, r) ← lift (Reader.lpbytes (Reader.reader payload))
    assign (λ cl. record cl { session_token = session_token })
    (token_expiry, r) ← lift (Reader.u64 r)
    assign (λ cl. record cl { token_expiry = token_expiry })
    (vault_version, r) ← lift (Reader.u64 r)
    assign (λ cl. record cl { vault_version = vault_version })
    cl ← self
    keep_vault_id cl.vault_id

  -- derive_keys
  unfoldable pub derive_keys : Text → Text → Act (Unit {0})
  derive_keys login password = do
    assign (λ cl. record cl { login_name = login })
    l ← lift (encode_text login)
    p ← lift (encode_text password)
    assign (λ cl. record cl { k_auth = c.pbkdf2 p (c.sha256 l) })
    s ← lift (encode_text (salt_prefix ++ login))
    p ← lift (encode_text password)
    assign (λ cl. record cl { k_vault = c.pbkdf2 p (c.sha256 s) })

  -- Sending an AUTH and taking its answer, which ends login and refresh_session.
  unfoldable pub authenticate_with : Bytes → Act (Unit {0})
  unfolding send expect parse_auth_ok compute_kmac
  authenticate_with payload = do
    send c msg_auth flag_none payload false
    ok_frame ← expect c msg_auth_ok false
    parse_auth_ok ok_frame.payload
    compute_kmac

  -- login
  unfoldable pub login : Bytes → ℕ → Option ℕ → Act (Unit {0})
  unfolding do_challenge auth_name login_payload authenticate_with
  login nonce now_ms totp_code = do
    nonce_s ← do_challenge nonce now_ms
    cl ← self
    name ← lift (encode_text cl.login_name)
    let hmac_resp = c.shared.hmac cl.k_auth (response_message cl.nonce_c nonce_s name)
    username ← lift (auth_name cl.login_name)
    payload ← lift (login_payload username hmac_resp totp_code)
    authenticate_with payload

  -- register_account
  unfoldable pub register_account : Act (Unit {0})
  unfolding register_payload send expect
  register_account = do
    cl ← self
    payload ← lift (register_payload cl.login_name cl.k_auth)
    send c msg_register flag_none payload false
    ok_frame ← expect c msg_register_ok false
    id ← parse (Reader.raw vault_id_len) ok_frame.payload
    assign (λ cl. record cl { vault_id = id; vault_version = 0 })

  -- refresh_session
  unfoldable pub refresh_session : Bytes → ℕ → Act (Unit {0})
  unfolding do_challenge auth_name refresh_payload authenticate_with
  refresh_session nonce now_ms = do
    nonce_s ← do_challenge nonce now_ms
    cl ← self
    username ← lift (auth_name cl.login_name)
    if not (length cl.session_token == key_len) then raise value_error else (do
      payload ← lift (refresh_payload username cl.session_token)
      authenticate_with payload)
