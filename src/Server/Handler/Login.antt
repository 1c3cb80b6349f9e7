-- ===== src/Server/Handler/Login.antt =====
-- The states GREETING and AUTHENTICATING of `handle_client` (server-py/server.py).
use pus_proj.Common.{
  ℕ, zero, suc, ◌+◌, ◌-◌, ◌/◌, ◌%◌, Bool, true, false, not, ◌&&◌, Option, none, some, [], ◌∷◌, ◌++◌,
  length, replicate, ltb, ◌==◌, if◌then◌else◌,
}
use pus_proj.Common.Results.{format_error}
use pus_proj.Bytes.{Bytes, bytes_eq, pack}
use pus_proj.Text.{Text, encode_text}
use pus_proj.Server.Protocol.{MsgType, to_code, Frame}
use pus_proj.Server.Database.{User, SessionRow, get_user_by_username, get_session, create_session}
use pus_proj.Server.Payloads.{
  Auth, parse_hello, parse_auth, session_ttl_ms, build_auth_ok, build_auth_fail,
}
use pus_proj.Server.Connection.{
  authenticating, established, Crypto, Io, ◌>>=◌, ◌>>◌, pure, raise, lift, session, update, query,
  statement, interleave, dummy_mac_key, send_next,
}
use pus_proj.Server.Handler.Environment.{Env, Signal, again, leave}

-- `a == b` of message types
abbrev pub is_type : MsgType → MsgType → Bool
is_type a b = to_code a == to_code b

-- `row.get(column) or 0`, `... if value is not None else b""`
abbrev pub or_zero : Option ℕ → ℕ
or_zero none = 0
or_zero (some n) = n

abbrev pub or_empty : Option Bytes → Bytes
or_empty none = []
or_empty (some b) = b

-- str(n) for n below 10 ^ fuel
decimal : ℕ → ℕ → Text → Text
decimal zero n acc = acc
decimal (suc fuel) n acc =
    let rest = decimal fuel (n / 10) ((48 + n % 10) ∷ acc) in
    if ltb n 10 then (48 + n) ∷ acc else rest

-- str(totp_code).zfill(6); the code is a uint32, and so has at most 10 digits.
unfoldable pub totp_text : ℕ → Text
unfolding decimal
totp_text code = let t = decimal 10 code [] in replicate (6 - length t) 48 ++ t

-- A refresh: the session row of the token is unexpired and belongs to the user and to the client.
unfoldable pub refresh_check : ℕ → Bytes → Option User → Option SessionRow → Option ℕ
refresh_check now client_id none row = none
refresh_check now client_id (some user) none = none
refresh_check now client_id (some user) (some row) =
    if ltb now (or_zero row.expiry)
      && (or_zero row.user_id == user.id && bytes_eq (or_empty row.client_id) client_id)
    then some (or_zero row.user_id)
    else none

-- b"svp-mac"
abbrev pub mac_info : Bytes
mac_info = b's' ∷ b'v' ∷ b'p' ∷ b'-' ∷ b'm' ∷ b'a' ∷ b'c' ∷ []

module _ (c : Crypto) (env : Env) where
  -- The second factor, when the user has one.
  unfoldable pub totp_check : Option Text → Auth → Bool
  totp_check none auth = true
  totp_check (some secret) auth =
      (auth.totp_present == 1)
      && elim auth.totp_code [ none ↦ false | some code ↦ env.totp_verify secret (totp_text code) ]

  -- A password login: the user's HMAC of both nonces and the name, and the second factor.
  unfoldable pub password_check : Bytes → Bytes → Auth → Bytes → Option User → Option ℕ
  password_check nonce_c nonce_s auth name none = none
  password_check nonce_c nonce_s auth name (some user) = elim user.k_auth [
    | none ↦ none
    | some k_auth ↦
        if bytes_eq auth.hmac_resp (c.hmac k_auth (nonce_c ++ (nonce_s ++ name)))
          && totp_check user.totp_secret auth
        then some user.id
        else none
  ]

  -- The query of a refresh is made only for a user that exists and a token that is there.
  unfoldable pub refresh_row : Option User → Option Bytes → Io (Option SessionRow)
  refresh_row (some user) (some token) = do interleave (env.others 1); query (get_session token)
  refresh_row _ _ = pure none

  -- Lines 412 to 456: `auth_user_id` where auth_valid is True, and None otherwise.
  unfoldable pub authenticate : Bytes → Bytes → Bytes → Auth → Option User → Io (Option ℕ)
  authenticate nonce_c nonce_s client_id auth user =
      if auth.token_refresh == 1
      then (do
        row ← refresh_row user auth.refresh_token
        pure (refresh_check (env.now_ms 0) client_id user row))
      else (do
        name ← lift (encode_text auth.username)
        pure (password_check nonce_c nonce_s auth name user))

  -- Lines 458 to 468, and 470 to 501.
  unfoldable pub refuse : Io Signal
  refuse = do
    payload ← lift build_auth_fail
    send_next c MsgType.auth_fail payload dummy_mac_key
    pure leave

  unfoldable pub establish : Bytes → Bytes → ℕ → Io Signal
  establish nonce_c client_id user_id = do
    let session_token = env.urandom
    let expiry = env.now_ms 1 + session_ttl_ms
    interleave (env.others 2)
    statement (create_session session_token user_id expiry client_id)
    payload ← lift (build_auth_ok session_token expiry 0)
    send_next c MsgType.auth_ok payload dummy_mac_key
    update (λ s. record s {
      authenticated_user_id = some user_id;
      session_mac_key = some (c.hkdf session_token nonce_c mac_info);
      phase = established;
    })
    pure again

  unfoldable pub answer_login : Bytes → Bytes → Option ℕ → Io Signal
  answer_login nonce_c client_id none = refuse
  answer_login nonce_c client_id (some user_id) = establish nonce_c client_id user_id

  unfoldable pub login_with : Option Bytes → Option Bytes → Option Bytes → Frame → Io Signal
  login_with (some nonce_c) (some nonce_s) (some client_id) frame = do
    auth ← lift (parse_auth frame.payload)
    interleave (env.others 0)
    user ← query (get_user_by_username auth.username)
    who ← authenticate nonce_c nonce_s client_id auth user
    answer_login nonce_c client_id who
  login_with _ _ _ frame = raise format_error

  -- The state AUTHENTICATING: line 395 to 501.
  unfoldable pub on_auth : Frame → Io Signal
  on_auth frame =
      if not (is_type frame.msg_type MsgType.auth)
      then raise format_error
      else (do s ← session; login_with s.nonce_c s.nonce_s s.client_id frame)

  -- The state GREETING: line 376 to 393.
  unfoldable pub on_hello : Frame → Io Signal
  on_hello frame = if not (is_type frame.msg_type MsgType.hello) then raise format_error else (do
    hello ← lift (parse_hello (env.now_ms 0) frame.payload)
    update (λ s. record s {
      nonce_c = some hello.nonce_c;
      client_id = some hello.client_id;
      nonce_s = some env.urandom;
    })
    stamp ← lift (pack 8 (env.now_ms 1))
    send_next c MsgType.challenge (env.urandom ++ stamp) dummy_mac_key
    update (λ s. record s { phase = authenticating })
    pure again)
