-- ===== src/Joint/Served.antt =====
-- The two rounds in which server-py/server.py takes a login of client-py/svpclient.py.
use pus_proj.Common.{ℕ, ◌^◌, ◌≤◌, ◌<◌, ◌≡◌, refl, ap, ◌∙◌, true, Option, some, ◌++◌, length, arith}
use pus_proj.Common.Results.{ok}
use pus_proj.Bytes.{Bytes}
use pus_proj.Text.{encode_text}
use pus_proj.Server.Protocol.{MsgType, of_code, hmac_len, max_payload_len}
use pus_proj.Server.Protocol.RoundTrip.{signed_part}
use pus_proj.Server.Database.{Db, User, get_user_by_username, create_session}
use pus_proj.Server.Payloads.{build_auth_ok, distance, max_clock_skew_ms}
use pus_proj.Server.Connection.{authenticating, Conn, opened}
use pus_proj.Server.Handler.Environment.{Env, in_time, again}
use pus_proj.Server.Handler.Login.{totp_check}
use pus_proj.Server.Handler.Loop.{active_mac_key, watch, idle, dispatch, round}
use pus_proj.Client.Framing.{serialize, serialize-encode, as_server}
use pus_proj.Client.Codes.{dummy_mac_key}
use pus_proj.Client.Requests.{hello_payload, login_payload}
use pus_proj.Client.Requests.Understood.{parse_hello-hello_payload}
use pus_proj.Client.Requests.Auths.{with_totp}
use pus_proj.Client.Act.{ClientCrypto, Client}
use pus_proj.Client.Session.Talk.{frame_of}
use pus_proj.Client.Login.{response_message}
use pus_proj.Client.Login.Accepted.{authenticate-login_payload}
use pus_proj.Joint.Rounds.{round_lem}
use pus_proj.Joint.Admission.{challenged, on_hello_lem, expiry_at, admitted, on_auth_lem}

module _ (c : ClientCrypto) (hmac_length : (k m : Bytes) → length (c.shared.hmac k m) ≡ hmac_len)
    (env1 : Env) where
  -- The server reads the HELLO of a client and writes a CHALLENGE.
  pub greeting_round :
      (nonce : Bytes) (now_ms : ℕ) (cl : Client) (db : Db) (more : Bytes) {hello sent : Bytes}
      → env1.arrival ≡ in_time
      → length nonce ≡ 32
      → length cl.client_id ≡ 16
      → length env1.urandom ≡ 32
      → distance (env1.now_ms 0) now_ms ≤ max_clock_skew_ms
      → env1.now_ms 1 < 256 ^ 8
      → hello_payload nonce cl.client_id now_ms ≡ ok hello
      → serialize c.shared.hmac (frame_of 0x01 0 hello cl) (some dummy_mac_key) ≡ ok sent
      → round c.shared env1 (opened db (sent ++ more)) ≡ (
        ok again,
        challenged c.shared env1
            (record { nonce_c = nonce; client_id = cl.client_id; timestamp_ms = now_ms })
            (opened db more),
      )
  unfolding active_mac_key watch dispatch of_code
  greeting_round nonce now_ms cl db more {hello} {sent} t n32 n16 u32 near late p s =
      let f = frame_of 0x01 0 hello cl in
      let e = serialize-encode c.shared.hmac f dummy_mac_key {t = MsgType.hello} refl refl s in
      round_lem c.shared hmac_length env1 (opened db (sent ++ more)) dummy_mac_key
        (as_server MsgType.hello f) more refl refl t refl e
      ∙ on_hello_lem c.shared env1 _ _ (opened db more) refl
          (parse_hello-hello_payload _ now_ms nonce cl.client_id n32 n16 near p) u32 late
          (omega arith)

  -- The server reads the AUTH of that client and writes an AUTH_OK.
  module _ (env2 : Env) where
    pub admission_round :
        (nonce nonce_s client_id : Bytes) (totp_code : Option ℕ) (cl : Client) (user : User)
        (y : Conn) (d1 : Db) (more : Bytes) {username auth sent content : Bytes}
        → y.session.phase ≡ authenticating
        → y.session.nonce_c ≡ some nonce
        → y.session.nonce_s ≡ some nonce_s
        → y.session.client_id ≡ some client_id
        → y.session.outbound_seq < 2 ^ 32
        → y.incoming ≡ sent ++ more
        → env2.arrival ≡ in_time
        → encode_text cl.login_name ≡ ok username
        → 1 ≤ length username
        → length username ≤ 64
        → get_user_by_username cl.login_name (env2.others 0 y.db) ≡ some user
        → user.k_auth ≡ some cl.k_auth
        → let resp = c.shared.hmac cl.k_auth (response_message nonce nonce_s username) in
          totp_check c.shared env2 user.totp_secret (with_totp cl.login_name resp totp_code) ≡ true
          → login_payload username resp totp_code ≡ ok auth
          → serialize c.shared.hmac (frame_of 0x03 0 auth cl) (some dummy_mac_key) ≡ ok sent
          → create_session env2.urandom user.id
              (expiry_at c.shared env2)
              client_id
              (env2.others 2 (env2.others 0 y.db))
            ≡ (ok tt, d1)
          → build_auth_ok env2.urandom (expiry_at c.shared env2) 0 ≡ ok content
          → length content ≤ max_payload_len
          → round c.shared env2 y ≡ (
            ok again,
            admitted c.shared env2 nonce user.id content d1 (record y { incoming = more }),
          )
    unfolding active_mac_key watch dispatch of_code
    admission_round nonce nonce_s client_id totp_code cl user y d1 more {username} {auth} {sent}
          {content} ph nc ns ci fits i t name some_name short known stored second p s made built
          small =
        let f = frame_of 0x03 0 auth cl in
        let e = serialize-encode c.shared.hmac f dummy_mac_key {t = MsgType.auth} refl refl s in
        let g = record (as_server MsgType.auth f) {
          hmac = c.shared.hmac dummy_mac_key (signed_part (as_server MsgType.auth f));
        } in
        let read = record y { incoming = more } in
        let (a, parsed, named, who) =
          authenticate-login_payload c.shared env2 cl.login_name nonce nonce_s client_id cl.k_auth
            totp_code user (record read { db = env2.others 0 y.db }) hmac_length name some_name
            short stored second p in
        let key : active_mac_key y.session ≡ ok dummy_mac_key = rw ph refl in
        let calm : watch y.session (env2.monotonic_ms 0) ≡ idle = rw ph refl in
        round_lem c.shared hmac_length env2 y dummy_mac_key (as_server MsgType.auth f) more key calm
          t i e
        ∙ ap (λ z. dispatch c.shared env2 z y.session.authenticated_user_id dummy_mac_key g read) ph
        ∙ on_auth_lem c.shared env2 g a (some user) nonce nonce_s client_id content user.id
            (env2.others 0 y.db) d1 read nc ns ci refl parsed
            (ap (λ n. get_user_by_username n (env2.others 0 y.db)) named ∙ known) who made built
            small fits
