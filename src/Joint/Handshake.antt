-- ===== src/Joint/Handshake.antt =====
-- A login of client-py/svpclient.py with the server of server-py/server.py, each fed what the other
-- writes.
use pus_proj.Common.{
  ℕ, suc, ◌+◌, ◌^◌, ◌≤◌, ◌<◌, ◌≡◌, refl, true, Option, some, [], ◌∷◌, ◌++◌, length, arith,
  append-nil, append_assoc,
}
use pus_proj.Common.Results.{ok}
use pus_proj.Bytes.{Bytes, to_le, length-to_le}
use pus_proj.Text.{encode_text}
use pus_proj.Server.Protocol.{MsgType, to_code, hmac_len}
use pus_proj.Server.Protocol.RoundTrip.{encode-eq-ok}
use pus_proj.Server.Database.{Db, User, get_user_by_username, create_session}
use pus_proj.Server.Payloads.{Hello, distance, max_clock_skew_ms, session_ttl_ms}
use pus_proj.Server.Connection.{established, opened}
use pus_proj.Server.Handler.Environment.{Env, in_time}
use pus_proj.Server.Handler.Login.{totp_check}
use pus_proj.Server.Handler.Loop.{run, waiting}
use pus_proj.Client.Framing.{serialize}
use pus_proj.Client.Codes.{dummy_mac_key}
use pus_proj.Client.Requests.{hello_payload, login_payload}
use pus_proj.Client.Requests.Auths.{with_totp}
use pus_proj.Client.Act.{ClientCrypto, Link, World}
use pus_proj.Client.Session.{next_seq}
use pus_proj.Client.Session.Talk.{frame_of}
use pus_proj.Client.Login.{default_vault_id, login, response_message}
use pus_proj.Client.Login.Completes.{login_lem}
use pus_proj.Client.Exchange.Fetches.{stream}
use pus_proj.Joint.Served.{greeting_round, admission_round}
use pus_proj.Joint.Rounds.{framed, IsSendable-outgoing}
use pus_proj.Joint.Admission.{
  challenge_frame, challenge_encoded, challenged, expiry_at, auth_ok_frame, admitted,
  build_auth_ok_lem,
}

-- A login and the server come to one session. The server, fed the two frames that the client sends,
-- ends in ESTABLISHED for the user whose key is the client's; the client, fed the two frames that
-- the server writes, ends without an exception with the token of the stored session, and both hold
-- the same HMAC key. Nothing else is written or read. It is so when digests have 32 bytes, the
-- random bytes and the client id their lengths, the client's clock is within the skew, the times
-- fit 64 bits, both frames come in time and fit, two writes succeed, the name takes 1 to 64 bytes,
-- the second factor, if the user has one, is verified, and the session row can be stored.
pub login-run :
    (c : ClientCrypto) (env1 env2 : Env) (x : World) (nonce : Bytes) (now_ms : ℕ)
    (totp_code : Option ℕ) (user : User) (db d1 : Db) (more rest id : Bytes) (left : ℕ)
    {username hello auth sent1 sent2 : Bytes}
    → ((k m : Bytes) → length (c.shared.hmac k m) ≡ hmac_len)
    → length nonce ≡ 32
    → length x.client.client_id ≡ 16
    → length env1.urandom ≡ 32
    → length env2.urandom ≡ 32
    → env1.arrival ≡ in_time
    → env2.arrival ≡ in_time
    → distance (env1.now_ms 0) now_ms ≤ max_clock_skew_ms
    → env1.now_ms 1 < 256 ^ 8
    → env2.now_ms 1 + session_ttl_ms < 256 ^ 8
    → encode_text x.client.login_name ≡ ok username
    → 1 ≤ length username
    → length username ≤ 64
    → default_vault_id c x.client.login_name ≡ ok id
    → hello_payload nonce x.client.client_id now_ms ≡ ok hello
    → serialize c.shared.hmac (frame_of 0x01 0 hello x.client) (some dummy_mac_key) ≡ ok sent1
    → let resp = c.shared.hmac x.client.k_auth (response_message nonce env1.urandom username) in
      login_payload username resp totp_code ≡ ok auth
      → serialize c.shared.hmac (frame_of 0x03 0 auth (next_seq x.client)) (some dummy_mac_key)
        ≡ ok sent2
      → get_user_by_username x.client.login_name (env2.others 0 db) ≡ some user
      → user.k_auth ≡ some x.client.k_auth
      → totp_check c.shared env2 user.totp_secret (with_totp x.client.login_name resp totp_code)
        ≡ true
      → create_session env2.urandom user.id
          (env2.now_ms 1 + session_ttl_ms)
          x.client.client_id
          (env2.others 2 (env2.others 0 db))
        ≡ (ok tt, d1)
      → let (exit, y) =
          run c.shared (env1 ∷ env2 ∷ []) (opened db (stream (sent1 ∷ sent2 ∷ []) ++ more)) in
        let link : Link = record {
          incoming = stream y.written ++ rest;
          writes_left = suc (suc left);
          sent = [];
        } in
        let (r, z) = login c nonce now_ms totp_code (record x { conn = some link }) in
        ((exit ≡ waiting)
          × (y.session.phase ≡ established)
          × (y.session.authenticated_user_id ≡ some user.id)
          × (y.incoming ≡ more)
          × (y.db ≡ d1))
        × (r ≡ ok tt)
        × (z.client.session_token ≡ env2.urandom)
        × (z.conn
            ≡ some (record { incoming = rest; writes_left = left; sent = sent1 ∷ sent2 ∷ [] }))
        × ((key : Bytes) × (y.session.session_mac_key ≡ some key) × (z.client.k_mac ≡ some key))
unfolding run to_code stream
login-run c env1 env2 x nonce now_ms totp_code user db d1 more rest id left {username} {hello}
      {auth} {sent1} {sent2} hmac_length n32 n16 u32 v32 t1 t2 near late1 late2 name some_name short
      d p s1 q s2 known stored second made =
    let hi : Hello = record {
      nonce_c = nonce;
      client_id = x.client.client_id;
      timestamp_ms = now_ms;
    } in
    let (content, built, small) =
      build_auth_ok_lem c.shared env2 (expiry_at c.shared env2) v32 late2 in
    let x0 = opened db (sent1 ++ (sent2 ++ more)) in
    let x1 = challenged c.shared env1 hi (opened db (sent2 ++ more)) in
    let x2 = admitted c.shared env2 nonce user.id content d1 (record x1 { incoming = more }) in
    let first =
      greeting_round c hmac_length env1 nonce now_ms x.client db (sent2 ++ more) t1 n32 n16 u32 near
        late1 p s1 in
    let then =
      admission_round c hmac_length env1 env2 nonce env1.urandom x.client.client_id totp_code
        (next_seq x.client) user x1 d1 more refl refl refl refl (omega arith) refl t2 name some_name
        short known stored second q s2 made built small in
    let served : run c.shared (env1 ∷ env2 ∷ []) x0 ≡ (waiting, x2) = rw (first, then) refl in
    let start : stream (sent1 ∷ sent2 ∷ []) ++ more ≡ sent1 ++ (sent2 ++ more) =
      rw (append-nil, append_assoc) refl in
    let f1 = challenge_frame c.shared env1 (opened db more) in
    let f2 = auth_ok_frame c.shared env2 content x1 in
    let raw1 = framed c.shared f1 dummy_mac_key in
    let raw2 = framed c.shared f2 dummy_mac_key in
    let stamp = to_le 8 (env1.now_ms 1) in
    let enc1 = challenge_encoded c.shared env1 (opened db more) u32 (omega arith) in
    let enc2 =
      encode-eq-ok c.shared.hmac f2 dummy_mac_key
        (IsSendable-outgoing MsgType.auth_ok content 1 small (omega arith)) in
    let link : Link = record {
      incoming = stream (raw1 ∷ raw2 ∷ []) ++ rest;
      writes_left = suc (suc left);
      sent = [];
    } in
    let said : stream (raw1 ∷ raw2 ∷ []) ++ rest ≡ raw1 ++ (raw2 ++ rest) =
      rw (append-nil, append_assoc) refl in
    let done =
      login_lem c hmac_length nonce now_ms totp_code (record x { conn = some link }) link f1 f2
        env1.urandom stamp env2.urandom (expiry_at c.shared env2) 0 username id rest refl refl said
        p s1 enc1 refl refl refl u32 (length-to_le 8 (env1.now_ms 1)) name short q s2 enc2 refl refl
        refl built d in
    rw (start, served, done) ((refl, refl, refl, refl, refl), refl, refl, refl, (_, refl, refl))
