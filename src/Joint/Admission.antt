-- ===== src/Joint/Admission.antt =====
-- What the states GREETING and AUTHENTICATING of `handle_client` (server-py/server.py) do with a
-- HELLO and an AUTH that they accept.
use pus_proj.Common.{
  ℕ, ◌+◌, ◌^◌, ◌≤◌, ◌<◌, ◌≡◌, refl, ap, ◌∙◌, true, Option, some, [], ◌∷◌, ◌++◌, length, arith,
  length-append,
}
use pus_proj.Common.Results.{ok}
use pus_proj.Bytes.{Bytes, to_le, length-to_le, pack-eq-ok}
use pus_proj.Server.Protocol.{MsgType, to_code, Frame, encode, max_payload_len, no_flags}
use pus_proj.Server.Protocol.RoundTrip.{encode-eq-ok}
use pus_proj.Server.Database.{Db, User, get_user_by_username, create_session}
use pus_proj.Server.Payloads.{Hello, Auth, parse_hello, parse_auth, build_auth_ok, session_ttl_ms}
use pus_proj.Server.Connection.{
  authenticating, established, Conn, Crypto, ◌>>=◌, dummy_mac_key, outgoing,
}
use pus_proj.Server.Handler.Environment.{Env, again}
use pus_proj.Server.Handler.Login.{
  on_hello, on_auth, login_with, authenticate, answer_login, establish, mac_info, is_type,
}
use pus_proj.Joint.Rounds.{framed, IsSendable-outgoing, send_next_lem}

pub is_type_lem : {s t : MsgType} → s ≡ t → is_type s t ≡ true
is_type_lem {s} {t} e = ground (arith, e, ap to_code e)

module _ (c : Crypto) (env : Env) where
  -- The CHALLENGE of a round, and the connection behind it.
  abbrev pub challenge_frame : Conn → Frame
  challenge_frame x =
      outgoing MsgType.challenge (env.urandom ++ to_le 8 (env.now_ms 1)) x.session.outbound_seq
        no_flags

  abbrev pub challenged : Hello → Conn → Conn
  challenged hello x = record x {
    session = record x.session {
      phase = authenticating;
      outbound_seq = x.session.outbound_seq + 1;
      nonce_c = some hello.nonce_c;
      nonce_s = some env.urandom;
      client_id = some hello.client_id;
    };
    written = x.written ++ (framed c (challenge_frame x) dummy_mac_key ∷ []);
  }

  pub on_hello_lem :
      (frame : Frame) (hello : Hello) (x : Conn)
      → frame.msg_type ≡ MsgType.hello
      → parse_hello (env.now_ms 0) frame.payload ≡ ok hello
      → length env.urandom ≡ 32
      → env.now_ms 1 < 256 ^ 8
      → x.session.outbound_seq < 2 ^ 32
      → on_hello c env frame x ≡ (ok again, challenged hello x)
  unfolding on_hello ◌>>=◌
  on_hello_lem frame hello x is p n32 late fits =
      let stamp = to_le 8 (env.now_ms 1) in
      let packed = pack-eq-ok 8 (env.now_ms 1) late in
      let small : length (env.urandom ++ stamp) ≤ max_payload_len =
        omega (arith, length-append env.urandom stamp, length-to_le 8 (env.now_ms 1)) in
      let greeted : Conn = record x {
        session = record x.session {
          nonce_c = some hello.nonce_c;
          client_id = some hello.client_id;
          nonce_s = some env.urandom;
        };
      } in
      let sent =
        send_next_lem c MsgType.challenge (env.urandom ++ stamp) dummy_mac_key greeted small fits in
      rw (is_type_lem is, p, packed, sent) refl

  -- The CHALLENGE can be encoded.
  pub challenge_encoded :
      (x : Conn)
      → length env.urandom ≡ 32
      → x.session.outbound_seq < 2 ^ 32
      → encode c.hmac (challenge_frame x) dummy_mac_key
        ≡ ok (framed c (challenge_frame x) dummy_mac_key)
  challenge_encoded x n32 fits =
      let stamp = to_le 8 (env.now_ms 1) in
      let small : length (env.urandom ++ stamp) ≤ max_payload_len =
        omega (arith, length-append env.urandom stamp, length-to_le 8 (env.now_ms 1)) in
      encode-eq-ok c.hmac (challenge_frame x) dummy_mac_key (
        IsSendable-outgoing MsgType.challenge (env.urandom ++ stamp) x.session.outbound_seq small
          fits)

  -- The AUTH_OK of a round, and the connection behind it.
  abbrev pub expiry_at : ℕ
  expiry_at = env.now_ms 1 + session_ttl_ms

  abbrev pub auth_ok_frame : Bytes → Conn → Frame
  auth_ok_frame content x = outgoing MsgType.auth_ok content x.session.outbound_seq no_flags

  abbrev pub admitted : Bytes → ℕ → Bytes → Db → Conn → Conn
  admitted nonce_c uid content d x = record x {
    session = record x.session {
      phase = established;
      outbound_seq = x.session.outbound_seq + 1;
      authenticated_user_id = some uid;
      session_mac_key = some (c.hkdf env.urandom nonce_c mac_info);
    };
    db = d;
    written = x.written ++ (framed c (auth_ok_frame content x) dummy_mac_key ∷ []);
  }

  -- What the server puts into an AUTH_OK is its token, its expiry and version 0.
  pub build_auth_ok_lem :
      (expiry : ℕ)
      → length env.urandom ≡ 32
      → expiry < 256 ^ 8
      → (content : Bytes) × (build_auth_ok env.urandom expiry 0 ≡ ok content)
        × (length content ≤ max_payload_len)
  unfolding build_auth_ok
  build_auth_ok_lem expiry n32 fits =
      let token = env.urandom in
      let s = to_le 2 (length token) in
      let t = to_le 8 expiry in
      let v = to_le 8 0 in
      let p = pack-eq-ok 2 (length token) (omega arith) in
      let q = pack-eq-ok 8 expiry fits in
      let r = pack-eq-ok 8 0 (omega arith) in
      (
        s ++ (token ++ (t ++ v)),
        rw (p, q, r) refl,
        omega (
          arith,
          length-append s (token ++ (t ++ v)),
          length-append token (t ++ v),
          length-append t v,
          length-to_le 2 (length token),
          length-to_le 8 expiry,
          length-to_le 8 0,
        ),
      )

  login_with_lem :
      (frame : Frame) (auth : Auth) (o : Option User) (nonce_c nonce_s client_id content : Bytes)
      (uid : ℕ) (d d1 : Db) (x : Conn)
      → parse_auth frame.payload ≡ ok auth
      → get_user_by_username auth.username (env.others 0 x.db) ≡ o
      → authenticate c env nonce_c nonce_s client_id auth o (record x { db = env.others 0 x.db })
        ≡ (ok (some uid), record x { db = d })
      → create_session env.urandom uid expiry_at client_id (env.others 2 d) ≡ (ok tt, d1)
      → build_auth_ok env.urandom expiry_at 0 ≡ ok content
      → length content ≤ max_payload_len
      → x.session.outbound_seq < 2 ^ 32
      → login_with c env (some nonce_c) (some nonce_s) (some client_id) frame x
        ≡ (ok again, admitted nonce_c uid content d1 x)
  unfolding login_with answer_login establish ◌>>=◌
  login_with_lem frame auth o nonce_c nonce_s client_id content uid d d1 x p u who made built small
        fits =
      let sent =
        send_next_lem c MsgType.auth_ok content dummy_mac_key (record x { db = d1 }) small fits in
      rw (p, u, who, made, built, sent) refl

  pub on_auth_lem :
      (frame : Frame) (auth : Auth) (o : Option User) (nonce_c nonce_s client_id content : Bytes)
      (uid : ℕ) (d d1 : Db) (x : Conn)
      → x.session.nonce_c ≡ some nonce_c
      → x.session.nonce_s ≡ some nonce_s
      → x.session.client_id ≡ some client_id
      → frame.msg_type ≡ MsgType.auth
      → parse_auth frame.payload ≡ ok auth
      → get_user_by_username auth.username (env.others 0 x.db) ≡ o
      → authenticate c env nonce_c nonce_s client_id auth o (record x { db = env.others 0 x.db })
        ≡ (ok (some uid), record x { db = d })
      → create_session env.urandom uid expiry_at client_id (env.others 2 d) ≡ (ok tt, d1)
      → build_auth_ok env.urandom expiry_at 0 ≡ ok content
      → length content ≤ max_payload_len
      → x.session.outbound_seq < 2 ^ 32
      → on_auth c env frame x ≡ (ok again, admitted nonce_c uid content d1 x)
  unfolding on_auth ◌>>=◌
  on_auth_lem frame auth o nonce_c nonce_s client_id content uid d d1 x a b e is p u who made built
        small fits =
      let right : is_type frame.msg_type MsgType.auth ≡ true = is_type_lem is in
      let s = x.session in
      rw right (
        ap (λ z. login_with c env z s.nonce_s s.client_id frame x) a
        ∙ ap (λ z. login_with c env (some nonce_c) z s.client_id frame x) b
        ∙ ap (λ z. login_with c env (some nonce_c) (some nonce_s) z frame x) e
        ∙ login_with_lem frame auth o nonce_c nonce_s client_id content uid d d1 x p u who made
            built small fits)
