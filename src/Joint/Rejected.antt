-- ===== src/Joint/Rejected.antt =====
-- A login of client-py/svpclient.py that server-py/server.py refuses, each fed what the other writes.
use pus_proj.Common.{
  ℕ, suc, ◌^◌, ◌≤◌, ◌<◌, ◌≡◌, refl, Option, none, some, [], ◌∷◌, ◌++◌, length, append-nil,
  append_assoc, arith,
}
use pus_proj.Common.Results.{ok, err, protocol_error}
use pus_proj.Bytes.{Bytes, to_le, length-to_le}
use pus_proj.Text.{encode_text}
use pus_proj.Server.Protocol.{MsgType, to_code, encode, hmac_len, no_flags}
use pus_proj.Server.Protocol.RoundTrip.{encode-eq-ok}
use pus_proj.Server.Database.{Db, get_user_by_username}
use pus_proj.Server.Payloads.{Hello, distance, max_clock_skew_ms}
use pus_proj.Server.Connection.{opened, outgoing, dummy_mac_key}
use pus_proj.Server.Handler.Environment.{Env, in_time}
use pus_proj.Server.Handler.Loop.{run, closed}
use pus_proj.Client.Framing.{serialize}
use pus_proj.Client.Codes.{err_internal}
use pus_proj.Client.Requests.{hello_payload, login_payload}
use pus_proj.Client.Act.{ClientCrypto, Link, World}
use pus_proj.Client.Session.{next_seq}
use pus_proj.Client.Session.Talk.{frame_of}
use pus_proj.Client.Login.{login, response_message}
use pus_proj.Client.Login.Refused.{login_refused}
use pus_proj.Client.Exchange.Fetches.{stream}
use pus_proj.Joint.Rounds.{framed, IsSendable-outgoing}
use pus_proj.Joint.Admission.{challenge_frame, challenge_encoded, challenged}
use pus_proj.Joint.Served.{greeting_round}
use pus_proj.Joint.Refusal.{IsStranger, fail_bytes, refused, refusal_round}

-- A login under a wrong key is refused. When the server knows no user of the name, or the key that it
-- has stored gives the message another HMAC, it writes two frames, the second of them an AUTH_FAIL
-- with number 1 and the payload of ERR_AUTH_FAILED, closes, has stored no session and holds no HMAC
-- key and no user; the client, fed these two frames, raises ProtocolError with ERR_INTERNAL, not
-- ERR_AUTH_FAILED, and holds the HMAC key that it had before. It is so when digests have 32 bytes,
-- the random bytes and the client id their lengths, the client's clock is within the skew, the
-- server's time fits 64 bits, both frames come in time and fit, two writes succeed, and the name
-- takes 1 to 64 bytes.
pub login-refused :
    (c : ClientCrypto) (env1 env2 : Env) (x : World) (nonce : Bytes) (now_ms : ℕ)
    (totp_code : Option ℕ) (db : Db) (more rest : Bytes) (left : ℕ)
    {username hello auth sent1 sent2 : Bytes}
    → ((k m : Bytes) → length (c.shared.hmac k m) ≡ hmac_len)
    → length nonce ≡ 32
    → length x.client.client_id ≡ 16
    → length env1.urandom ≡ 32
    → env1.arrival ≡ in_time
    → env2.arrival ≡ in_time
    → distance (env1.now_ms 0) now_ms ≤ max_clock_skew_ms
    → env1.now_ms 1 < 256 ^ 8
    → encode_text x.client.login_name ≡ ok username
    → 1 ≤ length username
    → length username ≤ 64
    → hello_payload nonce x.client.client_id now_ms ≡ ok hello
    → serialize c.shared.hmac (frame_of 0x01 0 hello x.client) (some dummy_mac_key) ≡ ok sent1
    → let message = response_message nonce env1.urandom username in
      login_payload username (c.shared.hmac x.client.k_auth message) totp_code ≡ ok auth
      → serialize c.shared.hmac (frame_of 0x03 0 auth (next_seq x.client)) (some dummy_mac_key)
        ≡ ok sent2
      → IsStranger c.shared x.client.k_auth message
          (get_user_by_username x.client.login_name (env2.others 0 db))
      → let (exit, y) =
          run c.shared (env1 ∷ env2 ∷ []) (opened db (stream (sent1 ∷ sent2 ∷ []) ++ more)) in
        let link : Link = record {
          incoming = stream y.written ++ rest;
          writes_left = suc (suc left);
          sent = [];
        } in
        let (r, z) = login c nonce now_ms totp_code (record x { conn = some link }) in
        ((exit ≡ closed)
          × (y.db ≡ env2.others 0 db)
          × (y.session.session_mac_key ≡ none)
          × (y.session.authenticated_user_id ≡ none)
          × ((challenge : Bytes) × (refusal : Bytes) × (y.written ≡ challenge ∷ refusal ∷ [])
              × (encode c.shared.hmac
                    (outgoing MsgType.auth_fail (6 ∷ 0 ∷ 0 ∷ 0 ∷ 0 ∷ []) 1 no_flags)
                    dummy_mac_key
                  ≡ ok refusal)))
        × (r ≡ err (protocol_error err_internal))
        × (z.client.k_mac ≡ x.client.k_mac)
unfolding run to_code stream
login-refused c env1 env2 x nonce now_ms totp_code db more rest left {username} {hello} {auth}
      {sent1} {sent2} hmac_length n32 n16 u32 t1 t2 near late name some_name short p s1 q s2
      stranger =
    let hi : Hello = record {
      nonce_c = nonce;
      client_id = x.client.client_id;
      timestamp_ms = now_ms;
    } in
    let x0 = opened db (sent1 ++ (sent2 ++ more)) in
    let x1 = challenged c.shared env1 hi (opened db (sent2 ++ more)) in
    let x2 = refused c.shared env2 (env2.others 0 db) (record x1 { incoming = more }) in
    let first =
      greeting_round c hmac_length env1 nonce now_ms x.client db (sent2 ++ more) t1 n32 n16 u32 near
        late p s1 in
    let then =
      refusal_round c env2 nonce env1.urandom x.client.client_id totp_code (next_seq x.client) x1
        more hmac_length refl refl refl refl (omega arith) refl t2 name some_name short stranger q
        s2 in
    let served : run c.shared (env1 ∷ env2 ∷ []) x0 ≡ (closed, x2) = rw (first, then) refl in
    let start : stream (sent1 ∷ sent2 ∷ []) ++ more ≡ sent1 ++ (sent2 ++ more) =
      rw (append-nil, append_assoc) refl in
    let f1 = challenge_frame c.shared env1 (opened db more) in
    let f2 = outgoing MsgType.auth_fail fail_bytes 1 no_flags in
    let raw1 = framed c.shared f1 dummy_mac_key in
    let raw2 = framed c.shared f2 dummy_mac_key in
    let stamp = to_le 8 (env1.now_ms 1) in
    let enc1 = challenge_encoded c.shared env1 (opened db more) u32 (omega arith) in
    let enc2 =
      encode-eq-ok c.shared.hmac f2 dummy_mac_key
        (IsSendable-outgoing MsgType.auth_fail fail_bytes 1 (omega arith) (omega arith)) in
    let link : Link = record {
      incoming = stream (raw1 ∷ raw2 ∷ []) ++ rest;
      writes_left = suc (suc left);
      sent = [];
    } in
    let said : stream (raw1 ∷ raw2 ∷ []) ++ rest ≡ raw1 ++ (raw2 ++ rest) =
      rw (append-nil, append_assoc) refl in
    let done =
      login_refused c hmac_length nonce now_ms totp_code (record x { conn = some link }) link f1 f2
        env1.urandom stamp username rest refl refl said p s1 enc1 refl refl refl u32
        (length-to_le 8 (env1.now_ms 1)) name short q s2 enc2 refl refl in
    rw (start, served, done) ((refl, refl, refl, refl, (raw1, raw2, refl, enc2)), refl, refl)
