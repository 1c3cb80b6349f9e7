-- ===== src/Client/Upkeep/Recovery.antt =====
-- How ensure_session of client-py/svpclient.py, lines 282 to 297, gets a session again.
use pus_proj.Common.{
  ℕ, suc, ◌+◌, ◌≤◌, ◌≡◌, refl, true, false, none, some, List, [], ◌∷◌, ◌++◌, length, ltb, ◌==◌,
  arith,
}
use pus_proj.Common.Results.{ok}
use pus_proj.Bytes.{Bytes}
use pus_proj.Text.{encode_text}
use pus_proj.Server.Protocol.{Frame, to_code, encode, hmac_len}
use pus_proj.Server.Payloads.{build_auth_ok}
use pus_proj.Client.Framing.{serialize}
use pus_proj.Client.Codes.{dummy_mac_key}
use pus_proj.Client.Requests.{hello_payload, auth_name, refresh_payload}
use pus_proj.Client.Act.{ClientCrypto, Link, World, ◌>>=◌, attempt}
use pus_proj.Client.Session.{next_seq}
use pus_proj.Client.Session.Talk.{frame_of}
use pus_proj.Client.Login.{connect, default_vault_id, refresh_session, mac_info}
use pus_proj.Client.Login.Agreement.{vault_id_after}
use pus_proj.Client.Login.Completes.{after_exchange, do_challenge_lem, authenticate_lem}
use pus_proj.Client.Upkeep.{Outside, is_alive, ensure_session}

-- The world of a session that was got with two frames sent and two received.
abbrev after_refresh :
    ClientCrypto → Bytes → Bytes → ℕ → ℕ → Bytes → Bytes → ℕ → List Bytes → World → World
after_refresh c nonce token expiry version id rest left sent x = record x {
  client = record x.client {
    nonce_c = nonce;
    session_token = token;
    token_expiry = expiry;
    vault_version = version;
    vault_id = vault_id_after x.client.vault_id id;
    k_mac = some (c.shared.hkdf token nonce mac_info);
    seq = x.client.seq + 2;
  };
  conn = some (record { incoming = rest; writes_left = left; sent = sent });
}

module _ (c : ClientCrypto)
    (hmac_length : (k m : Bytes) → length (c.shared.hmac k m) ≡ hmac_len) where
  refresh_session_lem :
      (nonce : Bytes) (now_ms : ℕ) (x : World) (link : Link) (challenge_frame ok_frame : Frame)
      (nonce_s stamp token : Bytes) (expiry version : ℕ) (username id rest : Bytes) {left : ℕ}
      {hello auth sent1 sent2 raw1 raw2 content : Bytes}
      → x.conn ≡ some link
      → link.writes_left ≡ suc (suc left)
      → link.incoming ≡ raw1 ++ (raw2 ++ rest)
      → hello_payload nonce x.client.client_id now_ms ≡ ok hello
      → serialize c.shared.hmac (frame_of 0x01 0 hello x.client) (some dummy_mac_key) ≡ ok sent1
      → encode c.shared.hmac challenge_frame dummy_mac_key ≡ ok raw1
      → challenge_frame.version ≡ 1
      → to_code challenge_frame.msg_type ≡ 0x02
      → challenge_frame.payload ≡ nonce_s ++ stamp
      → length nonce_s ≡ 32
      → length stamp ≡ 8
      → encode_text x.client.login_name ≡ ok username
      → length username ≤ 64
      → length x.client.session_token ≡ 32
      → refresh_payload username x.client.session_token ≡ ok auth
      → serialize c.shared.hmac (frame_of 0x03 0 auth (next_seq x.client)) (some dummy_mac_key)
        ≡ ok sent2
      → encode c.shared.hmac ok_frame dummy_mac_key ≡ ok raw2
      → ok_frame.version ≡ 1
      → to_code ok_frame.msg_type ≡ 0x04
      → ok_frame.payload ≡ content
      → build_auth_ok token expiry version ≡ ok content
      → default_vault_id c x.client.login_name ≡ ok id
      → refresh_session c nonce now_ms x ≡ (
        ok tt,
        after_refresh c nonce token expiry version id rest left
            ((link.sent ++ (sent1 ∷ [])) ++ (sent2 ∷ []))
            x,
      )
  unfolding refresh_session ◌>>=◌ auth_name
  refresh_session_lem nonce now_ms x link challenge_frame ok_frame nonce_s stamp token expiry
        version username id rest {left} {hello} {auth} {sent1} {sent2} {raw1} {raw2} e w i p s1 enc1
        one1 is1 holds1 n32 n8 name short size q s2 enc2 one2 is2 holds2 built d =
      let x1 : World = record x { client = record x.client { nonce_c = nonce } } in
      let y = after_exchange sent1 (suc left) (raw2 ++ rest) link x1 in
      let link1 : Link = record {
        incoming = raw2 ++ rest;
        writes_left = suc left;
        sent = link.sent ++ (sent1 ∷ []);
      } in
      let first =
        do_challenge_lem c hmac_length nonce now_ms x link challenge_frame nonce_s stamp
          (raw2 ++ rest) e w i p s1 enc1 one1 is1 holds1 n32 n8 in
      let second =
        authenticate_lem c hmac_length y link1 ok_frame token expiry version id rest auth refl refl
          refl s2 enc2 one2 is2 holds2 built d in
      let fits : ltb 64 (length username) ≡ false = ground arith in
      let whole : (length x.client.session_token == 32) ≡ true = ground arith in
      let count : x.client.seq + 1 + 1 ≡ x.client.seq + 2 = omega arith in
      rw (first, name, fits, whole, q, second, count) refl

  -- When the connection does not answer, ensure_session ends without an exception on a new one,
  -- with the session token, its expiry and the key that the server derives from the token and the
  -- new nonce in place of the old ones. It is so when digests have 32 bytes, connecting and two
  -- writes succeed, the token kept has 32 bytes, both frames fit, the name is encoded in 64 bytes
  -- at most, and the server answers with a CHALLENGE and an AUTH_OK of version 1, encoded with the
  -- key of zeros, that carry a nonce of 32 bytes with a time of 8, and what the server builds for
  -- an AUTH_OK.
  pub ensure_session_lem :
      (o : Outside) (x y : World) (link : Link) (challenge_frame ok_frame : Frame)
      (nonce_s stamp token : Bytes) (expiry version : ℕ) (username id rest : Bytes) {left : ℕ}
      {hello auth sent1 sent2 raw1 raw2 content : Bytes}
      → is_alive c o.ping_ms x ≡ (ok false, y)
      → o.answer ≡ ok link
      → link.writes_left ≡ suc (suc left)
      → link.incoming ≡ raw1 ++ (raw2 ++ rest)
      → hello_payload o.refresh_nonce y.client.client_id o.refresh_ms ≡ ok hello
      → serialize c.shared.hmac (frame_of 0x01 0 hello y.client) (some dummy_mac_key) ≡ ok sent1
      → encode c.shared.hmac challenge_frame dummy_mac_key ≡ ok raw1
      → challenge_frame.version ≡ 1
      → to_code challenge_frame.msg_type ≡ 0x02
      → challenge_frame.payload ≡ nonce_s ++ stamp
      → length nonce_s ≡ 32
      → length stamp ≡ 8
      → encode_text y.client.login_name ≡ ok username
      → length username ≤ 64
      → length y.client.session_token ≡ 32
      → refresh_payload username y.client.session_token ≡ ok auth
      → serialize c.shared.hmac (frame_of 0x03 0 auth (next_seq y.client)) (some dummy_mac_key)
        ≡ ok sent2
      → encode c.shared.hmac ok_frame dummy_mac_key ≡ ok raw2
      → ok_frame.version ≡ 1
      → to_code ok_frame.msg_type ≡ 0x04
      → ok_frame.payload ≡ content
      → build_auth_ok token expiry version ≡ ok content
      → default_vault_id c y.client.login_name ≡ ok id
      → (z : World) × (ensure_session c o x ≡ (ok tt, z))
        × (z.client.session_token ≡ token)
        × (z.client.token_expiry ≡ expiry)
        × (z.client.k_mac ≡ some (c.shared.hkdf token o.refresh_nonce mac_info))
        × (z.conn
            ≡ some (record {
              incoming = rest;
              writes_left = left;
              sent = (link.sent ++ (sent1 ∷ [])) ++ (sent2 ∷ []);
            }))
  unfolding ensure_session connect attempt ◌>>=◌
  ensure_session_lem o x y link challenge_frame ok_frame nonce_s stamp token expiry version username
        id rest {left} {hello} {auth} {sent1} {sent2} dead answer w i p s1 enc1 one1 is1 holds1 n32
        n8 name short size q s2 enc2 one2 is2 holds2 built d =
      let y1 : World = record y { conn = some link; client = record y.client { k_mac = none } } in
      let done =
        refresh_session_lem o.refresh_nonce o.refresh_ms y1 link challenge_frame ok_frame nonce_s
          stamp token expiry version username id rest refl w i p s1 enc1 one1 is1 holds1 n32 n8 name
          short size q s2 enc2 one2 is2 holds2 built d in
      let z =
        after_refresh c o.refresh_nonce token expiry version id rest left
          ((link.sent ++ (sent1 ∷ [])) ++ (sent2 ∷ [])) y1 in
      (z, rw (dead, answer, done) refl, refl, refl, refl, refl)
