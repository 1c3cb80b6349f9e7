-- ===== src/Client/Login/Completes.antt =====
-- The login of client-py/svpclient.py when the server, whose frames are encoded as in
-- server-py/server.py, answers the HELLO with a CHALLENGE and the AUTH with an AUTH_OK.
use pus_proj.Common.{
  ℕ, suc, ◌+◌, ◌-◌, ◌≡◌, ◌≤◌, ltb, refl, sym, ap, ◌∙◌, false, Option, some, [], ◌∷◌, ◌++◌, length,
  arith, append-nil, length-drop,
}
use pus_proj.Common.Results.{ok}
use pus_proj.Bytes.{Bytes}
use pus_proj.Text.{encode_text}
use pus_proj.Server.Protocol.{Frame, to_code, encode, hmac_len}
use pus_proj.Server.Payloads.{build_auth_ok}
use pus_proj.Client.Framing.{serialize}
use pus_proj.Client.Reader.{ByteReader, reader}
use pus_proj.Client.Reader
use pus_proj.Client.Encodes.{At, Reads-raw}
use pus_proj.Client.Codes.{dummy_mac_key}
use pus_proj.Client.Requests.{hello_payload, auth_name, login_payload}
use pus_proj.Client.Act.{ClientCrypto, Link, World, ◌>>=◌}
use pus_proj.Client.Session.{next_seq}
use pus_proj.Client.Session.Talk.{parse_lem, frame_of, after_send, send_lem, expect_lem}
use pus_proj.Client.Login.{
  challenge, do_challenge, compute_kmac, default_vault_id, authenticate_with, login,
  response_message, mac_info,
}
use pus_proj.Client.Login.Agreement.{after_auth_ok, parse_auth_ok-build_auth_ok, vault_id_after}

challenge_lem :
    (nonce_s stamp : Bytes)
    → length nonce_s ≡ 32
    → length stamp ≡ 8
    → (r : ByteReader) × (challenge (reader (nonce_s ++ stamp)) ≡ ok (nonce_s, r))
unfolding challenge Reader.◌>>=◌ Reader.remaining Reader.field
challenge_lem nonce_s stamp n32 n8 =
    let start : At (reader (nonce_s ++ stamp)) (nonce_s ++ stamp) = record {
      ahead = refl;
      within = omega arith;
    } in
    let (r1, e1, h1) = (Reads-raw 32 nonce_s n32).run (reader (nonce_s ++ stamp)) stamp start in
    let left : length r1.buf - r1.pos ≡ 8 =
      sym (length-drop r1.pos r1.buf) ∙ ap length h1.ahead ∙ n8 in
    let h2 : At r1 (stamp ++ []) = record {
      ahead = h1.ahead ∙ sym (append-nil stamp);
      within = h1.within;
    } in
    let (r2, e2, h3) = (Reads-raw 8 stamp n8).run r1 [] h2 in (r2, rw (e1, left, e2) refl)

-- The world behind a frame sent and a frame received.
abbrev pub after_exchange : Bytes → ℕ → Bytes → Link → World → World
after_exchange sent left rest link x = record x {
  client = next_seq x.client;
  conn = some (record { incoming = rest; writes_left = left; sent = link.sent ++ (sent ∷ []) });
}

module _ (c : ClientCrypto)
    (hmac_length : (k m : Bytes) → length (c.shared.hmac k m) ≡ hmac_len) where
  pub do_challenge_lem :
      (nonce : Bytes) (now_ms : ℕ) (x : World) (link : Link) (f : Frame)
      (nonce_s stamp rest : Bytes) {left : ℕ} {payload sent raw : Bytes}
      → x.conn ≡ some link
      → link.writes_left ≡ suc left
      → link.incoming ≡ raw ++ rest
      → hello_payload nonce x.client.client_id now_ms ≡ ok payload
      → serialize c.shared.hmac (frame_of 0x01 0 payload x.client) (some dummy_mac_key) ≡ ok sent
      → encode c.shared.hmac f dummy_mac_key ≡ ok raw
      → f.version ≡ 1
      → to_code f.msg_type ≡ 0x02
      → f.payload ≡ nonce_s ++ stamp
      → length nonce_s ≡ 32
      → length stamp ≡ 8
      → do_challenge c nonce now_ms x ≡ (
        ok nonce_s,
        after_exchange sent left rest link
            (record x { client = record x.client { nonce_c = nonce } }),
      )
  unfolding do_challenge ◌>>=◌
  do_challenge_lem nonce now_ms x link f nonce_s stamp rest {left} {payload} {sent} {raw} e w i p s
        enc one is content n32 n8 =
      let x1 : World = record x { client = record x.client { nonce_c = nonce } } in
      let link1 : Link = record link { writes_left = left; sent = link.sent ++ (sent ∷ []) } in
      let said = send_lem c 0x01 0 payload false x1 link e w s in
      let heard =
        expect_lem c hmac_length 0x02 false (after_send sent left link x1) link1 f dummy_mac_key
          rest refl i refl enc one is refl refl in
      let (r, ch) = challenge_lem nonce_s stamp n32 n8 in
      rw (p, said, heard, content) (parse_lem challenge _ _ ch)

  pub authenticate_lem :
      (x : World) (link : Link) (f : Frame) (token : Bytes) (expiry version : ℕ)
      (id rest payload : Bytes) {left : ℕ} {sent raw content : Bytes}
      → x.conn ≡ some link
      → link.writes_left ≡ suc left
      → link.incoming ≡ raw ++ rest
      → serialize c.shared.hmac (frame_of 0x03 0 payload x.client) (some dummy_mac_key) ≡ ok sent
      → encode c.shared.hmac f dummy_mac_key ≡ ok raw
      → f.version ≡ 1
      → to_code f.msg_type ≡ 0x04
      → f.payload ≡ content
      → build_auth_ok token expiry version ≡ ok content
      → default_vault_id c x.client.login_name ≡ ok id
      → let y = after_auth_ok c token expiry version id (after_exchange sent left rest link x) in
        authenticate_with c payload x ≡ (
          ok tt,
          record y {
            client = record y.client {
              k_mac = some (c.shared.hkdf token x.client.nonce_c mac_info);
            };
          },
        )
  unfolding authenticate_with ◌>>=◌ compute_kmac
  authenticate_lem x link f token expiry version id rest payload {left} {sent} {raw} {content} e w i
        s enc one is holds built d =
      let link1 : Link = record link { writes_left = left; sent = link.sent ++ (sent ∷ []) } in
      let said = send_lem c 0x03 0 payload false x link e w s in
      let heard =
        expect_lem c hmac_length 0x04 false (after_send sent left link x) link1 f dummy_mac_key rest
          refl i refl enc one is refl refl in
      let y = after_exchange sent left rest link x in
      let read = parse_auth_ok-build_auth_ok c token expiry version id y built d in
      rw (said, heard, holds, read) refl

  -- A login ends without an exception, with the CHALLENGE and the AUTH_OK read and nothing behind
  -- them, two frames sent under the next two numbers, the HELLO and an AUTH whose response is the
  -- HMAC under the client's key of both nonces and the name, and the token, its expiry, the
  -- version, the nonce and the HMAC key that the server derives from the token and the nonce kept.
  -- It is so when digests have 32 bytes, two writes succeed, both frames fit, the name is encoded
  -- in 64 bytes at most, and the server's two frames have version 1, are encoded with the key of
  -- zeros and carry a nonce of 32 bytes with a time of 8, and what the server builds for an
  -- AUTH_OK.
  pub login_lem :
      (nonce : Bytes) (now_ms : ℕ) (totp_code : Option ℕ) (x : World) (link : Link)
      (challenge_frame ok_frame : Frame) (nonce_s stamp token : Bytes) (expiry version : ℕ)
      (username id rest : Bytes) {left : ℕ} {hello auth sent1 sent2 raw1 raw2 content : Bytes}
      → x.conn ≡ some link
      → link.writes_left ≡ suc (suc left)
      → link.incoming ≡ raw1 ++ (raw2 ++ rest)
      → hello_payload nonce x.client.client_id now_ms ≡ ok hello
      → serialize c.shared.hmac (frame_of 0x01 0 hello x.client) (some dummy_mac_key) ≡ ok sent1
      → encode c.shared.hmac challenge_frame dummy_mac_key ≡ ok raw1
      → challenge_frame.version ≡ 1
      → to_code challenge_frame.msg_type ≡ 0x02
      → challenge_frame.payload ≡ nonce_s ++ stamp
      → length nonce_s ≡ 32
      → length stamp ≡ 8
      → encode_text x.client.login_name ≡ ok username
      → length username ≤ 64
      → login_payload username
          (c.shared.hmac x.client.k_auth (response_message nonce nonce_s username))
          totp_code
        ≡ ok auth
      → serialize c.shared.hmac (frame_of 0x03 0 auth (next_seq x.client)) (some dummy_mac_key)
        ≡ ok sent2
      → encode c.shared.hmac ok_frame dummy_mac_key ≡ ok raw2
      → ok_frame.version ≡ 1
      → to_code ok_frame.msg_type ≡ 0x04
      → ok_frame.payload ≡ content
      → build_auth_ok token expiry version ≡ ok content
      → default_vault_id c x.client.login_name ≡ ok id
      → login c nonce now_ms totp_code x ≡ (
        ok tt,
        record x {
          client = record x.client {
            nonce_c = nonce;
            session_token = token;
            token_expiry = expiry;
            vault_version = version;
            vault_id = vault_id_after x.client.vault_id id;
            k_mac = some (c.shared.hkdf token nonce mac_info);
            seq = x.client.seq + 2;
          };
          conn = some (record {
            incoming = rest;
            writes_left = left;
            sent = (link.sent ++ (sent1 ∷ [])) ++ (sent2 ∷ []);
          });
        },
      )
  unfolding login ◌>>=◌ auth_name
  login_lem nonce now_ms totp_code x link challenge_frame ok_frame nonce_s stamp token expiry
        version username id rest {left} {hello} {auth} {sent1} {sent2} {raw1} {raw2} e w i p s1 enc1
        one1 is1 holds1 n32 n8 name short q s2 enc2 one2 is2 holds2 built d =
      let x1 : World = record x { client = record x.client { nonce_c = nonce } } in
      let y = after_exchange sent1 (suc left) (raw2 ++ rest) link x1 in
      let link1 : Link = record {
        incoming = raw2 ++ rest;
        writes_left = suc left;
        sent = link.sent ++ (sent1 ∷ []);
      } in
      let first =
        do_challenge_lem nonce now_ms x link challenge_frame nonce_s stamp (raw2 ++ rest) e w i p s1
          enc1 one1 is1 holds1 n32 n8 in
      let second =
        authenticate_lem y link1 ok_frame token expiry version id rest auth refl refl refl s2 enc2
          one2 is2 holds2 built d in
      let fits : ltb 64 (length username) ≡ false = ground arith in
      let count : x.client.seq + 1 + 1 ≡ x.client.seq + 2 = omega arith in
      rw (first, name, fits, q, second, count) refl
