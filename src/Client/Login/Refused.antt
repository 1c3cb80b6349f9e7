-- ===== src/Client/Login/Refused.antt =====
-- How the login of client-py/svpclient.py ends when the server refuses it.
use pus_proj.Common.{
  ℕ, suc, ◌+◌, ◌≤◌, ◌≡◌, refl, ap, false, Option, some, [], ◌∷◌, ◌++◌, length, ltb, ◌==◌, arith,
}
use pus_proj.Common.Results.{ok, err, protocol_error}
use pus_proj.Bytes.{Bytes}
use pus_proj.Text.{encode_text}
use pus_proj.Server.Protocol.{Frame, to_code, encode, hmac_len}
use pus_proj.Client.Framing.{serialize}
use pus_proj.Client.Codes.{dummy_mac_key, err_internal}
use pus_proj.Client.Requests.{hello_payload, auth_name, login_payload}
use pus_proj.Client.Act.{ClientCrypto, Link, World, ◌>>=◌}
use pus_proj.Client.Session.{next_seq, expect}
use pus_proj.Client.Session.Talk.{frame_of, after_send, after_recv, send_lem, recv_lem}
use pus_proj.Client.Login.{authenticate_with, login, response_message}
use pus_proj.Client.Login.Completes.{after_exchange, do_challenge_lem}

module _ (c : ClientCrypto)
    (hmac_length : (k m : Bytes) → length (c.shared.hmac k m) ≡ hmac_len) where
  -- A frame of another type than the expected one, not a PING nor an ERROR, is an internal error.
  expect_other :
      (type : ℕ) (x : World) (link : Link) (f : Frame) (rest : Bytes) {raw : Bytes}
      → x.conn ≡ some link
      → link.incoming ≡ raw ++ rest
      → encode c.shared.hmac f dummy_mac_key ≡ ok raw
      → f.version ≡ 1
      → (to_code f.msg_type == type) ≡ false
      → (to_code f.msg_type == 0x20) ≡ false
      → (to_code f.msg_type == 0xFF) ≡ false
      → expect c type false x ≡ (err (protocol_error err_internal), after_recv rest link x)
  unfolding expect ◌>>=◌
  expect_other type x link f rest e i enc one other ping bad =
      let got =
        recv_lem c hmac_length false x link f dummy_mac_key rest e i refl enc one ping bad in
      rw (got, other) refl

  authenticate_refused :
      (x : World) (link : Link) (f : Frame) (rest payload : Bytes) {left : ℕ} {sent raw : Bytes}
      → x.conn ≡ some link
      → link.writes_left ≡ suc left
      → link.incoming ≡ raw ++ rest
      → serialize c.shared.hmac (frame_of 0x03 0 payload x.client) (some dummy_mac_key) ≡ ok sent
      → encode c.shared.hmac f dummy_mac_key ≡ ok raw
      → f.version ≡ 1
      → to_code f.msg_type ≡ 0x05
      → authenticate_with c payload x
        ≡ (err (protocol_error err_internal), after_exchange sent left rest link x)
  unfolding authenticate_with ◌>>=◌
  authenticate_refused x link f rest payload {left} {sent} e w i s enc one is =
      let link1 : Link = record link { writes_left = left; sent = link.sent ++ (sent ∷ []) } in
      let said = send_lem c 0x03 0 payload false x link e w s in
      let heard =
        expect_other 0x04 (after_send sent left link x) link1 f rest refl i enc one
          (ap (λ t. t == 0x04) is) (ap (λ t. t == 0x20) is) (ap (λ t. t == 0xFF) is) in
      rw (said, heard) refl

  -- A login that is answered by an AUTH_FAIL raises ProtocolError(ERR_INTERNAL), after the HELLO and
  -- the AUTH were sent, and keeps no key of a session.
  pub login_refused :
      (nonce : Bytes) (now_ms : ℕ) (totp_code : Option ℕ) (x : World) (link : Link)
      (challenge_frame fail_frame : Frame) (nonce_s stamp username rest : Bytes) {left : ℕ}
      {hello auth sent1 sent2 raw1 raw2 : Bytes}
      → x.conn ≡ some link
      → link.writes_left ≡ suc (suc left)
      → link.incoming ≡ raw1 ++ (raw2 ++ rest)
      → hello_payload nonce x.client.client_id now_ms ≡ ok hello
      → serialize c.shared.hmac (frame_of 0x01 0 hello x.client) (some dummy_mac_key) ≡ ok sent1
      → encode c.shared.hmac challenge_frame dummy_mac_key ≡ ok raw1
      → challenge_frame.version ≡ 1
      → to_code challenge_frame.msg_type ≡ 0x02
      → challenge_frame.payload ≡ nonce_s ++ stamp
      → length nonce_s ≡ 32
      → length stamp ≡ 8
      → encode_text x.client.login_name ≡ ok username
      → length username ≤ 64
      → login_payload username
          (c.shared.hmac x.client.k_auth (response_message nonce nonce_s username))
          totp_code
        ≡ ok auth
      → serialize c.shared.hmac (frame_of 0x03 0 auth (next_seq x.client)) (some dummy_mac_key)
        ≡ ok sent2
      → encode c.shared.hmac fail_frame dummy_mac_key ≡ ok raw2
      → fail_frame.version ≡ 1
      → to_code fail_frame.msg_type ≡ 0x05
      → login c nonce now_ms totp_code x ≡ (
        err (protocol_error err_internal),
        record x {
          client = record x.client { nonce_c = nonce; seq = x.client.seq + 2 };
          conn = some (record {
            incoming = rest;
            writes_left = left;
            sent = (link.sent ++ (sent1 ∷ [])) ++ (sent2 ∷ []);
          });
        },
      )
  unfolding login ◌>>=◌ auth_name
  login_refused nonce now_ms totp_code x link challenge_frame fail_frame nonce_s stamp username rest
        {left} {hello} {auth} {sent1} {sent2} {raw1} {raw2} e w i p s1 enc1 one1 is1 holds1 n32 n8
        name short q s2 enc2 one2 is2 =
      let x1 : World = record x { client = record x.client { nonce_c = nonce } } in
      let y = after_exchange sent1 (suc left) (raw2 ++ rest) link x1 in
      let link1 : Link = record {
        incoming = raw2 ++ rest;
        writes_left = suc left;
        sent = link.sent ++ (sent1 ∷ []);
      } in
      let first =
        do_challenge_lem c hmac_length nonce now_ms x link challenge_frame nonce_s stamp
          (raw2 ++ rest) e w i p s1 enc1 one1 is1 holds1 n32 n8 in
      let fits : ltb 64 (length username) ≡ false = ground arith in
      let second =
        authenticate_refused y link1 fail_frame rest auth refl refl refl s2 enc2 one2 is2 in
      let count : x.client.seq + 1 + 1 ≡ x.client.seq + 2 = omega arith in
      rw (first, name, fits, q, second, count) refl
