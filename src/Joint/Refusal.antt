-- ===== src/Joint/Refusal.antt =====
-- The round in which server-py/server.py refuses a login of client-py/svpclient.py.
use pus_proj.Common.{
  ℕ, ◌+◌, ◌^◌, ◌≤◌, ◌<◌, ◌≡◌, ◌≢◌, refl, ap, ◌∙◌, inl, inr, true, false, Option, none, some, [],
  ◌∷◌, ◌++◌, ◌==◌, length, Bool-cases, arith,
}
use pus_proj.Common.Results.{ok}
use pus_proj.Bytes.{Bytes, pack, to_le, bytes_eq, bytes_eq→eq}
use pus_proj.Text.{encode_text}
use pus_proj.Server.Protocol.{MsgType, Frame, of_code, hmac_len, no_flags}
use pus_proj.Server.Protocol.RoundTrip.{signed_part}
use pus_proj.Server.Database.{Db, User, get_user_by_username}
use pus_proj.Server.Payloads.{Auth, parse_auth, build_auth_fail}
use pus_proj.Server.Connection.{authenticating, Conn, Crypto, ◌>>=◌, outgoing, dummy_mac_key}
use pus_proj.Server.Handler.Environment.{Env, in_time, leave}
use pus_proj.Server.Handler.Login.{
  on_auth, login_with, authenticate, answer_login, refuse, password_check, is_type,
}
use pus_proj.Server.Handler.Loop.{active_mac_key, watch, idle, dispatch, round}
use pus_proj.Client.Framing.{serialize, serialize-encode, as_server}
use pus_proj.Client.Requests.{login_payload}
use pus_proj.Client.Requests.Auths.{with_totp, parse_auth-login_payload}
use pus_proj.Client.Act.{ClientCrypto, Client}
use pus_proj.Client.Session.Talk.{frame_of}
use pus_proj.Client.Login.{response_message}
use pus_proj.Joint.Rounds.{framed, round_lem, send_next_lem}
use pus_proj.Joint.Admission.{is_type_lem}

-- No user of that name, or one with a key under which the message has another HMAC.
abbrev pub IsStranger : Crypto → Bytes → Bytes → Option User → Type 0
IsStranger c k_auth message none = Unit
IsStranger c k_auth message (some user) =
    (k : Bytes) × (user.k_auth ≡ some k) × (c.hmac k_auth message ≢ c.hmac k message)

-- The payload of every AUTH_FAIL.
abbrev pub fail_bytes : Bytes
fail_bytes = 6 ∷ 0 ∷ 0 ∷ 0 ∷ 0 ∷ []

build_auth_fail_lem : build_auth_fail ≡ ok fail_bytes
unfolding build_auth_fail pack to_le
build_auth_fail_lem = refl

module _ (c : Crypto) (env : Env) where
  stranger_lem :
      (nonce_c nonce_s name k_auth : Bytes) (auth : Auth) (o : Option User)
      → auth.hmac_resp ≡ c.hmac k_auth (response_message nonce_c nonce_s name)
      → IsStranger c k_auth (response_message nonce_c nonce_s name) o
      → password_check c env nonce_c nonce_s auth name o ≡ none
  unfolding password_check
  stranger_lem nonce_c nonce_s name k_auth auth none answer h = refl
  stranger_lem nonce_c nonce_s name k_auth auth (some user) answer (k, stored, ne) =
      let m = response_message nonce_c nonce_s name in
      elim (Bool-cases (bytes_eq (c.hmac k_auth m) (c.hmac k m))) [
        | inl same ↦ absurd (ne (bytes_eq→eq _ _ same))
        | inr other ↦ rw (stored, answer, other) refl
      ]

  -- The connection behind an AUTH_FAIL.
  abbrev pub refused : Db → Conn → Conn
  refused d x = record x {
    session = record x.session { outbound_seq = x.session.outbound_seq + 1 };
    db = d;
    written =
        x.written
        ++ (framed c (outgoing MsgType.auth_fail fail_bytes x.session.outbound_seq no_flags)
              dummy_mac_key
            ∷ []);
  }

  refuse_lem :
      (x : Conn) → x.session.outbound_seq < 2 ^ 32 → refuse c env x ≡ (ok leave, refused x.db x)
  unfolding refuse ◌>>=◌
  refuse_lem x fits =
      let sent = send_next_lem c MsgType.auth_fail fail_bytes dummy_mac_key x (omega arith) fits in
      rw (build_auth_fail_lem, sent) refl

  refused_lem :
      (frame : Frame) (auth : Auth) (nonce_c nonce_s client_id name k_auth : Bytes) (x : Conn)
      → x.session.nonce_c ≡ some nonce_c
      → x.session.nonce_s ≡ some nonce_s
      → x.session.client_id ≡ some client_id
      → frame.msg_type ≡ MsgType.auth
      → parse_auth frame.payload ≡ ok auth
      → (auth.token_refresh == 1) ≡ false
      → encode_text auth.username ≡ ok name
      → auth.hmac_resp ≡ c.hmac k_auth (response_message nonce_c nonce_s name)
      → IsStranger c k_auth
          (response_message nonce_c nonce_s name)
          (get_user_by_username auth.username (env.others 0 x.db))
      → x.session.outbound_seq < 2 ^ 32
      → on_auth c env frame x ≡ (ok leave, refused (env.others 0 x.db) x)
  unfolding on_auth login_with authenticate answer_login ◌>>=◌
  refused_lem frame auth nonce_c nonce_s client_id name k_auth x a b e is p fresh named answer
        stranger fits =
      let right : is_type frame.msg_type MsgType.auth ≡ true = is_type_lem is in
      let s = x.session in
      let who = stranger_lem nonce_c nonce_s name k_auth auth _ answer stranger in
      let out = refuse_lem (record x { db = env.others 0 x.db }) fits in
      rw right (
        ap (λ z. login_with c env z s.nonce_s s.client_id frame x) a
        ∙ ap (λ z. login_with c env (some nonce_c) z s.client_id frame x) b
        ∙ ap (λ z. login_with c env (some nonce_c) (some nonce_s) z frame x) e
        ∙ rw (p, fresh, named, who, out) refl)

module _ (c : ClientCrypto) where
  pub refusal_round :
      (env : Env) (nonce nonce_s client_id : Bytes) (totp_code : Option ℕ) (cl : Client) (y : Conn)
      (more : Bytes) {username auth sent : Bytes}
      → ((k m : Bytes) → length (c.shared.hmac k m) ≡ hmac_len)
      → y.session.phase ≡ authenticating
      → y.session.nonce_c ≡ some nonce
      → y.session.nonce_s ≡ some nonce_s
      → y.session.client_id ≡ some client_id
      → y.session.outbound_seq < 2 ^ 32
      → y.incoming ≡ sent ++ more
      → env.arrival ≡ in_time
      → encode_text cl.login_name ≡ ok username
      → 1 ≤ length username
      → length username ≤ 64
      → let message = response_message nonce nonce_s username in
        IsStranger c.shared cl.k_auth message
          (get_user_by_username cl.login_name (env.others 0 y.db))
        → login_payload username (c.shared.hmac cl.k_auth message) totp_code ≡ ok auth
        → serialize c.shared.hmac (frame_of 0x03 0 auth cl) (some dummy_mac_key) ≡ ok sent
        → round c.shared env y
          ≡ (ok leave, refused c.shared env (env.others 0 y.db) (record y { incoming = more }))
  unfolding active_mac_key watch dispatch of_code
  refusal_round env nonce nonce_s client_id totp_code cl y more {username} {auth} {sent} hmac_length
        ph nc ns ci fits i t name some_name short stranger p s =
      let f = frame_of 0x03 0 auth cl in
      let e = serialize-encode c.shared.hmac f dummy_mac_key {t = MsgType.auth} refl refl s in
      let g = record (as_server MsgType.auth f) {
        hmac = c.shared.hmac dummy_mac_key (signed_part (as_server MsgType.auth f));
      } in
      let read = record y { incoming = more } in
      let resp = c.shared.hmac cl.k_auth (response_message nonce nonce_s username) in
      let a = with_totp cl.login_name resp totp_code in
      let parsed =
        parse_auth-login_payload cl.login_name resp name some_name short (hmac_length _ _) totp_code
          p in
      let key : active_mac_key y.session ≡ ok dummy_mac_key = rw ph refl in
      let calm : watch y.session (env.monotonic_ms 0) ≡ idle = rw ph refl in
      round_lem c.shared hmac_length env y dummy_mac_key (as_server MsgType.auth f) more key calm t
        i e
      ∙ ap (λ z. dispatch c.shared env z y.session.authenticated_user_id dummy_mac_key g read) ph
      ∙ refused_lem c.shared env g a nonce nonce_s client_id username cl.k_auth read nc ns ci refl
          parsed refl name refl stranger fits
