-- ===== src/Server/Handler/Access.antt =====
-- Who gets into the state ESTABLISHED of `handle_client` (server-py/server.py).
use pus_proj.Common.{
  ℕ, ◌≡◌, ◌≢◌, refl, ap, sym, subst, ◌∙◌, ◌⊎◌, inl, inr, Option, none, some, arith, Bool-cases,
  ==→eq,
}
use pus_proj.Common.Results.{Result, ok, Result-cases}
use pus_proj.Bytes.{Bytes}
use pus_proj.Server.Protocol.{MsgType, Frame}
use pus_proj.Server.Protocol.RoundTrip.{to_code_injective}
use pus_proj.Server.Database.{User, get_user_by_username}
use pus_proj.Server.Payloads.{Auth, parse_auth}
use pus_proj.Server.Connection.{established, Conn, Crypto, ◌>>=◌}
use pus_proj.Server.Connection.Sound.{bind_inv}
use pus_proj.Server.Handler.Credentials.{ByPassword, ByToken, authenticate_lem}
use pus_proj.Server.Handler.Environment.{Env, Signal, again}
use pus_proj.Server.Handler.Login.{
  authenticate, refuse, establish, answer_login, login_with, on_auth, is_type, mac_info,
}

pub record Admitted (c : Crypto) (env : Env) (frame : Frame) (x : Conn) (uid : ℕ) : Type 0 where
  pub nonce_c : Bytes
  pub nonce_s : Bytes
  pub client_id : Bytes
  pub challenged : x.session.nonce_s ≡ some nonce_s
  pub greeted : x.session.nonce_c ≡ some nonce_c
  pub introduced : x.session.client_id ≡ some client_id
  pub auth : Auth
  pub parsed : parse_auth frame.payload ≡ ok auth
  pub user : User
  pub known : get_user_by_username auth.username (env.others 0 x.db) ≡ some user
  pub who : user.id ≡ uid
  pub shown :
      ByPassword c env nonce_c nonce_s auth user
      ⊎ ByToken env client_id auth user (env.others 1 (env.others 0 x.db))

module _ (c : Crypto) (env : Env) where
  -- A refusal does not go on, and what goes on is established for the user.
  refuse_leaves : (x : Conn) → (refuse c env x).0 ≢ ok again
  unfolding refuse ◌>>=◌
  refuse_leaves x h = ground arith

  establish_lem :
      (nonce_c client_id : Bytes) (uid : ℕ) (x : Conn)
      → (establish c env nonce_c client_id uid x).0 ≡ ok again
      → ((establish c env nonce_c client_id uid x).1.session.authenticated_user_id ≡ some uid)
        × ((establish c env nonce_c client_id uid x).1.session.phase ≡ established)
        × ((establish c env nonce_c client_id uid x).1.session.session_mac_key
            ≡ some (c.hkdf env.urandom nonce_c mac_info))
  unfolding establish ◌>>=◌
  establish_lem nonce_c client_id uid x h = ground arith

  -- What the user and the session are once `who` has been answered.
  answered :
      (a b d : Bytes) (frame : Frame) (x : Conn) (auth : Auth) (res : Result Signal × Conn)
      (who : Option ℕ)
      → some a ≡ x.session.nonce_c
      → some b ≡ x.session.nonce_s
      → some d ≡ x.session.client_id
      → parse_auth frame.payload ≡ ok auth
      → (authenticate c env a b d auth
          (get_user_by_username auth.username (env.others 0 x.db))
          (record x { db = env.others 0 x.db })).0
        ≡ ok who
      → res
        ≡ answer_login c env a d who
            (authenticate c env a b d auth
              (get_user_by_username auth.username (env.others 0 x.db))
              (record x { db = env.others 0 x.db })).1
      → res.0 ≡ ok again
      → (uid : ℕ) × (w : Admitted c env frame x uid) × (res.1.session.authenticated_user_id
          ≡ some uid)
        × (res.1.session.phase ≡ established)
        × (res.1.session.session_mac_key ≡ some (c.hkdf env.urandom w.nonce_c mac_info))
  unfolding answer_login
  answered a b d frame x auth res none p q r s t e h =
      absurd (refuse_leaves _ (ap (λ (z : Result Signal × Conn). z.0) (sym e) ∙ h))
  answered a b d frame x auth res (some uid) p q r s t e h =
      let (user, known, who, shown) =
        authenticate_lem c env a b d auth (get_user_by_username auth.username (env.others 0 x.db))
          (record x { db = env.others 0 x.db }) t in
      let (e1, e2, e3) =
        establish_lem a d uid _ (ap (λ (z : Result Signal × Conn). z.0) (sym e) ∙ h) in
      (
        uid,
        record {
          nonce_c = a;
          nonce_s = b;
          client_id = d;
          challenged = sym q;
          greeted = sym p;
          introduced = sym r;
          auth = auth;
          parsed = s;
          user = user;
          known = known;
          who = who;
          shown = shown;
        },
        ap (λ (z : Result Signal × Conn). z.1.session.authenticated_user_id) e ∙ e1,
        ap (λ (z : Result Signal × Conn). z.1.session.phase) e ∙ e2,
        ap (λ (z : Result Signal × Conn). z.1.session.session_mac_key) e ∙ e3,
      )

  login_with_lem :
      (a b d : Option Bytes) (frame : Frame) (x : Conn)
      → a ≡ x.session.nonce_c
      → b ≡ x.session.nonce_s
      → d ≡ x.session.client_id
      → (login_with c env a b d frame x).0 ≡ ok again
      → (uid : ℕ) × (w : Admitted c env frame x uid) × ((login_with c env a b d frame
            x).1.session.authenticated_user_id
          ≡ some uid)
        × ((login_with c env a b d frame x).1.session.phase ≡ established)
        × ((login_with c env a b d frame x).1.session.session_mac_key
            ≡ some (c.hkdf env.urandom w.nonce_c mac_info))
  unfolding login_with ◌>>=◌
  login_with_lem none b d frame x p q r h = cc
  login_with_lem (some a) none d frame x p q r h = cc
  login_with_lem (some a) (some b) none frame x p q r h = cc
  login_with_lem (some a) (some b) (some d) frame x p q r h =
      elim (Result-cases (parse_auth frame.payload)) [
        | inr (e, s) ↦ ground arith
        | inl (auth, s) ↦
            let o = get_user_by_username auth.username (env.others 0 x.db) in
            let x1 = record x { db = env.others 0 x.db } in
            let m = authenticate c env a b d auth o in
            let whole : login_with c env (some a) (some b) (some d) frame x
                ≡ (m >>= λ who. answer_login c env a d who) x1 =
              rw s in
            let (who, t, e) =
              bind_inv m (λ who. answer_login c env a d who) x1
                (subst (λ (z : Result Signal × Conn). z.0 ≡ ok again) whole h) in
            answered a b d frame x auth _ who p q r s t (whole ∙ e) h
      ]

-- A frame gets a connection from AUTHENTICATING to ESTABLISHED only as an AUTH message that names a
-- user of the database, with a right answer to this connection's challenge and, where the user has
-- a TOTP secret, a verified code, or with the token of an unexpired session of the same user and
-- the same client id; the connection is then the user's, under the HMAC key that comes of the new
-- token and the client's nonce.
pub on_auth-Admitted :
    (c : Crypto) (env : Env) (frame : Frame) (x : Conn)
    → (on_auth c env frame x).0 ≡ ok again
    → (frame.msg_type ≡ MsgType.auth)
      × ((uid : ℕ) × (w : Admitted c env frame x uid) × ((on_auth c env frame
              x).1.session.authenticated_user_id
            ≡ some uid)
          × ((on_auth c env frame x).1.session.phase ≡ established)
          × ((on_auth c env frame x).1.session.session_mac_key
              ≡ some (c.hkdf env.urandom w.nonce_c mac_info)))
unfolding on_auth ◌>>=◌
on_auth-Admitted c env frame x h = elim (Bool-cases (is_type frame.msg_type MsgType.auth)) [
  | inr other ↦ ground arith
  | inl right ↦ (
    to_code_injective frame.msg_type MsgType.auth (==→eq _ _ right),
    rw right (
        login_with_lem c env x.session.nonce_c x.session.nonce_s x.session.client_id frame x refl
          refl refl (rw right at h)),
  )
]
