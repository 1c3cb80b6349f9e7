-- ===== src/Server/Handler/Variables.antt =====
-- The local variables of `handle_client` (server-py/server.py) that each of its states relies on.
use pus_proj.Common.{
  ℕ, ◌≡◌, ◌≢◌, refl, sym, subst, inl, inr, Option, none, some, List, [], ◌∷◌, ◌++◌, Bool-cases,
}
use pus_proj.Common.Results.{
  Result, ok, err, Error, format_error, hmac_error, incomplete_read, Result-cases,
}
use pus_proj.Bytes.{Bytes, pack}
use pus_proj.Server.Protocol.{MsgType, Frame, encode}
use pus_proj.Server.Wire.{read_frame}
use pus_proj.Server.Database.{Db}
use pus_proj.Server.Payloads.{parse_hello}
use pus_proj.Server.Connection.{
  Phase, greeting, authenticating, established, Session, Conn, Crypto, opened, send_next,
  send_frame, write, update, outgoing, dummy_mac_key, raise, ◌>>=◌,
}
use pus_proj.Server.Connection.Sound.{After}
use pus_proj.Server.Handler.Environment.{Env, Arrival, Signal, again, leave, in_time, late}
use pus_proj.Server.Handler.Login.{on_hello, on_auth, is_type}
use pus_proj.Server.Handler.Requests.{without_buffer}
use pus_proj.Server.Handler.Serves.{on_established-Sound}
use pus_proj.Server.Handler.Access.{on_auth-Admitted}
use pus_proj.Server.Handler.Loop.{
  received, receive, abandon_read, active_mac_key, dispatch, on_user, on_timeout, wait_and_handle,
  watched, watch, Watch, idle, stale, unstamped, running, round, after_round, run, handle_client,
  Exit, exit_of, waiting,
}
use pus_proj.Server.Handler.Steady.{steady, steady-Serving}

-- What a state relies on: AUTHENTICATING on both nonces and the client id, ESTABLISHED on the user
-- and the HMAC key.
abbrev pub Provided : Phase → Session → Type 0
Provided greeting s = Unit
Provided authenticating s =
    ((a : Bytes) × (s.nonce_c ≡ some a))
    × ((b : Bytes) × (s.nonce_s ≡ some b))
    × ((d : Bytes) × (s.client_id ≡ some d))
Provided established s =
    ((uid : ℕ) × (s.authenticated_user_id ≡ some uid))
    × ((key : Bytes) × (s.session_mac_key ≡ some key))

abbrev pub IsComplete : Session → Type 0
IsComplete s = Provided s.phase s

module _ (c : Crypto) (env : Env) where
  -- A round that goes on leaves the variables complete.
  abbrev Kept : Result Signal × Conn → Type 0
  Kept (ok again, y) = IsComplete y.session
  Kept (ok leave, y) = Unit
  Kept (err e, y) = Unit

  greeted_lem :
      (frame : Frame) (x : Conn)
      → (on_hello c env frame x).0 ≡ ok again
      → IsComplete (on_hello c env frame x).1.session
  unfolding on_hello send_next send_frame write update ◌>>=◌
  greeted_lem frame x h = elim (Bool-cases (is_type frame.msg_type MsgType.hello)) [
    | inr other ↦ cc (rw other at h)
    | inl right ↦ elim (Result-cases (parse_hello (env.now_ms 0) frame.payload)) [
      | inr (e, p) ↦ cc (rw (right, p) at h)
      | inl (hello, p) ↦ elim (Result-cases (pack 8 (env.now_ms 1))) [
        | inr (e, q) ↦ cc (rw (right, p, q) at h)
        | inl (stamp, q) ↦
            elim (Result-cases (
              encode c.hmac
                (outgoing MsgType.challenge (env.urandom ++ stamp) x.session.outbound_seq 0)
                dummy_mac_key)) [
                  | inr (e, r) ↦ cc (rw (right, p, q, r) at h)
                  | inl (raw, r) ↦ rw (right, p, q, r) ((_, refl), (_, refl), (_, refl))
                ]
      ]
    ]
  ]

  Kept_lem : (r : Result Signal × Conn) → (r.0 ≡ ok again → IsComplete r.1.session) → Kept r
  Kept_lem (ok again, y) h = h refl
  Kept_lem (ok leave, y) h = tt
  Kept_lem (err e, y) h = tt

  on_auth-Kept : (frame : Frame) (x : Conn) → Kept (on_auth c env frame x)
  on_auth-Kept frame x = Kept_lem _ λ h.
      let (is, (uid, w, who, phase, key)) = on_auth-Admitted c env frame x h in
      subst (λ ph. Provided ph (on_auth c env frame x).1.session) (sym phase) ((uid, who), (_, key))

  Steady-Kept :
      (uid : ℕ) (key : Bytes) (r : Result Signal × Conn)
      → After (steady c (some uid) (some key)) r
      → Kept r
  unfolding steady
  Steady-Kept uid key (ok again, y) (phase, who, mac) =
      subst (λ ph. Provided ph y.session) (sym phase) ((uid, who), (key, mac))
  Steady-Kept uid key (ok leave, y) h = tt
  Steady-Kept uid key (err e, y) h = tt

  dispatch-Kept :
      (ph : Phase) (who : Option ℕ) (key : Bytes) (frame : Frame) (x : Conn)
      → x.session.phase ≡ ph
      → x.session.authenticated_user_id ≡ who
      → Provided ph x.session
      → Kept (dispatch c env ph who key frame x)
  unfolding dispatch on_user steady raise
  dispatch-Kept greeting who key frame x e u h = Kept_lem _ (greeted_lem frame x)
  dispatch-Kept authenticating who key frame x e u h = on_auth-Kept frame x
  dispatch-Kept established none key frame x e u h = tt
  dispatch-Kept established (some uid) key frame x e u (h, (mac, k)) = Steady-Kept uid mac _ (
      (on_established-Sound c env (steady-Serving c (some uid) (some mac) env) uid key frame).at x
        (e, u, k))

  Provided-without_buffer :
      (ph : Phase) (s : Session) → Provided ph s → Provided ph (without_buffer s)
  Provided-without_buffer greeting s h = h
  Provided-without_buffer authenticating s h = h
  Provided-without_buffer established s h = h

  on_timeout-Kept : (w : Watch) (x : Conn) → IsComplete x.session → Kept (on_timeout c env w x)
  unfolding on_timeout update ◌>>=◌
  on_timeout-Kept stale x h = Provided-without_buffer x.session.phase x.session h
  on_timeout-Kept idle x h = tt
  on_timeout-Kept unstamped x h = tt
  on_timeout-Kept running x h = tt

  wait_and_handle-Kept :
      (a : Arrival) (key : Bytes) (x : Conn)
      → IsComplete x.session
      → Kept (wait_and_handle c env a x.session key x)
  unfolding wait_and_handle receive received abandon_read ◌>>=◌
  wait_and_handle-Kept in_time key x h = elim (Result-cases (read_frame c.hmac x.incoming key)) [
    | inr (e, p) ↦ rw p tt
    | inl ((frame, rest), p) ↦ rw p (
        dispatch-Kept x.session.phase x.session.authenticated_user_id key frame
          (record x { incoming = rest }) refl refl h)
  ]
  wait_and_handle-Kept (late b) key x h = on_timeout-Kept _ _ h

  watched-Kept :
      (w : Watch) (key : Bytes) (x : Conn)
      → IsComplete x.session
      → Kept (watched c env w x.session key x)
  unfolding watched update ◌>>=◌
  watched-Kept stale key x h = Provided-without_buffer x.session.phase x.session h
  watched-Kept unstamped key x h =
      wait_and_handle-Kept env.arrival key (record x { session = without_buffer x.session })
        (Provided-without_buffer x.session.phase x.session h)
  watched-Kept idle key x h = wait_and_handle-Kept env.arrival key x h
  watched-Kept running key x h = wait_and_handle-Kept env.arrival key x h

  round-Kept : (x : Conn) → IsComplete x.session → Kept (round c env x)
  unfolding round ◌>>=◌
  round-Kept x h = elim (Result-cases (active_mac_key x.session)) [
    | inr (e, p) ↦ rw p tt
    | inl (key, p) ↦ rw p (watched-Kept (watch x.session (env.monotonic_ms 0)) key x h)
  ]

exit_ends : (e : Error) → exit_of e ≢ waiting
exit_ends incomplete_read h = cc
exit_ends hmac_error h = cc
exit_ends format_error h = cc
exit_ends _ h = cc

module _ (c : Crypto) where
  after_round-IsComplete :
      (env : Env) (rest : Conn → Exit × Conn) (r : Result Signal × Conn)
      → ((y : Conn) → IsComplete y.session → (rest y).0 ≡ waiting → IsComplete (rest y).1.session)
      → Kept c env r
      → (after_round rest r).0 ≡ waiting
      → IsComplete (after_round rest r).1.session
  after_round-IsComplete env rest (ok again, y) keep k h = keep y k h
  after_round-IsComplete env rest (ok leave, y) keep k h = cc
  after_round-IsComplete env rest (err e, y) keep k h = absurd (exit_ends e h)

  run-IsComplete :
      (envs : List Env) (x : Conn)
      → IsComplete x.session
      → (run c envs x).0 ≡ waiting
      → IsComplete (run c envs x).1.session
  unfolding run
  run-IsComplete [] x k h = k
  run-IsComplete (env ∷ envs) x k h =
      after_round-IsComplete env (run c envs) (round c env x) (run-IsComplete envs)
        (round-Kept c env x k) h

key_lem :
    (ph : Phase) (s : Session)
    → s.phase ≡ ph
    → Provided ph s
    → (key : Bytes) × (active_mac_key s ≡ ok key)
unfolding active_mac_key
key_lem greeting s e h = (dummy_mac_key, rw e refl)
key_lem authenticating s e h = (dummy_mac_key, rw e refl)
key_lem established s e (who, (key, k)) = (key, rw (e, k) refl)

active_mac_key_lem : (s : Session) → IsComplete s → (key : Bytes) × (active_mac_key s ≡ ok key)
active_mac_key_lem s h = key_lem s.phase s refl h

-- A connection that waits for a frame, whatever was said on it, has the variables that its state
-- relies on: in AUTHENTICATING both nonces and the client id, in ESTABLISHED a user and an HMAC key.
-- There is always a key to check the next frame with: active_mac_key does not raise.
pub handle_client-IsComplete :
    (c : Crypto) (envs : List Env) (db : Db) (incoming : Bytes)
    → (handle_client c envs db incoming).0 ≡ waiting
    → IsComplete (handle_client c envs db incoming).1.session
      × ((key : Bytes) × (active_mac_key (handle_client c envs db incoming).1.session ≡ ok key))
unfolding handle_client
handle_client-IsComplete c envs db incoming h =
    let k = run-IsComplete c envs (opened db incoming) tt h in (k, active_mac_key_lem _ k)
