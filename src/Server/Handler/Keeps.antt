-- ===== src/Server/Handler/Keeps.antt =====
-- Invariants of a round of `handle_client`, from those of the single actions.
use pus_proj.Common.{ℕ, ◌≡◌, refl, ap, Bool, Option, none, some, List, [], ◌∷◌, All}
use pus_proj.Common.Results.{Result, ok, err}
use pus_proj.Bytes.{Bytes}
use pus_proj.Server.Protocol.{MsgType, Frame}
use pus_proj.Server.Database.{User, create_session, update_vault}
use pus_proj.Server.Connection.{
  Phase, greeting, authenticating, established, Session, Conn, Crypto, send_next, update, statement,
  interleave,
}
use pus_proj.Server.Connection.Sound.{Inv, After, Sound, sound_rules}
use pus_proj.Server.Handler.Environment.{Env, Arrival, in_time, late, Signal, again, leave}
use pus_proj.Server.Handler.Login.{
  on_hello, refresh_row, authenticate, answer_login, refuse, establish, login_with, on_auth,
}
use pus_proj.Server.Handler.Requests.{send_data}
use pus_proj.Server.Payloads.{Auth}
use pus_proj.Server.Handler.Serves.{Serving, on_established-Sound}
use pus_proj.Server.Handler.Loop.{
  Watch, stale, unstamped, Exit, on_user, dispatch, receive, abandon_read, on_timeout,
  wait_and_handle, watched, round, after_round, run,
}

same_seq : (s : Session) → s.outbound_seq ≡ s.outbound_seq
same_seq s = refl

-- What an invariant has to show: that it is kept by a frame sent with the next number, by an
-- assignment that leaves that number, by each statement, by a wait, and by reading.
pub record Primitives (c : Crypto) (env : Env) (j : Inv) : Type 0 where
  pub send : (t : MsgType) (payload key : Bytes) → Sound j (send_next c t payload key)
  pub send_data : (uid : ℕ) (key payload : Bytes) → Sound j (send_data c env uid key payload)
  pub assign :
      (f : Session → Session)
      → ((s : Session) → (f s).outbound_seq ≡ s.outbound_seq)
      → Sound j (update f)
  pub create :
      (token : Bytes) (uid expiry : ℕ) (cid : Bytes)
      → Sound j (statement (create_session token uid expiry cid))
  pub put :
      (vid : Bytes) (uid version : ℕ) (blob : Bytes) (ts : ℕ)
      → Sound j (statement (update_vault vid uid version blob ts))
  pub wait : (i : ℕ) → Sound j (interleave (env.others i))
  pub receive : (key : Bytes) → Sound j (receive c env key)
  pub abandon : (b : Bool) → Sound j (abandon_read c env b)

module _ (c : Crypto) (env : Env) {j : Inv} (p : Primitives c env j) where
  on_hello-Sound : (frame : Frame) → Sound j (on_hello c env frame)
  unfolding on_hello
  on_hello-Sound frame = search (sound_rules, p.send, p.assign, same_seq) depth 12

  refresh_row-Sound :
      (user : Option User) (token : Option Bytes) → Sound j (refresh_row c env user token)
  unfolding refresh_row
  refresh_row-Sound (some user) (some token) = search (sound_rules, p.wait)
  refresh_row-Sound none _ = search sound_rules
  refresh_row-Sound (some user) none = search sound_rules

  authenticate-Sound :
      (nonce_c nonce_s client_id : Bytes) (auth : Auth) (user : Option User)
      → Sound j (authenticate c env nonce_c nonce_s client_id auth user)
  unfolding authenticate
  authenticate-Sound nonce_c nonce_s client_id auth user =
      search (sound_rules, refresh_row-Sound) depth 8

  answer_login-Sound :
      (nonce_c client_id : Bytes) (who : Option ℕ)
      → Sound j (answer_login c env nonce_c client_id who)
  unfolding answer_login refuse establish
  answer_login-Sound nonce_c client_id none = search (sound_rules, p.send) depth 8
  answer_login-Sound nonce_c client_id (some uid) =
      search (sound_rules, p.send, p.assign, p.create, p.wait, same_seq) depth 12

  login_with-Sound :
      (nonce_c nonce_s client_id : Option Bytes) (frame : Frame)
      → Sound j (login_with c env nonce_c nonce_s client_id frame)
  unfolding login_with
  login_with-Sound (some a) (some b) (some d) frame =
      search (sound_rules, p.wait, authenticate-Sound, answer_login-Sound) depth 12
  login_with-Sound none _ _ frame = search sound_rules
  login_with-Sound (some a) none _ frame = search sound_rules
  login_with-Sound (some a) (some b) none frame = search sound_rules

  on_auth-Sound : (frame : Frame) → Sound j (on_auth c env frame)
  unfolding on_auth
  on_auth-Sound frame = search (sound_rules, login_with-Sound) depth 8

  serving : Serving c env j
  serving = record {
    send = p.send;
    send_data = p.send_data;
    buffering = λ f same. p.assign f (λ s. ap (λ (t : Session). t.outbound_seq) (same s));
    put = p.put;
    wait = p.wait;
  }

  on_user-Sound :
      (who : Option ℕ) (key : Bytes) (frame : Frame) → Sound j (on_user c env who key frame)
  unfolding on_user
  on_user-Sound none key frame = search sound_rules
  on_user-Sound (some uid) key frame = on_established-Sound c env serving uid key frame

  dispatch-Sound :
      (phase : Phase) (who : Option ℕ) (key : Bytes) (frame : Frame)
      → Sound j (dispatch c env phase who key frame)
  unfolding dispatch
  dispatch-Sound greeting who key frame = on_hello-Sound frame
  dispatch-Sound authenticating who key frame = on_auth-Sound frame
  dispatch-Sound established who key frame = on_user-Sound who key frame

  on_timeout-Sound : (w : Watch) → Sound j (on_timeout c env w)
  unfolding on_timeout
  on_timeout-Sound stale = search (sound_rules, p.assign, same_seq)
  on_timeout-Sound _ = search sound_rules

  wait_and_handle-Sound :
      (a : Arrival) (s : Session) (key : Bytes) → Sound j (wait_and_handle c env a s key)
  unfolding wait_and_handle
  wait_and_handle-Sound in_time s key = search (sound_rules, p.receive, dispatch-Sound)
  wait_and_handle-Sound (late b) s key = search (sound_rules, p.abandon, on_timeout-Sound)

  watched-Sound : (w : Watch) (s : Session) (key : Bytes) → Sound j (watched c env w s key)
  unfolding watched
  watched-Sound stale s key = search (sound_rules, p.assign, same_seq)
  watched-Sound unstamped s key = search (sound_rules, p.assign, same_seq, wait_and_handle-Sound)
  watched-Sound _ s key = wait_and_handle-Sound env.arrival s key

  -- A round keeps every invariant that the single actions keep.
  pub round-Sound : Sound j (round c env)
  unfolding round
  round-Sound = search (sound_rules, watched-Sound) depth 8

-- A whole connection leaves what its rounds leave.
module _ (c : Crypto) (j : Inv) where
  after_round-left :
      (rest : Conn → Exit × Conn)
      → ((y : Conn) → j.holds y → j.left (rest y).1)
      → (r : Result Signal) (y : Conn) → After j (r, y)
      → j.left (after_round rest (r, y)).1
  after_round-left rest keep (ok again) y h = keep y h
  after_round-left rest keep (ok leave) y h = j.weak y h
  after_round-left rest keep (err e) y h = h

  pub run-left :
      (envs : List Env) (x : Conn)
      → All (λ env. Primitives c env j) envs
      → j.holds x
      → j.left (run c envs x).1
  unfolding run
  run-left [] x ps h = j.weak x h
  run-left (env ∷ envs) x (p, ps) h =
      after_round-left (run c envs) (λ y k. run-left envs y ps k) (round c env x).0
        (round c env x).1 ((round-Sound c env p).at x h)
