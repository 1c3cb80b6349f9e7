-- ===== src/Server/Handler/Loop.antt =====
-- One round of the loop of `handle_client` (server-py/server.py), and the whole connection.
use pus_proj.Common.{ℕ, ◌-◌, Bool, Option, none, some, List, [], ◌∷◌, drop, leb, if◌then◌else◌}
use pus_proj.Common.Results.{Result, ok, err, Error, format_error, hmac_error, incomplete_read}
use pus_proj.Bytes.{Bytes}
use pus_proj.Server.Protocol.{Frame, header_len}
use pus_proj.Server.Wire.{read_frame}
use pus_proj.Server.Database.{Db}
use pus_proj.Server.Connection.{
  Phase, greeting, authenticating, established, Session, opened, Conn, Crypto, Io, ◌>>=◌, ◌>>◌,
  pure, raise, lift, session, update, dummy_mac_key,
}
use pus_proj.Server.Handler.Environment.{Env, Arrival, in_time, late, Signal, again, leave}
use pus_proj.Server.Handler.Login.{on_hello, on_auth}
use pus_proj.Server.Handler.Requests.{on_established, without_buffer}

-- FRAGMENT_TIMEOUT_SECONDS, in milliseconds
abbrev pub fragment_timeout_ms : ℕ
fragment_timeout_ms = 30_000

-- active_mac_key: lines 323 to 328
unfoldable pub active_mac_key : Session → Result Bytes
active_mac_key s = elim s.phase [
  | established ↦ elim s.session_mac_key [ none ↦ err format_error | some key ↦ ok key ]
  | _ ↦ ok dummy_mac_key
]

-- What lines 330 to 347 find before the frame is read.
pub data Watch : Type 0 where
  idle unstamped stale running : Watch

abbrev pub watch_buffer : Option Bytes → Option ℕ → ℕ → Watch
watch_buffer none started now = idle
watch_buffer (some buffer) none now = unstamped
watch_buffer (some buffer) (some started) now =
    if leb fragment_timeout_ms (now - started) then stale else running

unfoldable pub watch : Session → ℕ → Watch
watch s now = elim s.phase [
  | established ↦ watch_buffer s.fragmented_put_buffer s.fragment_started_at now
  | _ ↦ idle
]

module _ (c : Crypto) (env : Env) where
  -- _read_frame on the stream of the connection.
  unfoldable pub received : Result (Frame × Bytes) → Io Frame
  received (ok (frame, rest)) x = (ok frame, record x { incoming = rest })
  received (err e) x = (err e, x)

  unfoldable pub receive : Bytes → Io Frame
  unfolding received
  receive key x = received (read_frame c.hmac x.incoming key) x

  -- Lines 503 to 670.
  unfoldable pub on_user : Option ℕ → Bytes → Frame → Io Signal
  on_user none key frame = raise format_error
  on_user (some uid) key frame = on_established c env uid key frame

  -- Lines 376 to 670. The state has no fourth value, so line 672 is not reached.
  unfoldable pub dispatch : Phase → Option ℕ → Bytes → Frame → Io Signal
  unfolding on_user
  dispatch greeting uid key frame = on_hello c env frame
  dispatch authenticating uid key frame = on_auth c env frame
  dispatch established uid key frame = on_user uid key frame

  -- Lines 354 to 374: the handler of TimeoutError.
  unfoldable pub on_timeout : Watch → Io Signal
  on_timeout stale = do update without_buffer; pure again
  on_timeout _ = pure leave

  -- The cancelled read has taken the header from the stream, or nothing.
  unfoldable pub abandon_read : Bool → Io (Unit {0})
  abandon_read header_read x = (
    ok tt,
    record x { incoming = if header_read then drop header_len x.incoming else x.incoming },
  )

  -- Lines 349 to 672, from the session at the wait.
  unfoldable pub wait_and_handle : Arrival → Session → Bytes → Io Signal
  unfolding receive dispatch on_timeout abandon_read watch
  wait_and_handle in_time s key = do
    frame ← receive key
    dispatch s.phase s.authenticated_user_id key frame
  wait_and_handle (late header_read) s key = do
    abandon_read header_read
    on_timeout (watch s (env.monotonic_ms 1))

  -- Lines 330 to 672, by what the watch says.
  unfoldable pub watched : Watch → Session → Bytes → Io Signal
  unfolding wait_and_handle
  watched stale s key = do update without_buffer; pure again
  watched unstamped s key = do
    update without_buffer
    wait_and_handle env.arrival (without_buffer s) key
  watched _ s key = wait_and_handle env.arrival s key

  -- One round: lines 322 to 672.
  unfoldable pub round : Io Signal
  unfolding active_mac_key watch watched
  round = do
    s ← session
    key ← lift (active_mac_key s)
    watched (watch s (env.monotonic_ms 0)) s key

-- How the coroutine ends: by break or return, by one of the exceptions that it logs, or by one
-- that escapes. `waiting` is a connection that is still open after the given rounds.
pub data Exit : Type 0 where
  closed disconnected hmac_failed format_failed waiting : Exit
  escaped : Error → Exit

abbrev pub exit_of : Error → Exit
exit_of incomplete_read = disconnected
exit_of hmac_error = hmac_failed
exit_of format_error = format_failed
exit_of e = escaped e

-- What follows a round: the next ones, or the end.
abbrev pub after_round : (Conn → Exit × Conn) → Result Signal × Conn → Exit × Conn
after_round rest (ok again, y) = rest y
after_round rest (ok leave, y) = (closed, y)
after_round rest (err e, y) = (exit_of e, y)

module _ (c : Crypto) where
  -- The loop, for the rounds that a list gives.
  unfoldable pub run : List Env → Conn → Exit × Conn
  run [] x = (waiting, x)
  run (env ∷ envs) x = after_round (run envs) (round c env x)

  -- handle_client, from the opening of the connection; the writer is closed in every case.
  unfoldable pub handle_client : List Env → Db → Bytes → Exit × Conn
  unfolding run
  handle_client envs db incoming = run envs (opened db incoming)
