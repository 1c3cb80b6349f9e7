-- ===== src/Client/Upkeep.antt =====
-- Keeping and ending a session: client-py/svpclient.py, lines 261 to 297.
pub mod Recovery
use pus_proj.Common.{
  ℕ, ◌^◌, Bool, true, false, not, Option, none, some, [], ◌∷◌, ltb, ◌==◌, if◌then◌else◌,
}
use pus_proj.Common.Results.{Result, ok, err, Error, struct_error, protocol_error}
use pus_proj.Bytes.{Bytes, bytes_eq, to_le}
use pus_proj.Client.Writer
use pus_proj.Client.Codes.{
  msg_ping, msg_pong, msg_bye, flag_none, err_internal, err_session_expired,
}
use pus_proj.Client.Act.{
  ClientCrypto, Link, Act, pure, raise, lift, self, set_conn, attempt, ◌>>=◌, ◌>>◌,
}
use pus_proj.Client.Session.{send, expect}
use pus_proj.Client.Login.{connect, login, refresh_session}

-- struct.pack("<q", ts) of a time that is not negative.
unfoldable pub pack_time : ℕ → Result Bytes
pack_time ts = if ltb ts (2 ^ 63) then ok (to_le 8 ts) else err struct_error

-- bool(...) of a byte string
abbrev pub is_set : Bytes → Bool
is_set [] = false
is_set (b ∷ bs) = true

abbrev pub is_some {ℓ} : {A : Type ℓ} → Option A → Bool
is_some none = false
is_some (some a) = true

-- What ensure_session takes from outside: the time of the ping, what connecting leads to, and the
-- nonce and the time of each of the two handshakes, all times in milliseconds.
pub record Outside : Type 0 where
  pub ping_ms : ℕ
  pub answer : Result Link
  pub refresh_nonce : Bytes
  pub refresh_ms : ℕ
  pub login_nonce : Bytes
  pub login_ms : ℕ

-- connected, and the test of `self.conn`
unfoldable pub connected : Act Bool
connected x = (ok (is_some x.conn), x)

module _ (c : ClientCrypto) where
  -- ping
  unfoldable pub ping : ℕ → Act (Unit {0})
  unfolding pack_time send expect
  ping ts = do
    payload ← lift (pack_time ts)
    send c msg_ping flag_none payload true
    pong ← expect c msg_pong true
    if bytes_eq pong.payload payload then pure tt else raise (protocol_error err_internal)

  -- The body of the `try` in bye.
  unfoldable pub say_bye : ℕ → Act (Unit {0})
  unfolding send
  say_bye reason = do
    w ← lift (Writer.u8 reason [])
    cl ← self
    send c msg_bye flag_none w (is_some cl.k_mac)

  -- bye
  unfoldable pub bye : ℕ → Act (Unit {0})
  unfolding connected say_bye
  bye reason = do
    open_conn ← connected
    if not open_conn then pure tt else (do attempt (say_bye reason) (λ e. pure tt); set_conn none)

  -- The test at the start of ensure_session: whether the connection answers.
  unfoldable pub is_alive : ℕ → Act Bool
  unfolding connected ping
  is_alive ping_ms = do
    open_conn ← connected
    if not open_conn
        then pure false
        else attempt (do ping ping_ms; pure true) (λ e. (do set_conn none; pure false))

  -- `except ProtocolError as e` around refresh_session.
  unfoldable pub log_in_again : Outside → Error → Act (Unit {0})
  unfolding login
  log_in_again o (protocol_error code) = do
    cl ← self
    if code == err_session_expired
        then (if is_set cl.k_auth
            then login c o.login_nonce o.login_ms none
            else raise (protocol_error code))
        else raise (protocol_error code)
  log_in_again o e = raise e

  -- ensure_session
  unfoldable pub ensure_session : Outside → Act (Unit {0})
  unfolding is_alive connect refresh_session log_in_again
  ensure_session o = do
    alive ← is_alive o.ping_ms
    if alive then pure tt else (do
      connect o.answer
      attempt (refresh_session c o.refresh_nonce o.refresh_ms) (log_in_again o))
