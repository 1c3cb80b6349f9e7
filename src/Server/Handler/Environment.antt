-- ===== src/Server/Handler/Environment.antt =====
-- What one round of the loop of `handle_client` gets from outside, and how it ends.
use pus_proj.Common.{ℕ, Bool}
use pus_proj.Bytes.{Bytes}
use pus_proj.Text.{Text}
use pus_proj.Server.Database.{Db}

-- Whether asyncio.wait_for returned the frame, or raised TimeoutError; then readexactly may
-- have taken the header from the stream already.
pub data Arrival : Type 0 where
  in_time : Arrival
  late : Bool → Arrival

-- `now_ms i` and `monotonic_ms i` are the clocks at the i-th look of the round, `urandom` is what
-- os.urandom(32) returns, `totp_verify secret code` is pyotp.TOTP(secret).verify(code) at the time
-- of the round, and `others i` is what other connections do to the database before the statement
-- with number i of the round.
pub record Env : Type 0 where
  pub now_ms : ℕ → ℕ
  pub monotonic_ms : ℕ → ℕ
  pub urandom : Bytes
  pub totp_verify : Text → Text → Bool
  pub others : ℕ → Db → Db
  pub arrival : Arrival

-- `continue` goes round the loop again; `break` and `return` leave it.
pub data Signal : Type 0 where
  again leave : Signal
