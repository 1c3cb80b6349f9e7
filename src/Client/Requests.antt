-- ===== src/Client/Requests.antt =====
-- The payloads that the methods of client-py/svpclient.py build.
pub mod Understood
pub mod Auths
use pus_proj.Common.{ℕ, Option, none, some, [], length, ltb, replicate}
use pus_proj.Common.Results.{Result, ok, value_error, ◌>>=◌, ◌>>◌, raise_if}
use pus_proj.Bytes.{Bytes}
use pus_proj.Text.{Text, encode_text}
use pus_proj.Client.Writer.{Buffer}
use pus_proj.Client.Writer
use pus_proj.Client.Codes.{key_len}

-- HELLO, with the time of the clock in milliseconds.
unfoldable pub hello_payload : Bytes → Bytes → ℕ → Result Bytes
hello_payload nonce_c client_id now_ms = do
  w ← Writer.raw nonce_c []
  w ← Writer.raw client_id w
  Writer.u64 now_ms w

-- The name in an AUTH.
unfoldable pub auth_name : Text → Result Bytes
auth_name login_name = do
  username ← encode_text login_name
  raise_if (ltb 64 (length username)) value_error
  ok username

unfoldable pub totp_part : Option ℕ → Buffer → Result Buffer
totp_part none w = ok w
totp_part (some code) w = do w ← Writer.u8 1 w; Writer.u32 code w

-- The AUTH of login.
unfoldable pub login_payload : Bytes → Bytes → Option ℕ → Result Bytes
unfolding totp_part
login_payload username hmac_resp totp_code = do
  w ← Writer.u8 (length username) []
  w ← Writer.raw username w
  w ← Writer.raw hmac_resp w
  w ← Writer.u8 0 w
  totp_part totp_code w

-- The AUTH of refresh_session.
unfoldable pub refresh_payload : Bytes → Bytes → Result Bytes
refresh_payload username session_token = do
  w ← Writer.u8 (length username) []
  w ← Writer.raw username w
  w ← Writer.raw (replicate key_len 0) w
  w ← Writer.u8 1 w
  Writer.raw session_token w

-- REGISTER
unfoldable pub register_payload : Text → Bytes → Result Bytes
register_payload login_name k_auth = do w ← Writer.lpstr login_name []; Writer.raw k_auth w

-- VAULT_GET
unfoldable pub vault_get_payload : Bytes → ℕ → Result Bytes
vault_get_payload vault_id version = do w ← Writer.raw vault_id []; Writer.u64 version w

-- VAULT_PUT
unfoldable pub vault_put_payload : Bytes → ℕ → Bytes → Result Bytes
vault_put_payload vault_id base_version blob = do
  w ← Writer.raw vault_id []
  w ← Writer.u64 base_version w
  w ← Writer.u32 (length blob) w
  Writer.raw blob w
