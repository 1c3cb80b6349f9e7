-- ===== src/Examples/Samples.antt =====
-- Sample data for the tests: a checksum in place of the cryptography, a database, frames.
use pus_proj.Common.{
  ℕ, ◌+◌, ◌*◌, ◌%◌, ◌≡◌, true, none, some, [], ◌∷◌, ◌++◌, length, replicate, length-replicate,
}
use pus_proj.Bytes.{Bytes}
use pus_proj.Text.{Text}
use pus_proj.Server.Protocol.{MsgType, Frame}
use pus_proj.Server.Database.{User, VaultRow, Db}
use pus_proj.Server.Connection.{Crypto, Conn, Phase}
use pus_proj.Server.Handler.Environment.{Env, in_time}

abbrev pub sum : Bytes → ℕ
sum [] = 0
sum (b ∷ bs) = b + 3 * sum bs

abbrev pub checksum : Bytes → Bytes → Bytes
checksum key message = replicate 32 ((sum key + sum message) % 256)

pub length-checksum : (k m : Bytes) → length (checksum k m) ≡ 32
length-checksum k m = length-replicate 32 ((sum k + sum m) % 256)

abbrev pub crypto : Crypto
crypto = record { hmac = checksum; hkdf = λ secret salt info. replicate 32 (sum secret % 256) }

-- "bob"
abbrev pub bob : Text
bob = 98 ∷ 111 ∷ 98 ∷ []

abbrev pub vault_id : Bytes
vault_id = replicate 16 7

abbrev pub token : Bytes
token = replicate 32 9

abbrev pub client_id : Bytes
client_id = replicate 16 5

abbrev pub user : User
user = record { id = 1; username = some bob; k_auth = some (replicate 32 2); totp_secret = none }

abbrev pub row : VaultRow
row = record {
  id = vault_id;
  user_id = some 1;
  version = some 4;
  blob = some (1 ∷ 2 ∷ []);
  ts = some 50;
}

abbrev pub db : Db
db = record {
  users = user ∷ [];
  vaults = row ∷ [];
  sessions =
      record { token = token; user_id = some 1; expiry = some 9000; client_id = some client_id }
      ∷ [];
}

abbrev pub env : Env
env = record {
  now_ms = λ i. 1000;
  monotonic_ms = λ i. 0;
  urandom = replicate 32 8;
  totp_verify = λ secret code. true;
  others = λ i d. d;
  arrival = in_time;
}

abbrev pub frame_of : MsgType → Bytes → Frame
frame_of t payload = record {
  version = 1;
  msg_type = t;
  flags = 0;
  seq_id = 0;
  payload_len = length payload;
  payload = payload;
  hmac = [];
}

abbrev pub ping : Frame
ping = frame_of MsgType.ping (replicate 8 1)

-- AUTH of bob by the token of the session above.
abbrev pub refresh_frame : Frame
refresh_frame = frame_of MsgType.auth ((3 ∷ bob) ++ (replicate 32 0 ++ ((1 ∷ []) ++ token)))

-- A connection after its CHALLENGE.
abbrev pub challenged : Conn
challenged = record {
  session = record {
    phase = Phase.authenticating;
    outbound_seq = 1;
    nonce_c = some (replicate 32 3);
    nonce_s = some (replicate 32 8);
    client_id = some client_id;
    authenticated_user_id = none;
    session_mac_key = none;
    fragmented_put_buffer = none;
    fragment_started_at = none;
  };
  db = db;
  incoming = [];
  written = [];
}
