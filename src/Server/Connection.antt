-- ===== src/Server/Connection.antt =====
-- The state of one connection in `handle_client` of server-py/server.py, the world that it acts
-- on, and the actions over it. An action that raises leaves what it did before.
pub mod Sound
use pus_proj.Common.{ℕ, ◌+◌, ◌≡◌, Bool, Option, none, some, List, [], ◌∷◌, ◌++◌, length, replicate}
use pus_proj.Common.Results.{Result, ok, err, Error}
use pus_proj.Bytes.{Bytes}
use pus_proj.Text.{Text}
use pus_proj.Server.Protocol.{MsgType, Frame, encode, no_flags}
use pus_proj.Server.Database.{Db}

-- The values of the local variable `state`.
pub data Phase : Type 0 where
  greeting authenticating established : Phase

-- The local variables of handle_client that live across the rounds of its loop;
-- `fragment_started_at` counts milliseconds.
pub record Session : Type 0 where
  pub phase : Phase
  pub outbound_seq : ℕ
  pub nonce_c : Option Bytes
  pub nonce_s : Option Bytes
  pub client_id : Option Bytes
  pub authenticated_user_id : Option ℕ
  pub session_mac_key : Option Bytes
  pub fragmented_put_buffer : Option Bytes
  pub fragment_started_at : Option ℕ

abbrev pub new_session : Session
new_session = record {
  phase = greeting;
  outbound_seq = 0;
  nonce_c = none;
  nonce_s = none;
  client_id = none;
  authenticated_user_id = none;
  session_mac_key = none;
  fragmented_put_buffer = none;
  fragment_started_at = none;
}

-- The session with the database, the bytes that the peer has still to say, and the frames that
-- the server has written.
pub record Conn : Type 0 where
  pub session : Session
  pub db : Db
  pub incoming : Bytes
  pub written : List Bytes

-- A connection that was just accepted.
abbrev pub opened : Db → Bytes → Conn
opened db incoming = record { session = new_session; db = db; incoming = incoming; written = [] }

-- The cryptography that the server calls: hmac.new(key, message, sha256).digest(), and
-- HKDF-SHA256 to 32 bytes, `hkdf secret salt info`.
pub record Crypto : Type 0 where
  pub hmac : Bytes → Bytes → Bytes
  pub hkdf : Bytes → Bytes → Bytes → Bytes

abbrev pub Io {ℓ} : Type ℓ → Type ℓ
Io A = Conn → Result A × Conn

unfoldable pub pure {ℓ} : {A : Type ℓ} → A → Io A
pure a s = (ok a, s)

unfoldable pub raise {ℓ} : {A : Type ℓ} → Error → Io A
raise e s = (err e, s)

unfoldable pub lift {ℓ} : {A : Type ℓ} → Result A → Io A
lift r s = (r, s)

unfoldable pub session : Io Session
session s = (ok s.session, s)

-- An assignment to local variables.
unfoldable pub update : (Session → Session) → Io (Unit {0})
update f s = (ok tt, record s { session = f s.session })

-- A query, and a statement that writes.
unfoldable pub query {ℓ} : {A : Type ℓ} → (Db → A) → Io A
query f s = (ok (f s.db), s)

unfoldable pub statement {ℓ} : {A : Type ℓ} → (Db → Result A × Db) → Io A
statement f s = ((f s.db).0, record s { db = (f s.db).1 })

-- What other connections do to the database while this one waits.
unfoldable pub interleave : (Db → Db) → Io (Unit {0})
interleave others s = (ok tt, record s { db = others s.db })

-- `writer.write` of an encoded frame, or what `encode` raised.
unfoldable pub write : Result Bytes → Io (Unit {0})
write (ok raw) s = (ok tt, record s { written = s.written ++ (raw ∷ []) })
write (err e) s = (err e, s)

abbrev pub continue {ℓ κ} :
    {A : Type ℓ} {B : Type κ} → Result A → (A → Io B) → Conn → Result B × Conn
continue (ok a) f s = f a s
continue (err e) f s = (err e, s)

infixl 5 ◌>>=◌ ◌>>◌
-- To open this opens the actions above too.
unfoldable pub ◌>>=◌ {ℓ κ} : {A : Type ℓ} {B : Type κ} → Io A → (A → Io B) → Io B
unfolding pure raise lift session update query statement interleave write
◌>>=◌ m f s = continue (m s).0 f (m s).1

abbrev pub ◌>>◌ {ℓ κ} : {A : Type ℓ} {B : Type κ} → Io A → Io B → Io B
m >> n = m >>= λ _. n

-- DUMMY_MAC_KEY
abbrev pub dummy_mac_key : Bytes
dummy_mac_key = replicate 32 0

-- The frame that _send_frame builds.
abbrev pub outgoing : MsgType → Bytes → ℕ → ℕ → Frame
outgoing msg_type payload seq_id flags = record {
  version = 1;
  msg_type = msg_type;
  flags = flags;
  seq_id = seq_id;
  payload_len = length payload;
  payload = payload;
  hmac = [];
}

module _ (c : Crypto) where
  -- _send_frame
  unfoldable pub send_frame : MsgType → Bytes → ℕ → Bytes → ℕ → Io (Unit {0})
  send_frame msg_type payload seq_id mac_key flags =
      write (encode c.hmac (outgoing msg_type payload seq_id flags) mac_key)

  -- `await _send_frame(..., seq_id=outbound_seq, ...); outbound_seq += 1`
  unfoldable pub send_next : MsgType → Bytes → Bytes → Io (Unit {0})
  unfolding send_frame
  send_next msg_type payload mac_key = do
    s ← session
    send_frame msg_type payload s.outbound_seq mac_key no_flags
    update (λ t. record t { outbound_seq = t.outbound_seq + 1 })
