-- ===== src/Client/Session.antt =====
-- Sending and receiving frames in client-py/svpclient.py, lines 50 to 82, over a TlsConnection of
-- client-py/transport.py.
pub mod Rounds
pub mod Talk
use pus_proj.Common.{
  ℕ, zero, suc, ◌+◌, Bool, not, ◌||◌, Option, none, some, [], ◌∷◌, ◌++◌, length, take, drop, ltb,
  ◌==◌, if◌then◌else◌,
}
use pus_proj.Common.Results.{Result, ok, err, tls_error, protocol_error, attribute_error}
use pus_proj.Bytes.{Bytes}
use pus_proj.Bytes.Header.{Header}
use pus_proj.Client.Framing.{
  ClientFrame, serialize, recv_frame, parse_header, head_len, mac_len, max_payload, svp_version,
}
use pus_proj.Client.Reader.{Read, reader}
use pus_proj.Client.Reader
use pus_proj.Client.Act.{ClientCrypto, Client, Link, World, Act, pure, raise, assign, ◌>>=◌, ◌>>◌}
use pus_proj.Client.Codes.{msg_ping, msg_pong, msg_error, flag_none, err_internal, dummy_mac_key}

-- What recv_frame leaves to be read behind a header, whether or not it raises.
unfoldable pub left_behind : Result Header → Bytes → Bytes
left_behind (err e) behind = behind
left_behind (ok h) behind =
    if not (h.version == svp_version) || ltb max_payload h.payload_len
    then behind
    else drop (h.payload_len + mac_len) behind

unfoldable pub left_over : Bytes → Bytes
unfolding left_behind parse_header
left_over stream =
    if ltb (length stream) head_len
    then []
    else left_behind (parse_header (take head_len stream)) (drop head_len stream)

abbrev pub without_rest : Result (ClientFrame × Bytes) → Result ClientFrame
without_rest (ok (f, rest)) = ok f
without_rest (err e) = err e

-- What _next_seq does to the attribute; it returns the old value.
abbrev pub next_seq : Client → Client
next_seq cl = record cl { seq = cl.seq + 1 }

-- `self.k_mac if authed else protocol.DUMMY_MAC_KEY`
abbrev pub mac_key : Bool → Client → Option Bytes
mac_key authed cl = if authed then cl.k_mac else some dummy_mac_key

-- `sendall` of the bytes that serialize returned; a connection that cannot be written to raises.
unfoldable pub write_frame : Result Bytes → ℕ → Link → Result (Unit {0}) × Link
write_frame (err e) left link = (err e, link)
write_frame (ok raw) zero link = (err tls_error, link)
write_frame (ok raw) (suc left) link =
    (ok tt, record link { writes_left = left; sent = link.sent ++ (raw ∷ []) })

-- Reading a payload from the front.
unfoldable pub parse {ℓ} : {A : Type ℓ} → Read A → Bytes → Act A
parse m payload x = elim (m (reader payload)) [ ok (a, r) ↦ (ok a, x) | err e ↦ (err e, x) ]

-- The code of an ERROR; its text is read after it when there is one.
unfoldable pub error_code : Read ℕ
error_code = Reader.◌>>=◌ Reader.u8 λ code.
    Reader.◌>>=◌ Reader.remaining
      λ n. if n == 0 then Reader.pure code else Reader.◌>>=◌ Reader.lpstr λ msg. Reader.pure code

-- The bytes that the server has still to say.
abbrev pub bytes_of : Option Link → ℕ
bytes_of none = 0
bytes_of (some link) = length link.incoming

abbrev pub bytes_ahead : World → ℕ
bytes_ahead x = bytes_of x.conn

module _ (c : ClientCrypto) where
  -- self.conn.send_frame(frame, mac_key)
  unfoldable pub put_frame : ClientFrame → Option Bytes → Option Link → Act (Unit {0})
  unfolding write_frame
  put_frame frame key none x = (err attribute_error, x)
  put_frame frame key (some link) x =
      let (r, link') = write_frame (serialize c.shared.hmac frame key) link.writes_left link in
      (r, record x { conn = some link' })

  -- _send: the number is taken before anything can raise.
  unfoldable pub send : ℕ → ℕ → Bytes → Bool → Act (Unit {0})
  unfolding put_frame assign
  send type flags payload authed x =
      let cl = x.client in
      let frame : ClientFrame = record {
        version = svp_version;
        type = type;
        flags = flags;
        seq = cl.seq;
        payload = payload;
      } in
      put_frame frame (mac_key authed cl) x.conn (record x { client = next_seq cl })

  -- self.conn.recv_frame(mac_key)
  unfoldable pub take_frame : Option Bytes → Option Link → Act ClientFrame
  unfolding recv_frame left_over
  take_frame key none x = (err attribute_error, x)
  take_frame key (some link) x = (
    without_rest (recv_frame c.shared.hmac key link.incoming),
    record x { conn = some (record link { incoming = left_over link.incoming }) },
  )

  unfoldable pub take_next : Bool → Act ClientFrame
  unfolding take_frame
  take_next authed x = take_frame (mac_key authed x.client) x.conn x

  -- The rounds of _recv.
  unfoldable pub recv_rounds : ℕ → Bool → Act ClientFrame
  unfolding take_next send parse error_code raise
  recv_rounds zero authed = raise tls_error
  recv_rounds (suc fuel) authed = do
    f ← take_next authed
    let again = (do send msg_pong flag_none f.payload authed; recv_rounds fuel authed)
    if f.type == msg_ping
        then again
        else if f.type == msg_error
        then (do code ← parse error_code f.payload; raise (protocol_error code))
        else pure f

  -- _recv
  unfoldable pub recv : Bool → Act ClientFrame
  unfolding recv_rounds
  recv authed x = recv_rounds (suc (bytes_ahead x)) authed x

  -- _expect
  unfoldable pub expect : ℕ → Bool → Act ClientFrame
  unfolding recv raise
  expect type authed = do
    f ← recv authed
    if f.type == type then pure f else raise (protocol_error err_internal)
