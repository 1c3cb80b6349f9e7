-- ===== src/Lib.antt =====
-- SecVault: a password manager whose client keeps an encrypted vault on a server. The two talk in
-- frames of the protocol SVP, over TLS. This library models the server, server-py/, and the Python
-- client, client-py/.
--
-- The parts and their files, each path from the root of the repository:
-- - server-py/protocol.py, the message types, the flags and the codec of frames: Server/Protocol.
--   MsgType is `MsgType`, with `to_code` for int(t) and `of_code` for MsgType(n); SVPFrame is
--   `Frame`; SVPCodec.encode and SVPCodec.decode are `encode` and `decode`. struct.pack and
--   struct.unpack with "<BBBII" are `pack_header` and `unpack_header` of Bytes/Header.
-- - server-py/database.py, the SQLite tables and the statements on them: Server/Database. A table
--   is a list of rows, `Db` is the file. Each method of DatabaseManager keeps its name.
-- - server-py/server.py: `_read_frame` is `read_frame` of Server/Wire; the parsers and builders of
--   payloads are in Server/Payloads; `_send_frame` and the local variables of `handle_client` are
--   in Server/Connection; `_send_fragmented_payload` is in Server/Handler/Fragments; the state
--   machine of `handle_client` is in Server/Handler: the states GREETING and AUTHENTICATING in
--   Login, ESTABLISHED in Requests, the loop with its time limits and its exits in Loop.
-- - client-py/framing.py: ByteWriter is Client/Writer and ByteReader Client/Reader, each method under
--   its name; `serialize` and `parse_header` are in Client/Framing. Client/Encodes says when a way to
--   read undoes a way to write, and Client/Failures how reading fails.
-- - client-py/transport.py: `recv_frame` is in Client/Framing, what it leaves on the stream is
--   `left_over` of Client/Session, `send_frame` is `put_frame` there. Client/Reception has what the
--   client makes of the server's frames.
-- - client-py/protocol.py: Client/Codes, and the constants beside their use; the tables of names are
--   Client/Names.
-- - client-py/svpcrypto.py: Client/Cryptography, over a record `Library` of what it calls; `to_hex` is
--   in Client/Vault.
-- - client-py/vault.py: Client/Vault, with `serialize_plaintext` and `encrypt` in Vault/Plaintext and
--   `deserialize_plaintext` and `decrypt` in Vault/Parsing.
-- - client-py/svpclient.py: the state and the actions on it are in Client/Act, `_send`, `_recv` and
--   `_expect` in Client/Session, the payloads in Client/Requests, the handshakes in Client/Login,
--   `fetch_vault` and `put_vault` in Client/Exchange, `ping`, `bye` and `ensure_session` in
--   Client/Upkeep, and what the last one reaches in Upkeep/Recovery. Each method keeps its name,
--   without the leading underscore.
-- - client-py/secvault.py: the cache file is Client/Cache, `do_sync` Client/Sync, the commands of the
--   loop of `main` Client/Commands, what `main` does before it with the connection and the cache
--   Client/Start. The splitting of a typed line is Client/Line, the questions, the loop and what the
--   commands on the vault print are Client/Console, `main` behind its options is Client/Main, and
--   `selftest` is Cryptography/Selftest. Console/Typed has rules for what a user may type and what it
--   does, beside which the loop is held in Console/Follows.
-- - str.encode("utf-8") and bytes.decode("utf-8"), of user names and of the texts of a vault: Text.
-- The other modules prove. Common has the helpers, Examples the runs at concrete inputs.
--
-- How the parts interact. A connection is a state `Conn`: the local variables of `handle_client`,
-- the database, the bytes the client has still to say and the frames that the server has written.
-- An action `Io A` takes a `Conn` to a result or an exception and a `Conn`: what was done before an
-- exception stays done. `round` is one round of the loop of `handle_client`, `run` the rounds that
-- a list of environments gives, `handle_client` those from the opening of the connection. What a
-- round gets from outside is a record `Env`: clocks, os.urandom, the TOTP check, whether the frame
-- came in time, and what the other connections do to the database before each statement of this
-- one (`others`), so that the interleavings at every `await` on the database are covered.
--
-- On the other side, a state `World` is a client with its connection and the vault in memory, and an
-- action `Act A` takes it to a result or an exception and a `World`. The server is there a stream of
-- any bytes, which ends when the connection is closed, and a connection has a number of writes that
-- will succeed. Joint/ runs both sides, each fed what the other writes: a login in Handshake, one that
-- is refused in Rejected, a put and the fetch of another device in Devices. Client/Login/Accepted
-- and Completes, Client/Requests/Understood and Auths, Client/Exchange/Puts and Fetches prepare it:
-- what one sends is what the other reads. `run` of Client/Commands is one command of the user, `take_turn` of Client/Console one round of the loop; the
-- typed lines are a list, and what else comes from outside, the clock, random bytes and the outcome of
-- connecting, is a record `Around` for each round.
--
-- Bytes are natural numbers; `IsBytes` says that they are below 256 where a theorem needs it. Clocks
-- count whole milliseconds. `send_chunks` has the length of the payload as fuel: a round sends a
-- byte at least; so has `put_chunks`. `recv_rounds` and `gather` have one more than the bytes that
-- are still to be read as fuel: a frame takes 43 bytes at least. `decimal` has fuel 10, enough for
-- the digits of a uint32. `loop` of Client/Console has one more round than lines are typed: a round
-- takes a line at least. The list of rounds bounds the server's `run`: every theorem on it is for
-- every list.
--
-- Parameters, as their code is not in the repository: HMAC-SHA256 and HKDF (`Crypto`, where a
-- theorem needs it with the hypothesis that a digest has 32 bytes), SHA-256, PBKDF2 and AES-256-GCM
-- (`ClientCrypto`, with the hypotheses, where a theorem needs them, that what was sealed is opened
-- under the same key and nonce and that a tag has 16 bytes; `client_crypto` makes them of the calls
-- of a `Library`), pyotp's verification, clocks and
-- randomness. SQLite is modelled by what the documented meaning of the statements does to the rows;
-- a number that does not fit 64 bits is an error, as sqlite3 has it, and so is a broken foreign key
-- or a repeated primary key. An update of a vault does not look at the foreign key again, which
-- makes a difference only in a database whose foreign keys are broken already.
--
-- Not modelled: exceptions of pyotp on a malformed secret, TLS and sockets, asyncio's scheduling below the granularity above, logging, printing
-- and the texts of exceptions, failures of the network while the server writes, negative numbers in
-- columns and times before 1970, the server's `main`, the prompts, the messages of the commands that
-- need the server and the options of the client, and the C++ client (client/).
pub mod Common
pub mod Bytes
pub mod Text
pub mod Server
pub mod Client
pub mod Joint
mod Examples
