-- ===== src/Examples/Joints.antt =====
-- Bob's client and the server together: a login, and a vault that goes from one device to another.
use pus_proj.Common.{
  ◌+◌, ◌≡◌, refl, ap, true, none, some, List, [], ◌∷◌, ◌++◌, replicate, length, arith,
}
use pus_proj.Common.Results.{ok, err, protocol_error}
use pus_proj.Bytes.{Bytes, to_le, pack, bytes_eq}
use pus_proj.Bytes.Header.{pack_header}
use pus_proj.Server.Database.{
  SessionRow, VaultRow, Db, get_user_by_username, create_session, update_vault, get_vault,
  fetch_one, has_user,
}
use pus_proj.Server.Payloads.{session_ttl_ms}
use pus_proj.Server.Protocol.{MsgType, encode, no_flags}
use pus_proj.Server.Connection.{Conn, established, opened, new_session, outgoing, dummy_mac_key}
use pus_proj.Server.Handler.Environment.{again}
use pus_proj.Server.Handler.Login.{totp_check}
use pus_proj.Server.Handler.Loop.{active_mac_key, round, run, handle_client, waiting, closed}
use pus_proj.Server.Database.Integrity.{IsConsistent}
use pus_proj.Server.Handler.Sequence.{Numbered, written-Numbered}
use pus_proj.Server.Handler.Storage.{handle_client-IsConsistent}
use pus_proj.Server.Handler.Variables.{IsComplete, handle_client-IsComplete}
use pus_proj.Client.Writer
use pus_proj.Client.Framing.{serialize, trailer}
use pus_proj.Client.Requests.{vault_put_payload, vault_get_payload}
use pus_proj.Client.Act.{Client, World, Link, dialled}
use pus_proj.Client.Session.Talk.{frame_of}
use pus_proj.Client.Login.{login, response_message}
use pus_proj.Client.Exchange.{put_vault, fetch_vault}
use pus_proj.Client.Exchange.Fetches.{stream}
use pus_proj.Joint.Handshake.{login-run}
use pus_proj.Joint.Refusal.{IsStranger}
use pus_proj.Joint.Rejected.{login-refused}
use pus_proj.Joint.Requests.{IsServing}
use pus_proj.Joint.Devices.{fetch_vault-put_vault}
use pus_proj.Examples.Samples.{
  crypto, checksum, length-checksum, env, user, row, db, bob, client_id, vault_id, token,
}
use pus_proj.Examples.Devices.{devices, keyed, logged_in, talking, frame_bytes}
use pus_proj.Examples.Logins.{
  nonce_c, hello_bytes, hello_made, auth_bytes, auth_made, numbered, hello_sent, auth_sent, encoded,
  own_id, own_id_made,
}

abbrev session_row : SessionRow
session_row = record {
  token = replicate 32 8;
  user_id = some 1;
  expiry = some (1000 + session_ttl_ms);
  client_id = some client_id;
}

abbrev db_then : Db
db_then = record db { sessions = db.sessions ++ (session_row ∷ []) }

session_stored :
    create_session (replicate 32 8) 1 (1000 + session_ttl_ms) client_id db ≡ (ok tt, db_then)
unfolding create_session bytes_eq
session_stored = refl

bob_known : get_user_by_username bob db ≡ some user
unfolding get_user_by_username fetch_one bytes_eq
bob_known = refl

abbrev frames : List Bytes
frames = numbered 1 0 hello_bytes ∷ numbered 3 1 auth_bytes ∷ []

login-run_example :
    let (exit, y) = run crypto (env ∷ env ∷ []) (opened db (stream frames ++ (7 ∷ []))) in
    let link : Link = record { incoming = stream y.written ++ []; writes_left = 2; sent = [] } in
    let (r, z) = login devices nonce_c 1000 none (record (talking keyed []) { conn = some link }) in
    ((exit ≡ waiting)
      × (y.session.phase ≡ established)
      × (y.session.authenticated_user_id ≡ some 1)
      × (y.incoming ≡ 7 ∷ [])
      × (y.db ≡ db_then))
    × (r ≡ ok tt)
    × (z.client.session_token ≡ replicate 32 8)
    × (z.conn ≡ some (record { incoming = []; writes_left = 0; sent = frames }))
    × ((key : Bytes) × (y.session.session_mac_key ≡ some key) × (z.client.k_mac ≡ some key))
login-run_example =
    login-run devices env env (talking keyed []) nonce_c 1000 none user db db_then (7 ∷ []) []
      own_id 0 length-checksum refl refl refl refl refl refl (omega arith) (omega arith)
      (omega arith) encoded (omega arith) (omega arith) own_id_made hello_made hello_sent auth_made
      auth_sent bob_known refl (unfold totp_check in refl) session_stored

logged_in_waits : (handle_client crypto (env ∷ env ∷ []) db (stream frames ++ (7 ∷ []))).0 ≡ waiting
unfolding handle_client
logged_in_waits =
    (login-run devices env env (talking keyed []) nonce_c 1000 none user db db_then (7 ∷ []) []
      own_id 0 length-checksum refl refl refl refl refl refl (omega arith) (omega arith)
      (omega arith) encoded (omega arith) (omega arith) own_id_made hello_made hello_sent auth_made
      auth_sent bob_known refl (unfold totp_check in refl) session_stored).0.0

handle_client-IsComplete_example :
    let s = (handle_client crypto (env ∷ env ∷ []) db (stream frames ++ (7 ∷ []))).1.session in
    IsComplete s × ((key : Bytes) × (active_mac_key s ≡ ok key))
handle_client-IsComplete_example =
    handle_client-IsComplete crypto (env ∷ env ∷ []) db (stream frames ++ (7 ∷ [])) logged_in_waits

db-IsConsistent : IsConsistent db
unfolding has_user
db-IsConsistent = record {
  vaults = (refl, tt);
  sessions = (refl, tt);
  users_apart = (tt, tt);
  ids_apart = (tt, tt);
  tokens_apart = (tt, tt);
}

handle_client-IsConsistent_example :
    IsConsistent (handle_client crypto (env ∷ env ∷ []) db (stream frames ++ (7 ∷ []))).1.db
handle_client-IsConsistent_example =
    handle_client-IsConsistent crypto (env ∷ env ∷ []) db (stream frames ++ (7 ∷ []))
      ((λ i d h. h), ((λ i d h. h), tt)) db-IsConsistent

-- A database in which bob has another key.
abbrev db_changed : Db
db_changed = record db { users = record user { k_auth = some (replicate 32 3) } ∷ [] }

changed_key :
    IsStranger crypto
      (replicate 32 2)
      (response_message nonce_c (replicate 32 8) bob)
      (get_user_by_username bob db_changed)
unfolding get_user_by_username fetch_one bytes_eq
changed_key = (replicate 32 3, refl, λ e. ground arith)

login-refused_example :
    let (exit, y) = run crypto (env ∷ env ∷ []) (opened db_changed (stream frames ++ [])) in
    let link : Link = record { incoming = stream y.written ++ []; writes_left = 2; sent = [] } in
    let (r, z) = login devices nonce_c 1000 none (record (talking keyed []) { conn = some link }) in
    ((exit ≡ closed)
      × (y.db ≡ db_changed)
      × (y.session.session_mac_key ≡ none)
      × (y.session.authenticated_user_id ≡ none)
      × ((challenge : Bytes) × (refusal : Bytes) × (y.written ≡ challenge ∷ refusal ∷ [])
          × (encode checksum
                (outgoing MsgType.auth_fail (6 ∷ 0 ∷ 0 ∷ 0 ∷ 0 ∷ []) 1 no_flags)
                dummy_mac_key
              ≡ ok refusal)))
    × (r ≡ err (protocol_error 0xFF))
    × (z.client.k_mac ≡ none)
login-refused_example =
    login-refused devices env env (talking keyed []) nonce_c 1000 none db_changed [] [] 0
      length-checksum refl refl refl refl refl (omega arith) (omega arith) encoded (omega arith)
      (omega arith) hello_made hello_sent auth_made auth_sent changed_key

-- In that login two frames are written.
two_written :
    length (handle_client crypto (env ∷ env ∷ []) db_changed (stream frames ++ [])).1.written ≡ 2
unfolding handle_client
two_written =
    let refused =
      login-refused devices env env (talking keyed []) nonce_c 1000 none db_changed [] [] 0
        length-checksum refl refl refl refl refl (omega arith) (omega arith) encoded (omega arith)
        (omega arith) hello_made hello_sent auth_made auth_sent changed_key in
    let (served, told, held) = refused in
    let (exit, stored, key, user, (challenge, refusal, written, encoded)) = served in
    ap length written

written-Numbered_example :
    Numbered crypto 0
      (handle_client crypto (env ∷ env ∷ []) db_changed (stream frames ++ [])).1.written
written-Numbered_example = written-Numbered crypto (env ∷ env ∷ []) db_changed (stream frames ++ [])

-- Two connections of bob's, and a vault whose next version one of his devices stores.
abbrev other_key : Bytes
other_key = replicate 32 6

abbrev serving : Bytes → Bytes → Db → Conn
serving key incoming d = record {
  session = record new_session {
    phase = established;
    outbound_seq = 2;
    authenticated_user_id = some 1;
    session_mac_key = some key;
  };
  db = d;
  incoming = incoming;
  written = [];
}

serving-IsServing : (key incoming : Bytes) (d : Db) → IsServing 1 key (serving key incoming d)
serving-IsServing key incoming d = record {
  phase = refl;
  user = refl;
  mac_key = refl;
  buffer = refl;
}

abbrev other : Client
other = record logged_in { k_mac = some other_key }

abbrev put_bytes : Bytes
put_bytes = vault_id ++ ((4 ∷ 0 ∷ 0 ∷ 0 ∷ 0 ∷ 0 ∷ 0 ∷ 0 ∷ []) ++ (1 ∷ 0 ∷ 0 ∷ 0 ∷ 42 ∷ []))

abbrev get_bytes : Bytes
get_bytes = vault_id ++ (4 ∷ 0 ∷ 0 ∷ 0 ∷ 0 ∷ 0 ∷ 0 ∷ 0 ∷ [])

put_laid_out : vault_put_payload vault_id 4 (42 ∷ []) ≡ ok put_bytes
unfolding vault_put_payload Writer.raw Writer.u64 Writer.u32 pack to_le
put_laid_out = refl

get_laid_out : vault_get_payload vault_id 4 ≡ ok get_bytes
unfolding vault_get_payload Writer.raw Writer.u64 pack to_le
get_laid_out = refl

abbrev sent_a : Bytes
sent_a = frame_bytes token 0x11 put_bytes

abbrev sent_b : Bytes
sent_b = frame_bytes other_key 0x10 get_bytes

put_framed : serialize checksum (frame_of 0x11 0 put_bytes logged_in) (some token) ≡ ok sent_a
unfolding serialize trailer pack_header pack to_le
put_framed = refl

get_framed : serialize checksum (frame_of 0x10 0 get_bytes other) (some other_key) ≡ ok sent_b
unfolding serialize trailer pack_header pack to_le
get_framed = refl

abbrev stored_row : VaultRow
stored_row = record row { version = some 5; blob = some (42 ∷ []); ts = some 1000 }

abbrev db_after : Db
db_after = record db { vaults = stored_row ∷ [] }

vault_stored : update_vault vault_id 1 5 (42 ∷ []) 1000 db ≡ (ok true, db_after)
unfolding update_vault bytes_eq
vault_stored = refl

row_current : get_vault vault_id db ≡ some row
unfolding get_vault fetch_one bytes_eq
row_current = refl

fetch_vault-put_vault_example :
    ((raw : Bytes) × (y : Conn) × (z : World) × (round crypto env (serving token (sent_a ++ []) db)
        ≡ (ok again, y))
      × (y.written ≡ raw ∷ [])
      × (y.db ≡ db_after)
      × (put_vault devices
            (42 ∷ [])
            4
            (record (talking logged_in []) { conn = some (dialled (raw ++ []) 1) })
          ≡ (ok 5, z)))
    × ((raws : List Bytes) × (y : Conn) × (z : World) × (round crypto env
            (serving other_key (sent_b ++ []) db_after)
          ≡ (ok again, y))
        × (y.written ≡ raws)
        × (fetch_vault devices
              (record (talking other []) { conn = some (dialled (stream raws ++ []) 1) })
            ≡ (ok (some (42 ∷ [])), z))
        × (z.client.vault_version ≡ 5))
fetch_vault-put_vault_example =
    fetch_vault-put_vault devices env env 1 token other_key (talking logged_in [])
      (talking other []) (serving token (sent_a ++ []) db)
      (serving other_key (sent_b ++ []) db_after) (42 ∷ []) [] [] [] [] 4 0 0 db_after
      length-checksum refl refl refl refl put_laid_out get_laid_out (omega arith) put_framed
      get_framed (serving-IsServing token (sent_a ++ []) db)
      (serving-IsServing other_key (sent_b ++ []) db_after) refl refl refl refl
      (rw row_current (refl, refl)) vault_stored refl (omega arith) (omega arith)
