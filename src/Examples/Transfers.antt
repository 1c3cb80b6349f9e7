-- ===== src/Examples/Transfers.antt =====
-- Fetching, storing and synchronising a vault at concrete inputs.
use pus_proj.Common.{
  ℕ, ◌≡◌, refl, inl, true, false, none, some, List, [], ◌∷◌, ◌++◌, length, replicate,
  length-replicate, arith,
}
use pus_proj.Common.Results.{ok, err, tls_error}
use pus_proj.Bytes.{Bytes, to_le, of_le, pack, bytes_eq}
use pus_proj.Bytes.Header.{pack_header, unpack_header}
use pus_proj.Server.Protocol.{MsgType, to_code, encode, header_of}
use pus_proj.Server.Payloads.{build_vault_data}
use pus_proj.Server.Connection.{outgoing}
use pus_proj.Server.Handler.Chunks.{Pieces}
use pus_proj.Client.Writer
use pus_proj.Client.Framing.{serialize, trailer, recv_frame, read_exact, wrong_mac, parse_header}
use pus_proj.Client.Requests.{vault_get_payload, vault_put_payload}
use pus_proj.Client.Vault.{find_by_id, to_hex}
use pus_proj.Client.Vault.Parsing.{decrypt}
use pus_proj.Client.Sync.{do_sync, sync_rounds, sync_round, vault_now}
use pus_proj.Client.Vault.Plaintext.{magic, encrypt, serialize_plaintext, write_entries}
use pus_proj.Client.Reader
use pus_proj.Client.Sync.Outcome.{do_sync-decrypt}
use pus_proj.Client.Vault.Dict.{UniqueIds}
use pus_proj.Client.Act.{ClientCrypto, World, dialled, attempt, ◌>>=◌}
use pus_proj.Client.Session.{
  parse, send, put_frame, write_frame, expect, take_next, take_frame, left_over, left_behind, recv,
  recv_rounds,
}
use pus_proj.Client.Session.Rounds.{recv_rounds_enough}
use pus_proj.Client.Session.Talk.{frame_of}
use pus_proj.Client.Exchange.{send_put, fetch_vault, put_vault, vault_ack}
use pus_proj.Client.Exchange.Puts.{after_sends, send_put-Pieces}
use pus_proj.Client.Exchange.Fetches.{stream, fetch_vault_lem}
use pus_proj.Client.Upkeep.{Outside, ensure_session, is_alive, connected, ping, pack_time}
use pus_proj.Client.Commands.{App, Command, add_entry, sync_now, run}
use pus_proj.Client.Commands.Runs.{start, next, Run-UniqueIds}
use pus_proj.Examples.Samples.{crypto, checksum, length-checksum, token, vault_id}
use pus_proj.Examples.Devices.{
  devices, logged_in, talking, frame_bytes, entry, unseal_sample, unseal-seal, length-seal, tag,
}

-- A PING in front of a PONG.
abbrev pinged : World
pinged = talking logged_in (frame_bytes token 0x20 (1 ∷ []) ++ frame_bytes token 0x21 (2 ∷ []))

recv_rounds_enough_example : recv_rounds devices 500 true pinged ≡ recv devices true pinged
recv_rounds_enough_example = recv_rounds_enough devices true 500 pinged (omega arith)

-- One byte more than a frame takes.
unfoldable long : Bytes
long = replicate 1_048_577 0

length-long : length long ≡ 1_048_577
unfolding long
length-long = length-replicate {A = ℕ} 1_048_577 0

abbrev quiet : World
quiet = talking logged_in []

send_put-Pieces_example :
    (raws : List Bytes) × Pieces crypto MsgType.vault_put token 0 raws long
    × (send_put devices long quiet ≡ (ok tt, after_sends raws (dialled [] 2_000_000) quiet))
send_put-Pieces_example =
    send_put-Pieces devices token long quiet (dialled [] 2_000_000) refl refl
      (omega (arith, length-long)) (omega (arith, length-long)) (omega (arith, length-long))

abbrev data_bytes : Bytes
data_bytes = vault_id ++ ((5 ∷ 0 ∷ 0 ∷ 0 ∷ 0 ∷ 0 ∷ 0 ∷ 0 ∷ []) ++ (1 ∷ 2 ∷ []))

data_made : build_vault_data vault_id 5 (1 ∷ 2 ∷ []) ≡ ok data_bytes
unfolding build_vault_data pack to_le
data_made = refl

data_encoded :
    encode checksum (outgoing MsgType.vault_data data_bytes 0 0) token
    ≡ ok (frame_bytes token 0x13 data_bytes)
unfolding encode header_of to_code pack_header pack to_le
data_encoded = refl

abbrev get_bytes : Bytes
get_bytes = vault_id ++ (4 ∷ 0 ∷ 0 ∷ 0 ∷ 0 ∷ 0 ∷ 0 ∷ 0 ∷ [])

get_made : vault_get_payload vault_id 4 ≡ ok get_bytes
unfolding vault_get_payload Writer.raw Writer.u64 pack to_le
get_made = refl

get_sent :
    serialize checksum (frame_of 0x10 0 get_bytes logged_in) (some token)
    ≡ ok (frame_bytes token 0x10 get_bytes)
unfolding serialize trailer pack_header pack to_le
get_sent = refl

abbrev answered : World
answered = talking logged_in (frame_bytes token 0x13 data_bytes)

on_stream :
    frame_bytes token 0x13 data_bytes ≡ stream (frame_bytes token 0x13 data_bytes ∷ []) ++ []
unfolding stream
on_stream = refl

fetch_vault_lem_example : fetch_vault devices answered ≡ (
  ok (some (1 ∷ 2 ∷ [])),
  record answered {
    client = record answered.client { seq = 1; vault_version = 5 };
    conn = some (record {
      incoming = [];
      writes_left = 1_999_999;
      sent = frame_bytes token 0x10 get_bytes ∷ [];
    });
  },
)
fetch_vault_lem_example =
    fetch_vault_lem devices length-checksum token (frame_bytes token 0x13 data_bytes ∷ []) 0 5
      vault_id (1 ∷ 2 ∷ []) [] answered (dialled (frame_bytes token 0x13 data_bytes) 2_000_000) refl
      refl refl get_made get_sent on_stream refl data_made
      (inl (frame_bytes token 0x13 data_bytes, refl, data_encoded))

abbrev offline : App
offline = record { world = quiet; dirty = false; online = false; cache = none }

abbrev outside : Outside
outside = record {
  ping_ms = 5;
  answer = err tls_error;
  refresh_nonce = [];
  refresh_ms = 0;
  login_nonce = [];
  login_ms = 0;
}

abbrev adding : Command
adding = add_entry (171 ∷ []) 300 (99 ∷ []) [] [] []

abbrev syncing : Command
syncing = sync_now outside [] [] [] []

unused : find_by_id (97 ∷ 98 ∷ []) (entry ∷ []) ≡ none
unfolding find_by_id bytes_eq
unused = refl

abbrev app : App
app = record offline { online = true }

UniqueIds-app : UniqueIds app.world.vault
unfolding find_by_id
UniqueIds-app = (refl, tt)

fresh_id : find_by_id (to_hex (171 ∷ [])) app.world.vault ≡ none
unfolding find_by_id to_hex bytes_eq
fresh_id = refl

Run-UniqueIds_example : UniqueIds (run devices syncing (run devices adding app)).world.vault
Run-UniqueIds_example =
    Run-UniqueIds devices UniqueIds-app (next (next start adding fresh_id) syncing tt)

abbrev nonce : Bytes
nonce = replicate 12 6

-- A digest of zeros, which is quick to compute.
abbrev plain : ClientCrypto
plain = record devices { shared = record { hmac = λ k m. replicate 32 0; hkdf = λ s t i. token } }

abbrev zero_frame : ℕ → Bytes → Bytes
zero_frame type payload =
    (1 ∷ type ∷ 0 ∷ 0 ∷ 0 ∷ 0 ∷ 0 ∷ length payload ∷ 0 ∷ 0 ∷ 0 ∷ payload) ++ replicate 32 0

abbrev five : Bytes
five = 5 ∷ 0 ∷ 0 ∷ 0 ∷ 0 ∷ 0 ∷ 0 ∷ 0 ∷ []

abbrev acknowledgement : Bytes
acknowledgement = zero_frame 0x14 (vault_id ++ five)

-- The server answers the PING, and acknowledges the version 5.
abbrev syncable : World
syncable = record (talking logged_in (zero_frame 0x21 five ++ acknowledgement)) { vault = [] }

abbrev alive : World
alive = record syncable {
  client = record logged_in { seq = 1 };
  conn = some (record {
    incoming = acknowledgement;
    writes_left = 1_999_999;
    sent = zero_frame 0x20 five ∷ [];
  });
}

answers : ensure_session plain outside syncable ≡ (ok tt, alive)
unfolding ensure_session is_alive connected ping pack_time send put_frame write_frame expect recv
    recv_rounds take_next take_frame left_over left_behind recv_frame read_exact wrong_mac
    parse_header unpack_header serialize trailer pack_header pack to_le of_le bytes_eq attempt ◌>>=◌
answers = refl

abbrev blob : Bytes
blob = nonce ++ ((magic ++ (0 ∷ 0 ∷ 0 ∷ 0 ∷ [])) ++ tag (replicate 32 4))

sealed : encrypt plain.seal (replicate 32 4) nonce [] ≡ ok blob
unfolding encrypt serialize_plaintext write_entries Writer.raw Writer.u32 pack to_le
sealed = refl

stored : (put_vault plain blob 4 alive).0 ≡ ok 5
unfolding put_vault vault_put_payload Writer.raw Writer.u32 Writer.u64 send_put send put_frame
    write_frame expect recv recv_rounds take_next take_frame left_over left_behind recv_frame
    read_exact wrong_mac parse_header unpack_header serialize trailer pack_header pack to_le of_le
    bytes_eq parse vault_ack Reader.raw Reader.field Reader.◌>>=◌ ◌>>=◌
stored = refl

sync_succeeds : (do_sync plain outside nonce nonce nonce syncable).0 ≡ ok true
unfolding do_sync sync_rounds sync_round vault_now attempt ◌>>=◌
sync_succeeds = rw (answers, sealed, stored) refl

do_sync-decrypt_example :
    let z = (do_sync plain outside nonce nonce nonce syncable).1 in
    (y : World) × (sent_blob : Bytes) × (version : ℕ) × (put_vault plain sent_blob
        y.client.vault_version y
      ≡ (ok version, z))
    × (decrypt unseal_sample sent_blob z.client.k_vault ≡ ok z.vault)
do_sync-decrypt_example =
    do_sync-decrypt plain unseal-seal length-seal outside nonce nonce nonce syncable refl refl refl
      sync_succeeds
