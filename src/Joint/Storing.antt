-- ===== src/Joint/Storing.antt =====
-- put_vault of client-py/svpclient.py with the round of server-py/server.py that takes it.
use pus_proj.Common.{
  ℕ, suc, ◌+◌, ◌^◌, ◌≤◌, ◌<◌, ◌≡◌, refl, ap, ◌∙◌, true, some, [], ◌∷◌, ◌++◌, length, length-append,
  arith,
}
use pus_proj.Common.Results.{ok}
use pus_proj.Bytes.{Bytes, to_le, length-to_le, pack-eq-ok}
use pus_proj.Server.Protocol.{MsgType, of_code, hmac_len, max_payload_len, no_flags}
use pus_proj.Server.Protocol.RoundTrip.{encode-eq-ok}
use pus_proj.Server.Database.{Db, get_vault, update_vault, int64_limit}
use pus_proj.Server.Payloads.{VaultPut, parse_vault_put, build_vault_ack}
use pus_proj.Server.Payloads.VaultMessages.{IsPut, length-put_payload, parse_vault_put-put_payload}
use pus_proj.Server.Connection.{Conn, outgoing}
use pus_proj.Server.Handler.Environment.{Env, in_time, again}
use pus_proj.Server.Handler.Requests.{on_request, on_vault_put}
use pus_proj.Server.Handler.Loop.{round}
use pus_proj.Client.Framing.{serialize, serialize-encode, as_server}
use pus_proj.Client.Requests.{vault_put_payload}
use pus_proj.Client.Requests.Understood.{vault_put_payload-put_payload}
use pus_proj.Client.Act.{ClientCrypto, World, dialled}
use pus_proj.Client.Session.Talk.{frame_of}
use pus_proj.Client.Exchange.{put_vault}
use pus_proj.Client.Exchange.Acks.{put_vault_lem}
use pus_proj.Joint.Rounds.{framed, IsSendable-outgoing}
use pus_proj.Joint.Requests.{IsServing, IsCurrent, request_round, acknowledged, process_put_lem}

-- A stored version fits 64 bits.
pub stored_fits :
    (vid : Bytes) (uid version : ℕ) (blob : Bytes) (ts : ℕ) (d d1 : Db)
    → update_vault vid uid version blob ts d ≡ (ok true, d1)
    → version < 256 ^ 8
unfolding update_vault
stored_fits vid uid version blob ts d d1 h =
    let small : version < int64_limit = ground arith in omega arith

module _ (c : ClientCrypto) (hmac_length : (k m : Bytes) → length (c.shared.hmac k m) ≡ hmac_len)
    (env : Env) (uid : ℕ) (key : Bytes) where
  -- The server stores the blob of a put_vault, and the client is told the version behind its own.
  pub put_run :
      (w : World) (x : Conn) (blob more rest : Bytes) (base left : ℕ) (d1 : Db)
      {payload sent : Bytes}
      → w.client.k_mac ≡ some key
      → length w.client.vault_id ≡ 16
      → vault_put_payload w.client.vault_id base blob ≡ ok payload
      → length blob + 28 ≤ max_payload_len
      → serialize c.shared.hmac (frame_of 0x11 0 payload w.client) (some key) ≡ ok sent
      → IsServing uid key x
      → env.arrival ≡ in_time
      → x.incoming ≡ sent ++ more
      → IsCurrent uid base (get_vault w.client.vault_id (env.others 0 x.db))
      → update_vault w.client.vault_id uid
          (base + 1)
          blob
          (env.now_ms 0)
          (env.others 1 (env.others 0 x.db))
        ≡ (ok true, d1)
      → x.session.outbound_seq < 2 ^ 32
      → (raw : Bytes) × (y : Conn) × (z : World) × (round c.shared env x ≡ (ok again, y))
        × (y.written ≡ x.written ++ (raw ∷ []))
        × (y.db ≡ d1)
        × (put_vault c blob base (record w { conn = some (dialled (raw ++ rest) (suc left)) })
            ≡ (ok (base + 1), z))
  unfolding on_request on_vault_put of_code
  put_run w x blob more rest base left d1 {payload} {sent} k n16 p small s serving t i current
        stored fits =
      let vid = w.client.vault_id in
      let put : VaultPut = record { vault_id = vid; base_version = base; blob = blob } in
      let (laid, low) = vault_put_payload-put_payload vid base blob p in
      let is_put : IsPut put = record {
        id_length = n16;
        version_fits = low;
        blob_fits = omega arith;
      } in
      let size : length payload ≤ max_payload_len =
        omega (arith, ap length laid, length-put_payload put is_put) in
      let parsed : parse_vault_put payload ≡ ok put =
        ap parse_vault_put laid ∙ parse_vault_put-put_payload put is_put in
      let room = stored_fits vid uid (base + 1) blob _ _ d1 stored in
      let ack = vid ++ to_le 8 (base + 1) in
      let built : build_vault_ack vid (base + 1) ≡ ok ack =
        unfold build_vault_ack in rw (pack-eq-ok 8 (base + 1) room) refl in
      let tiny : length ack ≤ max_payload_len =
        omega (arith, length-append vid (to_le 8 (base + 1)), length-to_le 8 (base + 1)) in
      let f = frame_of 0x11 0 payload w.client in
      let e = serialize-encode c.shared.hmac f key {t = MsgType.vault_put} refl refl s in
      let read = record x { incoming = more } in
      let answer = outgoing MsgType.vault_ack ack x.session.outbound_seq no_flags in
      let raw = framed c.shared answer key in
      let enc =
        encode-eq-ok c.shared.hmac answer key
          (IsSendable-outgoing MsgType.vault_ack ack x.session.outbound_seq tiny fits) in
      (
        raw,
        acknowledged c.shared env uid key ack d1 read,
        _,
        request_round c.shared env uid key hmac_length x (as_server MsgType.vault_put f) more
              serving t i e
            ∙ process_put_lem c.shared env uid key put d1 built tiny payload read parsed current
                stored fits,
        refl,
        refl,
        put_vault_lem c hmac_length key blob vid rest base (base + 1) x.session.outbound_seq
            (record w { conn = some (dialled (raw ++ rest) (suc left)) })
            (dialled (raw ++ rest) (suc left)) refl k refl p size s refl n16 built enc,
      )
