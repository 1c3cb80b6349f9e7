-- ===== src/Joint/Fetching.antt =====
-- fetch_vault of client-py/svpclient.py with the round of server-py/server.py that serves it.
use pus_proj.Common.{
  ℕ, suc, ◌+◌, ◌^◌, ◌≤◌, ◌<◌, ◌≡◌, refl, ◌∙◌, some, List, ◌++◌, length, length-append, arith,
}
use pus_proj.Common.Results.{ok}
use pus_proj.Bytes.{Bytes, to_le, length-to_le, pack-eq-ok}
use pus_proj.Server.Protocol.{MsgType, of_code, hmac_len}
use pus_proj.Server.Protocol.RoundTrip.{signed_part}
use pus_proj.Server.Database.{VaultRow, get_vault}
use pus_proj.Server.Payloads.{build_vault_data}
use pus_proj.Server.Connection.{Conn}
use pus_proj.Server.Handler.Environment.{Env, in_time, again}
use pus_proj.Server.Handler.Requests.{on_request}
use pus_proj.Server.Handler.Loop.{round}
use pus_proj.Client.Framing.{serialize, serialize-encode, as_server}
use pus_proj.Client.Requests.{vault_get_payload}
use pus_proj.Client.Requests.Understood.{parse_vault_get-vault_get_payload}
use pus_proj.Client.Act.{ClientCrypto, World, dialled}
use pus_proj.Client.Session.Talk.{frame_of}
use pus_proj.Client.Exchange.{fetch_vault}
use pus_proj.Client.Exchange.Fetches.{stream, fetch_vault_lem}
use pus_proj.Joint.Requests.{IsServing, request_round, send_data_lem, on_vault_get_lem}

module _ (c : ClientCrypto) (hmac_length : (k m : Bytes) → length (c.shared.hmac k m) ≡ hmac_len)
    (env : Env) (uid : ℕ) (key : Bytes) where
  -- The client gets the blob of the row that the server finds, and its version.
  pub fetch_run :
      (w : World) (x : Conn) (row : VaultRow) (blob more rest : Bytes) (version left : ℕ)
      {payload sent : Bytes}
      → w.client.k_mac ≡ some key
      → length w.client.vault_id ≡ 16
      → vault_get_payload w.client.vault_id w.client.vault_version ≡ ok payload
      → serialize c.shared.hmac (frame_of 0x10 0 payload w.client) (some key) ≡ ok sent
      → IsServing uid key x
      → env.arrival ≡ in_time
      → x.incoming ≡ sent ++ more
      → get_vault w.client.vault_id (env.others 0 x.db) ≡ some row
      → row.user_id ≡ some uid
      → row.version ≡ some version
      → row.blob ≡ some blob
      → version < 256 ^ 8
      → x.session.outbound_seq + (length blob + 24) ≤ 2 ^ 32
      → (raws : List Bytes) × (y : Conn) × (z : World) × (round c.shared env x ≡ (ok again, y))
        × (y.written ≡ x.written ++ raws)
        × (fetch_vault c (record w { conn = some (dialled (stream raws ++ rest) (suc left)) })
            ≡ (ok (some blob), z))
        × (z.client.vault_version ≡ version)
  unfolding on_request of_code
  fetch_run w x row blob more rest version left {payload} {sent} k n16 p s serving t i found owned
        at holds room fits =
      let vid = w.client.vault_id in
      let content = vid ++ (to_le 8 version ++ blob) in
      let built : build_vault_data vid version blob ≡ ok content =
        unfold build_vault_data in rw (pack-eq-ok 8 version room) refl in
      let size : length content ≡ length blob + 24 = omega (
        arith,
        length-append vid (to_le 8 version ++ blob),
        length-append (to_le 8 version) blob,
        length-to_le 8 version,
      ) in
      let parsed = parse_vault_get-vault_get_payload vid w.client.vault_version n16 p in
      let f = frame_of 0x10 0 payload w.client in
      let g = record (as_server MsgType.vault_get f) {
        hmac = c.shared.hmac key (signed_part (as_server MsgType.vault_get f));
      } in
      let e = serialize-encode c.shared.hmac f key {t = MsgType.vault_get} refl refl s in
      let read = record x { incoming = more } in
      let (raws, n, delivered, written) =
        send_data_lem c.shared env uid key content (record read { db = env.others 0 x.db })
          (omega arith) (omega arith) in
      (
        raws,
        _,
        _,
        request_round c.shared env uid key hmac_length x (as_server MsgType.vault_get f) more
              serving t i e
            ∙ on_vault_get_lem c.shared env uid key vid content blob w.client.vault_version version
                row g read _ parsed found owned at holds built written,
        refl,
        fetch_vault_lem c hmac_length key raws x.session.outbound_seq version vid blob rest
            (record w { conn = some (dialled (stream raws ++ rest) (suc left)) })
            (dialled (stream raws ++ rest) (suc left)) refl k refl p s refl n16 built delivered,
        refl,
      )
