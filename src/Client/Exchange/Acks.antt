-- ===== src/Client/Exchange/Acks.antt =====
-- How put_vault of client-py/svpclient.py ends on a VAULT_ACK of server-py/server.py.
use pus_proj.Common.{
  ℕ, suc, ◌+◌, ◌^◌, ◌≤◌, ◌<◌, ◌≡◌, refl, sym, ◌∙◌, true, some, [], ◌∷◌, ◌++◌, length, leb,
  append-nil, arith,
}
use pus_proj.Common.Results.{ok}
use pus_proj.Bytes.{Bytes, pack, to_le}
use pus_proj.Server.Protocol.{MsgType, to_code, encode, hmac_len}
use pus_proj.Server.Connection.{outgoing}
use pus_proj.Server.Payloads.{build_vault_ack}
use pus_proj.Client.Framing.{serialize, max_payload}
use pus_proj.Client.Reader.{ByteReader, reader}
use pus_proj.Client.Reader
use pus_proj.Client.Encodes.{At, Reads-raw, Reads-field}
use pus_proj.Client.Requests.{vault_put_payload}
use pus_proj.Client.Act.{ClientCrypto, Link, World, ◌>>=◌}
use pus_proj.Client.Session.Talk.{frame_of, send_lem, expect_lem, parse_lem, after_send, after_recv}
use pus_proj.Client.Exchange.{vault_ack, send_put, put_vault}

vault_ack_lem :
    (vault_id : Bytes) (version : ℕ) {payload : Bytes}
    → length vault_id ≡ 16
    → build_vault_ack vault_id version ≡ ok payload
    → (r : ByteReader) × (vault_ack (reader payload) ≡ ok (version, r))
unfolding vault_ack Reader.◌>>=◌ build_vault_ack pack
vault_ack_lem vault_id version {payload} n16 h =
    let fits : version < 256 ^ 8 = ground arith in
    let whole : payload ≡ vault_id ++ to_le 8 version = ground arith in
    let start : At (reader payload) (vault_id ++ (to_le 8 version)) = record {
      ahead = whole;
      within = omega arith;
    } in
    let (r1, e1, h1) = (Reads-raw 16 vault_id n16).run (reader payload) (to_le 8 version) start in
    let h2 : At r1 (to_le 8 version ++ []) = record {
      ahead = h1.ahead ∙ sym (append-nil (to_le 8 version));
      within = h1.within;
    } in
    let (r2, e2, h3) = (Reads-field 8 version fits).run r1 [] h2 in (r2, rw (e1, e2) refl)

module _ (c : ClientCrypto) (hmac_length : (k m : Bytes) → length (c.shared.hmac k m) ≡ hmac_len)
    (key : Bytes) where
  -- A put whose payload fits a frame, and which the server acknowledges, ends with the version that
  -- the server has acknowledged, which is kept; one frame was sent under the next number.
  pub put_vault_lem :
      (blob vault_id rest : Bytes) (base_version version seq : ℕ) (x : World) (link : Link)
      {left : ℕ} {payload sent ack raw : Bytes}
      → x.conn ≡ some link
      → x.client.k_mac ≡ some key
      → link.writes_left ≡ suc left
      → vault_put_payload x.client.vault_id base_version blob ≡ ok payload
      → length payload ≤ max_payload
      → serialize c.shared.hmac (frame_of 0x11 0 payload x.client) (some key) ≡ ok sent
      → link.incoming ≡ raw ++ rest
      → length vault_id ≡ 16
      → build_vault_ack vault_id version ≡ ok ack
      → encode c.shared.hmac (outgoing MsgType.vault_ack ack seq 0) key ≡ ok raw
      → put_vault c blob base_version x ≡ (
        ok version,
        record x {
          client = record x.client { seq = x.client.seq + 1; vault_version = version };
          conn =
              some
                (record { incoming = rest; writes_left = left; sent = link.sent ++ (sent ∷ []) });
        },
      )
  unfolding put_vault send_put to_code ◌>>=◌
  put_vault_lem blob vault_id rest base_version version seq x link {left} {payload} {sent} {ack}
        {raw} e k w p small s i n16 built enc =
      let whole : leb (length payload) max_payload ≡ true = ground arith in
      let s2 : serialize c.shared.hmac (frame_of 0x11 0 payload x.client) x.client.k_mac ≡ ok sent =
        rw k s in
      let said = send_lem c 0x11 0 payload true x link e w s2 in
      let y = after_send sent left link x in
      let link1 : Link = record link { writes_left = left; sent = link.sent ++ (sent ∷ []) } in
      let heard =
        expect_lem c hmac_length 0x14 true y link1 (outgoing MsgType.vault_ack ack seq 0) key rest
          refl i k enc refl refl refl refl in
      let (r, read) = vault_ack_lem vault_id version n16 built in
      let parsed = parse_lem vault_ack ack (after_recv rest link1 y) read in
      rw (p, whole, said, heard, parsed) refl
