-- ===== src/Client/Exchange/Puts.antt =====
-- The frames of a long VAULT_PUT in put_vault of client-py/svpclient.py, seen by server-py/server.py.
use pus_proj.Common.{
  ℕ, zero, suc, ◌+◌, ◌-◌, ◌^◌, ◌≤◌, ◌<◌, ◌≡◌, refl, inl, inr, some, List, [], ◌∷◌, ◌++◌, length,
  drop, leb, ltb, ltb→ge, ltb→lt, Bool-cases, true, false, append-nil, append_assoc, drop_all,
  arith,
}
use pus_proj.Common.Results.{ok}
use pus_proj.Bytes.{Bytes}
use pus_proj.Server.Protocol.{MsgType, of_code, encode}
use pus_proj.Server.Protocol.RoundTrip.{IsSendable, encode-eq-ok, signed_part}
use pus_proj.Server.Connection.{outgoing}
use pus_proj.Server.Handler.Fragments.{chunk_at}
use pus_proj.Server.Handler.Chunks.{Pieces, flags_before, flags_before_lem, chunk_lem}
use pus_proj.Client.Framing.{serialize, max_payload, encode-serialize}
use pus_proj.Client.Act.{ClientCrypto, Link, World, ◌>>=◌}
use pus_proj.Client.Session.Talk.{frame_of, send_lem, after_send}
use pus_proj.Client.Exchange.{put_chunks, send_put}

-- The world behind frames that were sent.
abbrev pub after_sends : List Bytes → Link → World → World
after_sends raws link x = record x {
  client = record x.client { seq = x.client.seq + length raws };
  conn =
      some (record link { writes_left = link.writes_left - length raws; sent = link.sent ++ raws });
}

module _ (c : ClientCrypto) (key payload : Bytes) where
  puts_lem :
      (fuel offset : ℕ) (x : World) (link : Link)
      → x.conn ≡ some link
      → x.client.k_mac ≡ some key
      → offset ≤ length payload
      → length payload ≤ offset + fuel
      → x.client.seq + (length payload - offset) ≤ 2 ^ 32
      → length payload - offset ≤ link.writes_left
      → (raws : List Bytes) × Pieces c.shared MsgType.vault_put key x.client.seq raws
          (drop offset payload)
        × (put_chunks c fuel offset payload x ≡ (ok tt, after_sends raws link x))
  unfolding put_chunks ◌>>=◌
  puts_lem zero offset x link e k within enough fits room =
      let none_sent : x.client.seq + 0 ≡ x.client.seq = omega arith in
      let all_left : link.writes_left - 0 ≡ link.writes_left = omega arith in
      (
        [],
        drop_all offset payload (omega arith),
        rw (none_sent, all_left, append-nil link.sent, ← e) refl,
      )
  puts_lem (suc fuel) offset x link e k within enough fits room =
      elim (Bool-cases (ltb offset (length payload))) [
        | inr done ↦
            let none_sent : x.client.seq + 0 ≡ x.client.seq = omega arith in
            let all_left : link.writes_left - 0 ≡ link.writes_left = omega arith in
            (
              [],
              drop_all offset payload (ltb→ge _ _ done),
              rw (done, none_sent, all_left, append-nil link.sent, ← e) refl,
            )
        | inl more ↦
            let chunk = chunk_at c.shared MsgType.vault_put payload key offset in
            let rest = drop (offset + length chunk) payload in
            let (cut, some_left, small, inside, flags) =
              chunk_lem c.shared MsgType.vault_put key payload offset (ltb→lt _ _ more) in
            let fl = flags_before rest in
            let frame = outgoing MsgType.vault_put chunk x.client.seq fl in
            let sendable : IsSendable frame = record {
              measured = refl;
              small = small;
              reserved = (flags_before_lem rest).0;
              version = omega arith;
              flags = (flags_before_lem rest).1;
              seq_id = omega arith;
            } in
            let raw = signed_part frame ++ c.shared.hmac key (signed_part frame) in
            let enc : encode c.shared.hmac frame key ≡ ok raw =
              encode-eq-ok c.shared.hmac frame key sendable in
            let ser =
              encode-serialize c.shared.hmac (frame_of 0x11 fl chunk x.client) key
                {t = MsgType.vault_put} (unfold of_code in refl) enc in
            let ser2 : serialize c.shared.hmac (frame_of 0x11 fl chunk x.client) x.client.k_mac
                ≡ ok raw =
              rw k ser in
            let left = link.writes_left - 1 in
            let can : link.writes_left ≡ suc left = omega arith in
            let said = send_lem c 0x11 fl chunk true x link e can ser2 in
            let y = after_send raw left link x in
            let link1 : Link = record link { writes_left = left; sent = link.sent ++ (raw ∷ []) } in
            let (raws, pieces, sent) =
              puts_lem fuel (offset + length chunk) y link1 refl k inside (omega arith)
                (omega arith) (omega arith) in
            let count : (x.client.seq + 1) + length raws ≡ x.client.seq + suc (length raws) =
              omega arith in
            let count2 : (link.writes_left - 1) - length raws
                ≡ link.writes_left - suc (length raws) =
              omega arith in
            let order = append_assoc link.sent (raw ∷ []) raws in
            (
              raw ∷ raws,
              (chunk, rest, cut, some_left, small, enc, pieces),
              rw (more, flags, said, sent, count, count2, order) refl,
            )
      ]

  -- On a connection with a session key, a payload over the limit of one frame is sent whole, as
  -- encoded VAULT_PUT frames of the server's protocol that carry its pieces in order, under the
  -- client's next numbers, all marked FRAGMENTED and only the last one LAST_FRAG. It is so when the
  -- numbers of as many frames as the payload has bytes fit 32 bits and as many writes succeed.
  pub send_put-Pieces :
      (x : World) (link : Link)
      → x.conn ≡ some link
      → x.client.k_mac ≡ some key
      → max_payload < length payload
      → x.client.seq + length payload ≤ 2 ^ 32
      → length payload ≤ link.writes_left
      → (raws : List Bytes) × Pieces c.shared MsgType.vault_put key x.client.seq raws payload
        × (send_put c payload x ≡ (ok tt, after_sends raws link x))
  unfolding send_put
  send_put-Pieces x link e k long fits room =
      let split : leb (length payload) max_payload ≡ false = ground arith in
      rw split (
        puts_lem (length payload) 0 x link e k (omega arith) (omega arith) (omega arith)
          (omega arith))
