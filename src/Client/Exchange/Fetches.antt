-- ===== src/Client/Exchange/Fetches.antt =====
-- How fetch_vault of client-py/svpclient.py puts the VAULT_DATA of server-py/server.py together.
use pus_proj.Common.{
  ℕ, zero, suc, ◌+◌, ◌-◌, ◌^◌, ◌≤◌, ◌<◌, ◌≡◌, refl, sym, ap, ◌∙◌, ◌⊎◌, inl, inr, some, List, [],
  ◌∷◌, ◌++◌, length, true, false, append-nil, append_assoc, length-append, length-drop, ◌==◌,
  if◌then◌else◌, Bool-cases, arith,
}
use pus_proj.Common.Results.{ok}
use pus_proj.Bytes.{Bytes, pack, to_le}
use pus_proj.Server.Protocol.{MsgType, to_code, encode, hmac_len, has_flag}
use pus_proj.Server.Connection.{outgoing}
use pus_proj.Server.Payloads.{build_vault_data}
use pus_proj.Server.Handler.Chunks.{Pieces, flags_before}
use pus_proj.Client.Framing.{ClientFrame, serialize}
use pus_proj.Client.Reception.{as_client}
use pus_proj.Client.Reader.{ByteReader, reader}
use pus_proj.Client.Reader
use pus_proj.Client.Encodes.{At, Reads-raw, Reads-field}
use pus_proj.Client.Requests.{vault_get_payload}
use pus_proj.Client.Act.{ClientCrypto, Link, World, pure, ◌>>=◌, attempt}
use pus_proj.Client.Session.{recv, bytes_ahead}
use pus_proj.Client.Session.Rounds.{bytes_ahead-recv}
use pus_proj.Client.Session.Talk.{frame_of, send_lem, recv_lem, parse_lem, after_send, after_recv}
use pus_proj.Client.Exchange.{
  gather, gather_all, check_fragment, vault_data, take_vault, fetch_vault,
}

-- Frames one behind the other on the stream.
unfoldable pub stream : List Bytes → Bytes
stream [] = []
stream (raw ∷ raws) = raw ++ stream raws

some_left_lem :
    (chunk rest : Bytes) → 1 ≤ length chunk → has_flag (flags_before (chunk ++ rest)) 8 ≡ false
some_left_lem chunk rest h =
    let more : (length (chunk ++ rest) == 0) ≡ false =
      let size = length-append chunk rest in ground arith in
    rw more refl

fragment_lem : (rest : Bytes) → has_flag (flags_before rest) 4 ≡ true
fragment_lem rest = elim (Bool-cases (length rest == 0)) [ inl q ↦ rw q refl | inr q ↦ rw q refl ]

vault_data_lem :
    (vault_id : Bytes) (version : ℕ) (blob : Bytes) {payload : Bytes}
    → length vault_id ≡ 16
    → build_vault_data vault_id version blob ≡ ok payload
    → (r : ByteReader) × (vault_data (reader payload) ≡ ok ((version, blob), r))
unfolding vault_data Reader.◌>>=◌ Reader.remaining build_vault_data pack
vault_data_lem vault_id version blob {payload} n16 h =
    let fits : version < 256 ^ 8 = ground arith in
    let whole : payload ≡ vault_id ++ (to_le 8 version ++ blob) = ground arith in
    let start : At (reader payload) (vault_id ++ (to_le 8 version ++ blob)) = record {
      ahead = whole;
      within = omega arith;
    } in
    let (r1, e1, h1) =
      (Reads-raw 16 vault_id n16).run (reader payload) (to_le 8 version ++ blob) start in
    let (r2, e2, h2) = (Reads-field 8 version fits).run r1 blob h1 in
    let left : length r2.buf - r2.pos ≡ length blob =
      sym (length-drop r2.pos r2.buf) ∙ ap length h2.ahead in
    let h3 : At r2 (blob ++ []) = record {
      ahead = h2.ahead ∙ sym (append-nil blob);
      within = h2.within;
    } in
    let (r3, e3, h4) = (Reads-raw (length blob) blob refl).run r2 [] h3 in
    (r3, rw (e1, e2, left, e3) refl)

-- The frames in which the server sends a VAULT_DATA: one without flags, or the pieces.
abbrev pub Delivered : ClientCrypto → Bytes → ℕ → List Bytes → Bytes → Type 0
Delivered c key seq raws payload =
    ((raw : Bytes) × (raws ≡ raw ∷ [])
      × (encode c.shared.hmac (outgoing MsgType.vault_data payload seq 0) key ≡ ok raw))
    ⊎ (Pieces c.shared MsgType.vault_data key seq raws payload × (1 ≤ length payload))

module _ (c : ClientCrypto) (hmac_length : (k m : Bytes) → length (c.shared.hmac k m) ≡ hmac_len)
    (key : Bytes) where
  gather_lem :
      (raws : List Bytes) (n seq : ℕ) (payload rest behind : Bytes) (x : World) (link : Link)
      → x.conn ≡ some link
      → x.client.k_mac ≡ some key
      → link.incoming ≡ stream raws ++ behind
      → Pieces c.shared MsgType.vault_data key seq raws rest
      → bytes_ahead x < n
      → gather c n (flags_before rest) payload x ≡ (ok (payload ++ rest), after_recv behind link x)
  unfolding gather ◌>>=◌ check_fragment stream to_code
  gather_lem raws zero seq payload rest behind x link e k i ps h = absurd (omega arith)
  gather_lem [] (suc n) seq payload rest behind x link e k i ps h =
      rw (ps, append-nil payload, ← i, ← e) refl
  gather_lem (raw ∷ raws) (suc n) seq payload rest behind x link e k i ps h =
      let (chunk, rest', cut, one, small, enc, pieces) = ps in
      let more : has_flag (flags_before rest) 8 ≡ false = rw cut (some_left_lem chunk rest' one) in
      let i2 : link.incoming ≡ raw ++ (stream raws ++ behind) =
        i ∙ append_assoc raw (stream raws) behind in
      let f = outgoing MsgType.vault_data chunk seq (flags_before rest') in
      let y = after_recv (stream raws ++ behind) link x in
      let link1 : Link = record link { incoming = stream raws ++ behind } in
      let got : recv c true x ≡ (ok (as_client f), y) =
        recv_lem c hmac_length true x link f key (stream raws ++ behind) e i2 k enc refl refl
          refl in
      let fewer : bytes_ahead y + 43 ≤ bytes_ahead x =
        rw got at (bytes_ahead-recv c true x (ap (λ p. p.0) got)) in
      let again =
        gather_lem raws n (seq + 1) (payload ++ chunk) rest' behind y link1 refl k refl pieces
          (omega (arith, fewer)) in
      let order = append_assoc payload chunk rest' in
      let flag = fragment_lem rest' in rw (more, got, flag, again, cut, order) refl

  first_lem :
      (raws : List Bytes) (seq : ℕ) (payload behind : Bytes) (x : World) (link : Link)
      → x.conn ≡ some link
      → x.client.k_mac ≡ some key
      → link.incoming ≡ stream raws ++ behind
      → Delivered c key seq raws payload
      → (f : ClientFrame) × (y : World) × (recv c true x ≡ (ok f, y))
        × ((f.type == 0x13) ≡ true)
        × ((if has_flag f.flags 4 then gather_all c f.flags f.payload else pure f.payload) y
            ≡ (ok payload, after_recv behind link x))
  unfolding stream to_code pure gather_all
  first_lem raws seq payload behind x link e k i (inl (raw, one, enc)) =
      let f = outgoing MsgType.vault_data payload seq 0 in
      let i2 : link.incoming ≡ raw ++ behind =
        i ∙ ap (λ rs. stream rs ++ behind) one ∙ ap (λ b. b ++ behind) (append-nil raw) in
      (
        as_client f,
        after_recv behind link x,
        recv_lem c hmac_length true x link f key behind e i2 k enc refl refl refl,
        refl,
        refl,
      )
  first_lem [] seq payload behind x link e k i (inr (ps, some_bytes)) =
      absurd (omega (arith, ap length ps))
  first_lem (raw ∷ raws) seq payload behind x link e k i (inr (ps, some_bytes)) =
      let (chunk, rest, cut, one, small, enc, pieces) = ps in
      let i2 : link.incoming ≡ raw ++ (stream raws ++ behind) =
        i ∙ append_assoc raw (stream raws) behind in
      let f = outgoing MsgType.vault_data chunk seq (flags_before rest) in
      let y = after_recv (stream raws ++ behind) link x in
      let link1 : Link = record link { incoming = stream raws ++ behind } in
      let flag = fragment_lem rest in
      let all =
        gather_lem raws (suc (bytes_ahead y)) (seq + 1) chunk rest behind y link1 refl k refl pieces
          (omega arith) in
      (
        as_client f,
        y,
        recv_lem c hmac_length true x link f key (stream raws ++ behind) e i2 k enc refl refl refl,
        refl,
        rw (flag, cut) all,
      )

  -- fetch_vault returns the blob that the server put into its VAULT_DATA, whether it came in one
  -- frame or in pieces, keeps its version, has sent one VAULT_GET under the next number, and leaves
  -- on the stream what is behind the answer. It is so when digests have 32 bytes, a write succeeds,
  -- the request fits a frame, the vault identifier of the answer has 16 bytes, and the frames are
  -- encoded with the key of the session.
  pub fetch_vault_lem :
      (raws : List Bytes) (seq version : ℕ) (vault_id blob behind : Bytes) (x : World) (link : Link)
      {left : ℕ} {request sent payload : Bytes}
      → x.conn ≡ some link
      → x.client.k_mac ≡ some key
      → link.writes_left ≡ suc left
      → vault_get_payload x.client.vault_id x.client.vault_version ≡ ok request
      → serialize c.shared.hmac (frame_of 0x10 0 request x.client) (some key) ≡ ok sent
      → link.incoming ≡ stream raws ++ behind
      → length vault_id ≡ 16
      → build_vault_data vault_id version blob ≡ ok payload
      → Delivered c key seq raws payload
      → fetch_vault c x ≡ (
        ok (some blob),
        record x {
          client = record x.client { seq = x.client.seq + 1; vault_version = version };
          conn =
              some
                (record { incoming = behind; writes_left = left; sent = link.sent ++ (sent ∷ []) });
        },
      )
  unfolding fetch_vault attempt take_vault ◌>>=◌
  fetch_vault_lem raws seq version vault_id blob behind x link {left} {request} {sent} {payload} e k
        w q s i n16 built d =
      let s2 : serialize c.shared.hmac (frame_of 0x10 0 request x.client) x.client.k_mac ≡ ok sent =
        rw k s in
      let said = send_lem c 0x10 0 request true x link e w s2 in
      let y = after_send sent left link x in
      let link1 : Link = record link { writes_left = left; sent = link.sent ++ (sent ∷ []) } in
      let (f, z, got, is_data, all) = first_lem raws seq payload behind y link1 refl k i d in
      let (r, read) = vault_data_lem vault_id version blob n16 built in
      let parsed = parse_lem vault_data payload (after_recv behind link1 y) read in
      rw (q, said, got, is_data, all, parsed) refl
