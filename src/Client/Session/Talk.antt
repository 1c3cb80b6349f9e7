-- ===== src/Client/Session/Talk.antt =====
-- Sending to a server that can be written to, and receiving a frame that the server has encoded.
use pus_proj.Common.{
  ℕ, suc, ◌≡◌, refl, ap, ◌∙◌, Bool, true, false, some, [], ◌∷◌, ◌++◌, length, ◌==◌, arith,
}
use pus_proj.Common.Results.{ok}
use pus_proj.Bytes.{Bytes}
use pus_proj.Server.Protocol.{Frame, to_code, encode, hmac_len}
use pus_proj.Client.Framing.{ClientFrame, serialize, svp_version, recv_frame}
use pus_proj.Client.Reception.{as_client, recv_frame-encode}
use pus_proj.Client.Reader.{ByteReader, Read, reader}
use pus_proj.Client.Act.{ClientCrypto, Client, Link, World, Act, pure, ◌>>=◌}
use pus_proj.Client.Session.{
  parse, next_seq, mac_key, send, put_frame, write_frame, take_frame, take_next, recv_rounds, recv,
  expect,
}
use pus_proj.Client.Session.Rounds.{recv_frame_inv}

pub >>=-run {ℓ κ} :
    {A : Type ℓ} {B : Type κ} (m : Act A) (f : A → Act B) {x y : World} {a : A}
    → m x ≡ (ok a, y)
    → (m >>= f) x ≡ f a y
unfolding ◌>>=◌
>>=-run m f e = rw e refl

pub parse_lem {ℓ} :
    {A : Type ℓ} (m : Read A) (payload : Bytes) (x : World) {a : A} {r : ByteReader}
    → m (reader payload) ≡ ok (a, r)
    → parse m payload x ≡ (ok a, x)
unfolding parse
parse_lem m payload x e = rw (parse, e) refl

-- The frame that _send makes.
abbrev pub frame_of : ℕ → ℕ → Bytes → Client → ClientFrame
frame_of type flags payload cl = record {
  version = svp_version;
  type = type;
  flags = flags;
  seq = cl.seq;
  payload = payload;
}

-- The world behind a frame that was sent, and behind one that was received.
abbrev pub after_send : Bytes → ℕ → Link → World → World
after_send raw left link x = record x {
  client = next_seq x.client;
  conn = some (record link { writes_left = left; sent = link.sent ++ (raw ∷ []) });
}

abbrev pub after_recv : Bytes → Link → World → World
after_recv rest link x = record x { conn = some (record link { incoming = rest }) }

module _ (c : ClientCrypto) where
  -- On a connection that can be written to, a frame that fits is sent under the next number.
  pub send_lem :
      (type flags : ℕ) (payload : Bytes) (authed : Bool) (x : World) (link : Link) {left : ℕ}
      {raw : Bytes}
      → x.conn ≡ some link
      → link.writes_left ≡ suc left
      → serialize c.shared.hmac (frame_of type flags payload x.client) (mac_key authed x.client)
        ≡ ok raw
      → send c type flags payload authed x ≡ (ok tt, after_send raw left link x)
  unfolding send put_frame write_frame
  send_lem type flags payload authed x link e w s = rw e (rw (s, w) refl)

  module _ (hmac_length : (k m : Bytes) → length (c.shared.hmac k m) ≡ hmac_len) where
    -- A frame that the server has encoded with the key of the client is received, unless it is a PING
    -- or an ERROR.
    pub recv_lem :
        (authed : Bool) (x : World) (link : Link) (f : Frame) (key rest : Bytes) {raw : Bytes}
        → x.conn ≡ some link
        → link.incoming ≡ raw ++ rest
        → mac_key authed x.client ≡ some key
        → encode c.shared.hmac f key ≡ ok raw
        → f.version ≡ 1
        → (to_code f.msg_type == 0x20) ≡ false
        → (to_code f.msg_type == 0xFF) ≡ false
        → recv c authed x ≡ (ok (as_client f), after_recv rest link x)
    unfolding recv recv_rounds take_next take_frame ◌>>=◌
    recv_lem authed x link f key rest {raw} e i k enc one ping bad =
        let got : recv_frame c.shared.hmac (some key) link.incoming ≡ ok (as_client f, rest) =
          ap (recv_frame c.shared.hmac (some key)) i
          ∙ recv_frame-encode c.shared.hmac hmac_length f key rest enc one in
        let left = (recv_frame_inv c.shared.hmac (some key) link.incoming got).0 in
        rw e (rw (k, got, left, ping, bad) refl)

    pub expect_lem :
        (type : ℕ) (authed : Bool) (x : World) (link : Link) (f : Frame) (key rest : Bytes)
        {raw : Bytes}
        → x.conn ≡ some link
        → link.incoming ≡ raw ++ rest
        → mac_key authed x.client ≡ some key
        → encode c.shared.hmac f key ≡ ok raw
        → f.version ≡ 1
        → to_code f.msg_type ≡ type
        → (type == 0x20) ≡ false
        → (type == 0xFF) ≡ false
        → expect c type authed x ≡ (ok (as_client f), after_recv rest link x)
    unfolding expect pure
    expect_lem type authed x link f key rest e i k enc one is ping bad =
        let r =
          recv_lem authed x link f key rest e i k enc one (ap (λ t. t == 0x20) is ∙ ping)
            (ap (λ t. t == 0xFF) is ∙ bad) in
        let same : (to_code f.msg_type == type) ≡ true = ground arith in
        >>=-run (recv c authed) _ r ∙ rw same refl
