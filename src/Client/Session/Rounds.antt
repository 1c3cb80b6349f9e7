-- ===== src/Client/Session/Rounds.antt =====
-- _recv of client-py/svpclient.py takes as many rounds as the server sends frames.
use pus_proj.Common.{
  ℕ, zero, suc, ◌+◌, ◌≤◌, ◌<◌, ◌≡◌, refl, ap, Bool, Option, none, some, length, take, drop, ◌==◌,
  arith, length-drop, drop-drop, inl, inr, Bool-cases,
}
use pus_proj.Common.Results.{Result, ok, err, Result-cases}
use pus_proj.Bytes.{Bytes}
use pus_proj.Client.Framing.{ClientFrame, recv_frame, read_exact, parse_header}
use pus_proj.Client.Act.{ClientCrypto, Link, World, ◌>>=◌}
use pus_proj.Client.Session.{
  parse, error_code, left_behind, left_over, take_frame, take_next, send, put_frame, write_frame,
  recv_rounds, recv, bytes_of, bytes_ahead,
}

module _ (hmac : Bytes → Bytes → Bytes) where
  -- A frame takes 43 bytes of the stream at least, and leaves what recv_frame returns behind it.
  pub recv_frame_inv :
      (key : Option Bytes) (stream : Bytes) {f : ClientFrame} {rest : Bytes}
      → recv_frame hmac key stream ≡ ok (f, rest)
      → (left_over stream ≡ rest) × (length rest + 43 ≤ length stream)
  unfolding recv_frame read_exact left_over left_behind
  recv_frame_inv key stream h = elim (Result-cases (parse_header (take 11 stream))) [
    | inr (e, p) ↦ ground (arith, p)
    | inl (hd, p) ↦
        let d1 = drop-drop hd.payload_len 32 (drop 11 stream) in
        let n1 = length-drop 11 stream in
        let n2 = length-drop hd.payload_len (drop 11 stream) in
        let n3 = length-drop 32 (drop hd.payload_len (drop 11 stream)) in
        ground (arith, p, d1, n1, n2, n3)
  ]

module _ (c : ClientCrypto) where
  bytes_of-write_frame :
      (r : Result Bytes) (left : ℕ) (link : Link)
      → bytes_of (some (write_frame r left link).1) ≡ bytes_of (some link)
  unfolding write_frame
  bytes_of-write_frame (err e) left link = refl
  bytes_of-write_frame (ok raw) zero link = refl
  bytes_of-write_frame (ok raw) (suc left) link = refl

  bytes_ahead-put_frame :
      (frame : ClientFrame) (key : Option Bytes) (o : Option Link) (x : World)
      → x.conn ≡ o
      → bytes_ahead (put_frame c frame key o x).1 ≡ bytes_of o
  unfolding put_frame
  bytes_ahead-put_frame frame key none x e = ap bytes_of e
  bytes_ahead-put_frame frame key (some link) x e = bytes_of-write_frame _ link.writes_left link

  -- Sending leaves what the server has still to say.
  pub bytes_ahead-send :
      (type flags : ℕ) (payload : Bytes) (authed : Bool) (x : World)
      → bytes_ahead (send c type flags payload authed x).1 ≡ bytes_ahead x
  unfolding send
  bytes_ahead-send type flags payload authed x = bytes_ahead-put_frame _ _ x.conn _ refl

  bytes_ahead-take_frame :
      (key : Option Bytes) (o : Option Link) (x : World) {f : ClientFrame}
      → (take_frame c key o x).0 ≡ ok f
      → bytes_ahead (take_frame c key o x).1 + 43 ≤ bytes_of o
  unfolding take_frame
  bytes_ahead-take_frame key none x h = cc
  bytes_ahead-take_frame key (some link) x h =
      elim (Result-cases (recv_frame c.shared.hmac key link.incoming)) [
        | inr (e, p) ↦ cc (rw p at h)
        | inl ((f, rest), p) ↦
            let (left, small) = recv_frame_inv c.shared.hmac key link.incoming p in rw left small
      ]

  -- A frame that is received takes 43 bytes at least.
  pub bytes_ahead-take_next :
      (authed : Bool) (x : World) {f : ClientFrame}
      → (take_next c authed x).0 ≡ ok f
      → bytes_ahead (take_next c authed x).1 + 43 ≤ bytes_ahead x
  unfolding take_next
  bytes_ahead-take_next authed x h = bytes_ahead-take_frame _ x.conn x h

  module _ (authed : Bool) where
    enough :
        (n m : ℕ) (x : World)
        → bytes_ahead x < n
        → bytes_ahead x < m
        → recv_rounds c n authed x ≡ recv_rounds c m authed x
    unfolding recv_rounds ◌>>=◌
    enough zero m x hn hm = absurd (omega arith)
    enough (suc n) zero x hn hm = absurd (omega arith)
    enough (suc n) (suc m) x hn hm = elim (Result-cases (take_next c authed x).0) [
      | inr (e, p) ↦ rw p refl
      | inl (f, p) ↦
          let y = (take_next c authed x).1 in
          let fewer = bytes_ahead-take_next authed x p in
          let z = (send c 0x21 0 f.payload authed y).1 in
          let same = bytes_ahead-send 0x21 0 f.payload authed y in
          let again = enough n m z (omega (arith, fewer, same)) (omega (arith, fewer, same)) in
          rw p (elim (Bool-cases (f.type == 0x20)) [
            | inr other ↦ rw other refl
            | inl ping ↦ rw ping (elim (Result-cases (send c 0x21 0 f.payload authed y).0) [
              | inr (e, q) ↦ rw q refl
              | inl (u, q) ↦ rw q again
            ])
          ])
    ]

    -- Any bound on the rounds that exceeds the bytes still to be read gives the result of _recv, so
    -- _recv ends although the server may send a PING after a PING, each of which it answers.
    pub recv_rounds_enough :
        (fuel : ℕ) (x : World)
        → bytes_ahead x < fuel
        → recv_rounds c fuel authed x ≡ recv c authed x
    unfolding recv
    recv_rounds_enough fuel x h = enough fuel (suc (bytes_ahead x)) x h (omega arith)

    rounds_lem :
        (n : ℕ) (x : World) {f : ClientFrame}
        → (recv_rounds c n authed x).0 ≡ ok f
        → bytes_ahead (recv_rounds c n authed x).1 + 43 ≤ bytes_ahead x
    unfolding recv_rounds ◌>>=◌
    rounds_lem zero x h = cc
    rounds_lem (suc n) x h = elim (Result-cases (take_next c authed x).0) [
      | inr (e, p) ↦ cc (rw p at h)
      | inl (f, p) ↦
          let y = (take_next c authed x).1 in
          let fewer = bytes_ahead-take_next authed x p in
          let z = (send c 0x21 0 f.payload authed y).1 in
          let same = bytes_ahead-send 0x21 0 f.payload authed y in
          rw p (elim (Bool-cases (f.type == 0x20)) [
            | inl ping ↦ elim (Result-cases (send c 0x21 0 f.payload authed y).0) [
              | inr (e, q) ↦ cc (rw (p, ping, q) at h)
              | inl (u, q) ↦
                  let again = rounds_lem n z (rw (p, ping, q) at h) in
                  rw (ping, q) (omega (arith, again, fewer, same))
            ]
            | inr other ↦ elim (Bool-cases (f.type == 0xFF)) [
              | inr plain ↦ rw (other, plain) fewer
              | inl bad ↦ elim (Result-cases (parse error_code f.payload y).0) [
                | inl (code, q) ↦ cc (rw (p, other, bad, q) at h)
                | inr (e, q) ↦ cc (rw (p, other, bad, q) at h)
              ]
            ]
          ])
    ]

    -- A frame that _recv returns takes 43 bytes at least.
    pub bytes_ahead-recv :
        (x : World) {f : ClientFrame}
        → (recv c authed x).0 ≡ ok f
        → bytes_ahead (recv c authed x).1 + 43 ≤ bytes_ahead x
    unfolding recv
    bytes_ahead-recv x h = rounds_lem (suc (bytes_ahead x)) x h
