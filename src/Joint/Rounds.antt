-- ===== src/Joint/Rounds.antt =====
-- Rounds of `handle_client` (server-py/server.py) on a frame that has come in time.
use pus_proj.Common.{ℕ, ◌+◌, ◌^◌, ◌≤◌, ◌<◌, ◌≡◌, refl, [], ◌∷◌, ◌++◌, length, arith}
use pus_proj.Common.Results.{ok}
use pus_proj.Bytes.{Bytes}
use pus_proj.Server.Protocol.{MsgType, Frame, encode, hmac_len, max_payload_len, no_flags}
use pus_proj.Server.Protocol.RoundTrip.{IsSendable, signed_part, encode-eq-ok}
use pus_proj.Server.Wire.{read_frame-append}
use pus_proj.Server.Connection.{Conn, Crypto, ◌>>=◌, outgoing, send_next, send_frame, write}
use pus_proj.Server.Handler.Environment.{Env, in_time}
use pus_proj.Server.Handler.Loop.{
  active_mac_key, watch, idle, receive, received, dispatch, wait_and_handle, watched, round,
}

-- A frame as `encode` writes it, when it does.
abbrev pub framed : Crypto → Frame → Bytes → Bytes
framed c f key = signed_part f ++ c.hmac key (signed_part f)

-- A frame of the server that fits.
pub IsSendable-outgoing :
    (t : MsgType) (payload : Bytes) (n : ℕ)
    → length payload ≤ max_payload_len
    → n < 2 ^ 32
    → IsSendable (outgoing t payload n no_flags)
IsSendable-outgoing t payload n small fits = record {
  measured = refl;
  small = small;
  reserved = refl;
  version = omega arith;
  flags = omega arith;
  seq_id = fits;
}

module _ (c : Crypto) where
  pub send_next_lem :
      (t : MsgType) (payload key : Bytes) (x : Conn)
      → length payload ≤ max_payload_len
      → x.session.outbound_seq < 2 ^ 32
      → send_next c t payload key x ≡ (
        ok tt,
        record x {
          session = record x.session { outbound_seq = x.session.outbound_seq + 1 };
          written =
              x.written ++ (framed c (outgoing t payload x.session.outbound_seq no_flags) key ∷ []);
        },
      )
  unfolding send_next send_frame ◌>>=◌ write
  send_next_lem t payload key x small fits =
      rw
        (encode-eq-ok c.hmac _ key
          (IsSendable-outgoing t payload x.session.outbound_seq small fits))
        refl

  module _ (hmac_length : (k m : Bytes) → length (c.hmac k m) ≡ hmac_len) (env : Env) where
    -- A round that finds a whole frame hands it to the state that the connection is in.
    pub round_lem :
        (x : Conn) (key : Bytes) (f : Frame) (more : Bytes) {raw : Bytes}
        → active_mac_key x.session ≡ ok key
        → watch x.session (env.monotonic_ms 0) ≡ idle
        → env.arrival ≡ in_time
        → x.incoming ≡ raw ++ more
        → encode c.hmac f key ≡ ok raw
        → round c env x
          ≡ dispatch c env x.session.phase x.session.authenticated_user_id key
              (record f { hmac = c.hmac key (signed_part f) })
              (record x { incoming = more })
    unfolding round ◌>>=◌ watched wait_and_handle receive received
    round_lem x key f more {raw} a w t i e =
        let got = read_frame-append c.hmac hmac_length f key more e in rw (a, w, t, i, got) refl
