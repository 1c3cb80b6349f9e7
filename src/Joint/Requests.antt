-- ===== src/Joint/Requests.antt =====
-- How the state ESTABLISHED of `handle_client` (server-py/server.py) serves a VAULT_PUT and a
-- VAULT_GET that it accepts.
use pus_proj.Common.{
  ℕ, ◌+◌, ◌^◌, ◌≤◌, ◌<◌, ◌≡◌, refl, ap, ◌∙◌, true, Option, none, some, List, [], ◌∷◌, ◌++◌, length,
  ◌==◌, leb, arith, inl, inr, ◌⊎◌, sym, Bool-cases,
}
use pus_proj.Common.Results.{ok}
use pus_proj.Bytes.{Bytes}
use pus_proj.Server.Protocol.{MsgType, Frame, encode, hmac_len, max_payload_len, no_flags}
use pus_proj.Server.Protocol.RoundTrip.{signed_part, encode-eq-ok}
use pus_proj.Server.Database.{Db, VaultRow, get_vault, update_vault}
use pus_proj.Server.Payloads.{
  VaultPut, parse_vault_put, parse_vault_get, build_vault_ack, build_vault_data,
}
use pus_proj.Server.Connection.{established, Conn, Crypto, ◌>>=◌, outgoing, send_frame, write}
use pus_proj.Server.Handler.Environment.{Env, in_time, again}
use pus_proj.Server.Handler.Fragments.{send_fragmented_payload}
use pus_proj.Server.Handler.Chunks.{Pieces, send_fragmented_payload-Pieces}
use pus_proj.Server.Handler.Requests.{
  is_foreign, on_request, on_established, on_established_with, on_vault_get, process_put,
  check_and_store, store, answer_update, answer_get, send_data,
}
use pus_proj.Server.Handler.Loop.{active_mac_key, watch, idle, dispatch, on_user, round}
use pus_proj.Joint.Rounds.{framed, IsSendable-outgoing, round_lem, send_next_lem}

-- The connection serves a user under an HMAC key, and collects no VAULT_PUT.
pub record IsServing (uid : ℕ) (key : Bytes) (x : Conn) : Type 0 where
  pub phase : x.session.phase ≡ established
  pub user : x.session.authenticated_user_id ≡ some uid
  pub mac_key : x.session.session_mac_key ≡ some key
  pub buffer : x.session.fragmented_put_buffer ≡ none

-- A row that the user may replace when naming this version: their own at that version, or none at 0.
abbrev pub IsCurrent : ℕ → ℕ → Option VaultRow → Type 0
IsCurrent uid base none = base ≡ 0
IsCurrent uid base (some row) = (row.user_id ≡ some uid) × (row.version ≡ some base)

module _ (c : Crypto) (env : Env) (uid : ℕ) (key : Bytes) where
  module _ (hmac_length : (k m : Bytes) → length (c.hmac k m) ≡ hmac_len) where
    -- A round on a whole frame is the request of its type.
    pub request_round :
        (x : Conn) (f : Frame) (more : Bytes) {raw : Bytes}
        → IsServing uid key x
        → env.arrival ≡ in_time
        → x.incoming ≡ raw ++ more
        → encode c.hmac f key ≡ ok raw
        → round c env x
          ≡ on_request c env uid key f.msg_type
              (record f { hmac = c.hmac key (signed_part f) })
              (record x { incoming = more })
    unfolding active_mac_key watch dispatch on_user on_established on_established_with ◌>>=◌
    request_round x f more s t i e =
        let g = record f { hmac = c.hmac key (signed_part f) } in
        let read = record x { incoming = more } in
        let k : active_mac_key x.session ≡ ok key = rw (s.phase, s.mac_key) refl in
        let calm : watch x.session (env.monotonic_ms 0) ≡ idle = rw (s.phase, s.buffer) refl in
        round_lem c hmac_length env x key f more k calm t i e
        ∙ ap (λ z. dispatch c env z x.session.authenticated_user_id key g read) s.phase
        ∙ ap (λ z. dispatch c env established z key g read) s.user
        ∙ ap (λ z. on_established_with c env uid key z g read) s.buffer

  -- The connection behind a VAULT_ACK.
  abbrev pub acknowledged : Bytes → Db → Conn → Conn
  acknowledged ack d x = record x {
    session = record x.session { outbound_seq = x.session.outbound_seq + 1 };
    db = d;
    written =
        x.written
        ++ (framed c (outgoing MsgType.vault_ack ack x.session.outbound_seq no_flags) key ∷ []);
  }

  module _ (put : VaultPut) (d1 : Db) {ack : Bytes}
      (built : build_vault_ack put.vault_id (put.base_version + 1) ≡ ok ack)
      (small : length ack ≤ max_payload_len) where
    store_lem :
        (x : Conn)
        → update_vault put.vault_id uid
            (put.base_version + 1)
            put.blob
            (env.now_ms 0)
            (env.others 1 x.db)
          ≡ (ok true, d1)
        → x.session.outbound_seq < 2 ^ 32
        → store c env uid key put put.base_version x ≡ (ok again, acknowledged ack d1 x)
    unfolding store answer_update ◌>>=◌
    store_lem x stored fits =
        let same : (put.base_version == put.base_version) ≡ true = ground arith in
        let sent = send_next_lem c MsgType.vault_ack ack key (record x { db = d1 }) small fits in
        rw (same, stored, built, sent) refl

    check_and_store_lem :
        (row : Option VaultRow) (x : Conn)
        → IsCurrent uid put.base_version row
        → update_vault put.vault_id uid
            (put.base_version + 1)
            put.blob
            (env.now_ms 0)
            (env.others 1 x.db)
          ≡ (ok true, d1)
        → x.session.outbound_seq < 2 ^ 32
        → check_and_store c env uid key put row x ≡ (ok again, acknowledged ack d1 x)
    unfolding check_and_store is_foreign
    check_and_store_lem none x current stored fits =
        ap (λ v. store c env uid key put v x) (sym current) ∙ store_lem x stored fits
    check_and_store_lem (some row) x (owned, version) stored fits =
        let mine : (uid == uid) ≡ true = ground arith in
        rw (owned, mine, version) (store_lem x stored fits)

    pub process_put_lem :
        (payload : Bytes) (x : Conn)
        → parse_vault_put payload ≡ ok put
        → IsCurrent uid put.base_version (get_vault put.vault_id (env.others 0 x.db))
        → update_vault put.vault_id uid
            (put.base_version + 1)
            put.blob
            (env.now_ms 0)
            (env.others 1 (env.others 0 x.db))
          ≡ (ok true, d1)
        → x.session.outbound_seq < 2 ^ 32
        → process_put c env uid key payload x ≡ (ok again, acknowledged ack d1 x)
    unfolding process_put ◌>>=◌
    process_put_lem payload x p current stored fits = rw p (
        check_and_store_lem (get_vault put.vault_id (env.others 0 x.db))
          (record x { db = env.others 0 x.db }) current stored fits)

  -- What is written for a VAULT_DATA, in one frame or in pieces.
  pub send_data_lem :
      (payload : Bytes) (x : Conn)
      → 1 ≤ length payload
      → x.session.outbound_seq + length payload ≤ 2 ^ 32
      → (raws : List Bytes) × (n : ℕ) × (((raw : Bytes) × (raws ≡ raw ∷ [])
            × (encode c.hmac
                  (outgoing MsgType.vault_data payload x.session.outbound_seq no_flags)
                  key
                ≡ ok raw))
          ⊎ (Pieces c MsgType.vault_data key x.session.outbound_seq raws payload
              × (1 ≤ length payload)))
        × (send_data c env uid key payload x ≡ (
          ok tt,
          record x { session = record x.session { outbound_seq = n }; written = x.written ++ raws },
        ))
  unfolding send_data send_fragmented_payload send_frame write ◌>>=◌
  send_data_lem payload x some_bytes fits =
      elim (Bool-cases (leb (length payload) max_payload_len)) [
        | inl whole ↦
            let small : length payload ≤ max_payload_len = ground arith in
            let n = x.session.outbound_seq in
            let e =
              encode-eq-ok c.hmac (outgoing MsgType.vault_data payload n no_flags) key
                (IsSendable-outgoing MsgType.vault_data payload n small (omega arith)) in
            let raw = framed c (outgoing MsgType.vault_data payload n no_flags) key in
            (raw ∷ [], n + 1, inl (raw, refl, e), rw (whole, e) refl)
        | inr split ↦
            let long : max_payload_len < length payload = ground arith in
            let (raws, pieces, sent) =
              send_fragmented_payload-Pieces c MsgType.vault_data key payload x.session.outbound_seq
                x long fits in
            (raws, x.session.outbound_seq + length raws, inr (pieces, some_bytes), rw sent refl)
      ]

  pub on_vault_get_lem :
      (vault_id content blob : Bytes) (known version : ℕ) (row : VaultRow) (frame : Frame)
      (x y : Conn)
      → parse_vault_get frame.payload ≡ ok (vault_id, known)
      → get_vault vault_id (env.others 0 x.db) ≡ some row
      → row.user_id ≡ some uid
      → row.version ≡ some version
      → row.blob ≡ some blob
      → build_vault_data vault_id version blob ≡ ok content
      → send_data c env uid key content (record x { db = env.others 0 x.db }) ≡ (ok tt, y)
      → on_vault_get c env uid key frame x ≡ (ok again, y)
  unfolding on_vault_get answer_get is_foreign ◌>>=◌
  on_vault_get_lem vault_id content blob known version row frame x y p found owned at holds built
        sent =
      let mine : (uid == uid) ≡ true = ground arith in
      rw (p, found, owned, mine, at, holds, built, sent) refl
