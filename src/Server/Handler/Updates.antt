-- ===== src/Server/Handler/Updates.antt =====
-- What a VAULT_PUT of `handle_client` (server-py/server.py, lines 609 to 666) does and answers.
use pus_proj.Common.{
  ℕ, ◌+◌, ◌≡◌, refl, ap, sym, subst, ◌∙◌, ◌⊎◌, inl, inr, Bool, true, false, Option, none, some,
  List, [], ◌∷◌, ◌++◌, ◌==◌, Bool-cases, ==→eq,
}
use pus_proj.Common.Results.{Result, ok, err, Result-cases}
use pus_proj.Bytes.{Bytes}
use pus_proj.Server.Protocol.{MsgType, encode, no_flags}
use pus_proj.Server.Database.{Db, VaultRow, get_vault, update_vault}
use pus_proj.Server.Database.Laws.{IsOpen, update_vault-success, update_vault-failure}
use pus_proj.Server.Payloads.{
  VaultPut, parse_vault_put, build_error, build_vault_ack, err_not_found, err_conflict,
}
use pus_proj.Server.Connection.{Conn, Crypto, outgoing, send_next, continue, ◌>>=◌, pure}
use pus_proj.Server.Handler.Environment.{Env, Signal, again}
use pus_proj.Server.Handler.Login.{or_zero}
use pus_proj.Server.Handler.Requests.{
  is_foreign, send_error, answer_update, store, check_and_store, process_put,
}

-- One frame written behind those `before`, under the number `seq`, and the database `d` then.
pub record Sent (c : Crypto) (key : Bytes) (seq : ℕ) (before : List Bytes) (t : MsgType)
    (payload : Bytes) (d : Db) (y : Conn) : Type 0 where
  pub raw : Bytes
  pub encoded : encode c.hmac (outgoing t payload seq no_flags) key ≡ ok raw
  pub written : y.written ≡ before ++ (raw ∷ [])
  pub database : y.db ≡ d

-- An ERROR frame with a code.
pub record Refused (c : Crypto) (key : Bytes) (seq : ℕ) (before : List Bytes) (d : Db) (y : Conn)
    : Type 0 where
  pub code : ℕ
  pub known : (code ≡ err_not_found) ⊎ (code ≡ err_conflict)
  pub payload : Bytes
  pub built : build_error code ≡ ok payload
  pub sent : Sent c key seq before MsgType.error payload d y

-- A VAULT_ACK for the version behind the one that the client has named, the database `d` with the
-- new row, and the lock that was open in `d`.
pub record Stored (c : Crypto) (key : Bytes) (seq : ℕ) (before : List Bytes) (uid now : ℕ)
    (put : VaultPut) (d : Db) (y : Conn) : Type 0 where
  pub open_lock : IsOpen (get_vault put.vault_id d) uid (put.base_version + 1)
  pub ack : Bytes
  pub built : build_vault_ack put.vault_id (put.base_version + 1) ≡ ok ack
  pub sent :
      Sent c key seq before MsgType.vault_ack ack
        (update_vault put.vault_id uid (put.base_version + 1) put.blob now d).1
        y

module _ (c : Crypto) (env : Env) (uid : ℕ) (key : Bytes) where
  sent_lem :
      (t : MsgType) (payload : Bytes) (x : Conn)
      → ((send_next c t payload key >>= λ _. pure again) x).0 ≡ ok again
      → Sent c key x.session.outbound_seq x.written t payload x.db
          ((send_next c t payload key >>= λ _. pure again) x).1
  unfolding send_next ◌>>=◌
  sent_lem t payload x h =
      elim (Result-cases (encode c.hmac (outgoing t payload x.session.outbound_seq no_flags) key)) [
        | inl (raw, p) ↦ record {
          raw = raw;
          encoded = p;
          written = rw p refl;
          database = rw p refl;
        }
        | inr (e, p) ↦ cc (rw p at h)
      ]

  send_error_lem :
      (code : ℕ) (x : Conn)
      → ((code ≡ err_not_found) ⊎ (code ≡ err_conflict))
      → (send_error c env uid key code x).0 ≡ ok again
      → Refused c key x.session.outbound_seq x.written x.db (send_error c env uid key code x).1
  unfolding send_error ◌>>=◌
  send_error_lem code x known h = elim (Result-cases (build_error code)) [
    | inl (payload, p) ↦ record {
      code = code;
      known = known;
      payload = payload;
      built = p;
      sent = rw p (sent_lem MsgType.error payload x (rw p at h));
    }
    | inr (e, p) ↦ cc (rw p at h)
  ]

  -- How the put is answered once the database has answered.
  update_lem :
      (put : VaultPut) (x : Conn) (d : Db)
      → (r : Result Bool)
      → r ≡ (update_vault put.vault_id uid (put.base_version + 1) put.blob (env.now_ms 0) d).0
      → (res : Result Signal × Conn)
      → res
        ≡ continue r (answer_update c env uid key put.vault_id (put.base_version + 1)) (record x {
          db = (update_vault put.vault_id uid (put.base_version + 1) put.blob (env.now_ms 0) d).1;
        })
      → res.0 ≡ ok again
      → Refused c key x.session.outbound_seq x.written d res.1
        ⊎ Stored c key x.session.outbound_seq x.written uid (env.now_ms 0) put d res.1
  unfolding answer_update ◌>>=◌
  update_lem put x d (err e) q res p h = cc
  update_lem put x d (ok false) q res p h =
      let later =
        (update_vault put.vault_id uid (put.base_version + 1) put.blob (env.now_ms 0) d).1 in
      let same =
        update_vault-failure put.vault_id uid (put.base_version + 1) put.blob (env.now_ms 0) d
          (λ e. cc) in
      let error =
        send_error_lem err_conflict (record x { db = later }) (inr refl)
          (ap (λ (z : Result Signal × Conn). z.0) (sym p) ∙ h) in
      let sent =
        subst
          (λ (z : Result Signal × Conn). Refused c key x.session.outbound_seq x.written later z.1)
          (sym p) error in
      inl (subst (λ (d' : Db). Refused c key x.session.outbound_seq x.written d' res.1) same sent)
  update_lem put x d (ok true) q res p h =
      elim (Result-cases (build_vault_ack put.vault_id (put.base_version + 1))) [
        | inl (ack, b) ↦
            let e = rw b at p in
            inr (record {
              open_lock =
                  (update_vault-success put.vault_id uid (put.base_version + 1) put.blob
                    (env.now_ms 0) d (sym q)).0;
              ack = ack;
              built = b;
              sent = rw e (
                  sent_lem MsgType.vault_ack ack _
                    (ap (λ (z : Result Signal × Conn). z.0) (sym e) ∙ h));
            })
        | inr (e, b) ↦ cc (rw b at p, h)
      ]

  -- The put of a client that has named the stored version.
  store_lem :
      (put : VaultPut) (v : ℕ) (x : Conn)
      → (store c env uid key put v x).0 ≡ ok again
      → Refused c key x.session.outbound_seq x.written x.db (store c env uid key put v x).1
        ⊎ Refused c key x.session.outbound_seq x.written
            (env.others 1 x.db)
            (store c env uid key put v x).1
        ⊎ Stored c key x.session.outbound_seq x.written uid
            (env.now_ms 0)
            put
            (env.others 1 x.db)
            (store c env uid key put v x).1
  unfolding store ◌>>=◌
  store_lem put v x h = elim (Bool-cases (put.base_version == v)) [
    | inl same ↦
        let e = ==→eq put.base_version v same in
        inr (
          rw (same, ← e) (update_lem put x (env.others 1 x.db) _ refl _ refl (rw (same, ← e) at h)))
    | inr other ↦ inl (rw other (send_error_lem err_conflict x (inr refl) (rw other at h)))
  ]

  -- What the client and the database see of a put that goes on: nothing but an ERROR frame, or the
  -- row stored under an open lock, with a VAULT_ACK.
  abbrev pub Outcome : Conn → VaultPut → Conn → Type 0
  Outcome x put y =
      Refused c key x.session.outbound_seq x.written x.db y
      ⊎ Refused c key x.session.outbound_seq x.written (env.others 1 x.db) y
      ⊎ Stored c key x.session.outbound_seq x.written uid (env.now_ms 0) put (env.others 1 x.db) y

  check_lem :
      (put : VaultPut) (row : Option VaultRow) (x : Conn)
      → (check_and_store c env uid key put row x).0 ≡ ok again
      → Outcome x put (check_and_store c env uid key put row x).1
  unfolding check_and_store
  check_lem put none x h = store_lem put 0 x h
  check_lem put (some row) x h = elim (Bool-cases (is_foreign uid row)) [
    | inl foreign ↦ inl (rw foreign (send_error_lem err_not_found x (inl refl) (rw foreign at h)))
    | inr own ↦ rw own (store_lem put (or_zero row.version) x (rw own at h))
  ]

  -- A VAULT_PUT that the connection survives is answered by one frame, under the next sequence
  -- number: an ERROR(ERR_NOT_FOUND) or ERROR(ERR_CONFLICT), and the database is what the other
  -- connections have made of it; or a VAULT_ACK for the version behind the one that the client has
  -- named, and that version is stored, where the lock of the vault was open to the user.
  pub process_put-Outcome :
      (payload : Bytes) (x : Conn)
      → (process_put c env uid key payload x).0 ≡ ok again
      → (put : VaultPut) × (parse_vault_put payload ≡ ok put)
        × Outcome (record x { db = env.others 0 x.db }) put (process_put c env uid key payload x).1
  unfolding process_put ◌>>=◌
  process_put-Outcome payload x h = elim (Result-cases (parse_vault_put payload)) [
    | inl (put, p) ↦ (put, p, rw p (check_lem put _ _ (rw p at h)))
    | inr (e, p) ↦ cc (rw p at h)
  ]
