-- ===== src/Server/Handler/Storage.antt =====
-- What connections do to the database, whatever their clients send.
use pus_proj.Common.{
  ℕ, ◌+◌, ◌≤◌, ◌≡◌, refl, subst, sym, ◌∙◌, inl, inr, Option, List, [], ◌∷◌, All, arith, Bool-cases,
  zero, suc, ltb, leb, length,
}
use pus_proj.Common.Results.{Result, ok, err}
use pus_proj.Bytes.{Bytes}
use pus_proj.Server.Protocol.{MsgType, Frame, max_payload_len, no_flags}
use pus_proj.Server.Wire.{read_frame}
use pus_proj.Server.Database.{Db, create_session, update_vault}
use pus_proj.Server.Database.History.{Shows, Write, put, new_session, lands, apply, quiet, landing}
use pus_proj.Server.Database.Integrity.{
  IsConsistent, create_session-IsConsistent, update_vault-IsConsistent,
}
use pus_proj.Server.Connection.{
  Conn, Crypto, opened, update, statement, interleave, send_next, send_frame, write, ◌>>=◌,
  continue,
}
use pus_proj.Server.Connection.Sound.{Inv, After}
use pus_proj.Server.Handler.Environment.{Env}
use pus_proj.Server.Handler.Keeps.{Primitives, run-left}
use pus_proj.Server.Handler.Requests.{send_data}
use pus_proj.Server.Handler.Fragments.{send_chunks, send_fragmented_payload, chunk_at, flags_at}
use pus_proj.Server.Handler.Loop.{received, receive, abandon_read, handle_client}

-- An invariant that looks at the database alone.
abbrev stored : (Db → Type 0) → Inv
stored P = record { holds = λ x. P x.db; left = λ x. P x.db; weak = λ x h. h }

After-stored {ℓ} :
    {A : Type ℓ} (P : Db → Type 0) (r : Result A) (y : Conn) → P y.db → After (stored P) (r, y)
After-stored P (ok a) y h = h
After-stored P (err e) y h = h

module _ (c : Crypto) where
  db-write : (r : Result Bytes) (x : Conn) → (write r x).1.db ≡ x.db
  unfolding write
  db-write (ok raw) x = refl
  db-write (err e) x = refl

  db-continue {ℓ κ} :
      {A : Type ℓ} {B : Type κ} (d : Db) (r : Result A) (f : A → Conn → Result B × Conn) (y : Conn)
      → y.db ≡ d
      → ((a : A) (z : Conn) → (f a z).1.db ≡ z.db)
      → (continue r f y).1.db ≡ d
  db-continue d (ok a) f y e k = k a y ∙ e
  db-continue d (err x) f y e k = e

  db-send_next :
      (t : MsgType) (payload key : Bytes) (x : Conn) → (send_next c t payload key x).1.db ≡ x.db
  unfolding send_next send_frame ◌>>=◌
  db-send_next t payload key x = db-continue x.db _ _ _ (db-write _ x) (λ a z. refl)

  db-send_frame :
      (t : MsgType) (payload key : Bytes) (n flags : ℕ) (x : Conn)
      → (send_frame c t payload n key flags x).1.db ≡ x.db
  unfolding send_frame
  db-send_frame t payload key n flags x = db-write _ x

  db-send_chunks :
      (t : MsgType) (payload key : Bytes) (fuel offset n : ℕ) (x : Conn)
      → (send_chunks c t payload key fuel offset n x).1.db ≡ x.db
  unfolding send_chunks ◌>>=◌
  db-send_chunks t payload key zero offset n x = refl
  db-send_chunks t payload key (suc fuel) offset n x =
      elim (Bool-cases (ltb offset (length payload))) [
        | inl more ↦ rw more (
            db-continue x.db _ _ _
              (db-send_frame t (chunk_at c t payload key offset) key n
                (flags_at c t payload key offset) x)
              (λ a z. db-send_chunks t payload key fuel _ _ z))
        | inr done ↦ rw done
      ]

  db-send_fragmented :
      (t : MsgType) (payload key : Bytes) (n : ℕ) (x : Conn)
      → (send_fragmented_payload c t payload key n x).1.db ≡ x.db
  unfolding send_fragmented_payload ◌>>=◌
  db-send_fragmented t payload key n x = elim (Bool-cases (leb (length payload) max_payload_len)) [
    | inl whole ↦
        rw whole (db-continue x.db _ _ _ (db-send_frame t payload key n no_flags x) (λ a z. refl))
    | inr split ↦ rw split (db-send_chunks t payload key (length payload) 0 n x)
  ]

  db-received :
      (env : Env) (r : Result (Frame × Bytes)) (x : Conn) → (received c env r x).1.db ≡ x.db
  unfolding received
  db-received env (ok (frame, rest)) x = refl
  db-received env (err e) x = refl

  module _ (env : Env) (P : Db → Type 0) where
    -- An invariant of the database is kept by a connection, once the two statements that a
    -- connection makes and the work of the others keep it.
    stored-Primitives :
        ((i : ℕ) (d : Db) → P d → P (env.others i d))
        → ((token : Bytes) (uid expiry : ℕ) (cid : Bytes) (d : Db)
            → P d
            → P (create_session token uid expiry cid d).1)
        → ((vid : Bytes) (uid version : ℕ) (blob : Bytes) (ts : ℕ) (d : Db)
            → P d
            → P (update_vault vid uid version blob ts d).1)
        → Primitives c env (stored P)
    unfolding update statement interleave receive received abandon_read send_data ◌>>=◌
    stored-Primitives others create update_row = record {
      send = λ t payload key. record {
        at = λ x h. After-stored P _ _ (subst P (sym (db-send_next t payload key x)) h);
      };
      send_data = λ uid key payload. record {
        at = λ x h. After-stored P _ _ (
            subst P
              (sym (
                db-continue x.db _ _ _
                  (db-send_fragmented MsgType.vault_data payload key x.session.outbound_seq x)
                  (λ a z. refl)))
              h);
      };
      assign = λ f keep. record { at = λ x h. h };
      create = λ token uid expiry cid. record {
        at = λ x h. After-stored P _ _ (create token uid expiry cid x.db h);
      };
      put = λ vid uid version blob ts. record {
        at = λ x h. After-stored P _ _ (update_row vid uid version blob ts x.db h);
      };
      wait = λ i. record { at = λ x h. others i x.db h };
      receive = λ key. record {
        at = λ x h.
            After-stored P _ _
              (subst P (sym (db-received env (read_frame c.hmac x.incoming key) x)) h);
      };
      abandon = λ b. record { at = λ x h. h };
    }

-- The work of other connections keeps a property of the database, in every round.
abbrev pub OthersKeep : (Db → Type 0) → List Env → Type 0
OthersKeep P = All (λ env. (i : ℕ) (d : Db) → P d → P (env.others i d))

-- The vault is there under its owner, at the version `v` or a later one.
pub record Grown (vid : Bytes) (owner : Option ℕ) (v : ℕ) (d : Db) : Type 0 where
  pub now : ℕ
  pub later : v ≤ now
  pub shown : Shows vid owner now d

Grown-apply :
    (vid : Bytes) (owner : Option ℕ) (v : ℕ) (w : Write) (d : Db)
    → Grown vid owner v d
    → Grown vid owner v (apply w d)
Grown-apply vid owner v w d g = elim (Bool-cases (lands vid w d)) [
  | inl t ↦
      let s = landing vid w g.shown t in
      record { now = g.now + 1; later = omega (arith, g.later); shown = s.1 }
  | inr f ↦
      let s = g.shown in
      record {
        now = g.now;
        later = g.later;
        shown = record {
          row = s.row;
          found = quiet vid w d f ∙ s.found;
          owned = s.owned;
          version = s.version;
        };
      }
]

module _ (c : Crypto) (P : Db → Type 0) where
  All-stored :
      ((token : Bytes) (uid expiry : ℕ) (cid : Bytes) (d : Db)
        → P d
        → P (create_session token uid expiry cid d).1)
      → ((vid : Bytes) (uid version : ℕ) (blob : Bytes) (ts : ℕ) (d : Db)
          → P d
          → P (update_vault vid uid version blob ts d).1)
      → (envs : List Env) → OthersKeep P envs
      → All (λ env. Primitives c env (stored P)) envs
  All-stored create put_row [] o = tt
  All-stored create put_row (env ∷ envs) (o, os) =
      (stored-Primitives c env P o create put_row, All-stored create put_row envs os)

-- A connection leaves a consistent database consistent, when the others do: every user id in vaults
-- and sessions is that of a user, no two vaults have one id, no two sessions one token, and no two
-- users one id or one name.
pub handle_client-IsConsistent :
    (c : Crypto) (envs : List Env) (db : Db) (incoming : Bytes)
    → OthersKeep IsConsistent envs
    → IsConsistent db
    → IsConsistent (handle_client c envs db incoming).1.db
unfolding handle_client
handle_client-IsConsistent c envs db incoming o h =
    run-left c (stored IsConsistent) envs (opened db incoming)
      (All-stored c IsConsistent
        (λ token uid expiry cid d. create_session-IsConsistent token uid expiry cid)
        (λ vid uid version blob ts d. update_vault-IsConsistent vid uid version blob ts) envs o)
      h

-- Whatever a client sends, in whatever state, its connection neither deletes a stored vault nor
-- changes its owner, and never lowers its version, when the other connections do not.
pub handle_client-Grown :
    (c : Crypto) (envs : List Env) (db : Db) (incoming vid : Bytes) (owner : Option ℕ) (v : ℕ)
    → OthersKeep (Grown vid owner v) envs
    → Shows vid owner v db
    → Grown vid owner v (handle_client c envs db incoming).1.db
unfolding handle_client apply
handle_client-Grown c envs db incoming vid owner v o s =
    run-left c (stored (Grown vid owner v)) envs (opened db incoming)
      (All-stored c (Grown vid owner v)
        (λ token uid expiry cid d. Grown-apply vid owner v (new_session token uid expiry cid) d)
        (λ id uid version blob ts d. Grown-apply vid owner v (put id uid version blob ts) d) envs o)
      (record { now = v; later = omega arith; shown = s })
