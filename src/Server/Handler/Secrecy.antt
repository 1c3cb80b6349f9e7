-- ===== src/Server/Handler/Secrecy.antt =====
-- What a VAULT_GET of `handle_client` (server-py/server.py, lines 540 to 578) tells of a vault that
-- the user does not own.
use pus_proj.Common.{ℕ, ◌≡◌, ◌≢◌, refl, sym, ap, ◌∙◌, ◌⊎◌, inl, inr, true, none, some, List, arith}
use pus_proj.Common.Results.{Result, ok, Result-cases}
use pus_proj.Bytes.{Bytes}
use pus_proj.Server.Protocol.{MsgType, Frame, encode, no_flags}
use pus_proj.Server.Database.{Db, VaultRow, get_vault}
use pus_proj.Server.Payloads.{parse_vault_get, build_error, err_not_found}
use pus_proj.Server.Connection.{Session, Conn, Crypto, outgoing, send_next, ◌>>=◌}
use pus_proj.Server.Handler.Environment.{Env, Signal}
use pus_proj.Server.Handler.Requests.{is_foreign, send_error, answer_get, on_vault_get}

-- The vault is not stored, or belongs to another user.
abbrev pub Hidden : ℕ → Bytes → Db → Type 0
Hidden uid vid d =
    (get_vault vid d ≡ none)
    ⊎ ((row : VaultRow) × (owner : ℕ) × (get_vault vid d ≡ some row)
        × (row.user_id ≡ some owner)
        × (owner ≢ uid))

-- What the peer can see of a round, and what the connection remembers of it.
abbrev pub seen : Result Signal × Conn → Result Signal × (Session × List Bytes)
seen r = (r.0, (r.1.session, r.1.written))

module _ (c : Crypto) (env : Env) (uid : ℕ) (key : Bytes) where
  foreign_lem :
      (row : VaultRow) (owner : ℕ)
      → row.user_id ≡ some owner
      → owner ≢ uid
      → is_foreign uid row ≡ true
  unfolding is_foreign
  foreign_lem row owner p ne = ground arith

  error_lem :
      (code : ℕ) (x : Conn) (d : Db)
      → seen (send_error c env uid key code (record x { db = d }))
        ≡ seen (send_error c env uid key code x)
  unfolding send_error send_next ◌>>=◌
  error_lem code x d = elim (Result-cases (build_error code)) [
    | inl (payload, p) ↦
        elim (Result-cases
          (encode c.hmac (outgoing MsgType.error payload x.session.outbound_seq no_flags) key)) [
            | inl (raw, q) ↦ rw (p, q) refl
            | inr (e, q) ↦ rw (p, q) refl
          ]
    | inr (e, p) ↦ rw p refl
  ]

  hidden_lem :
      (frame : Frame) (vid : Bytes) (known : ℕ) (x : Conn)
      → parse_vault_get frame.payload ≡ ok (vid, known)
      → Hidden uid vid (env.others 0 x.db)
      → on_vault_get c env uid key frame x
        ≡ send_error c env uid key err_not_found (record x { db = env.others 0 x.db })
  unfolding on_vault_get answer_get ◌>>=◌
  hidden_lem frame vid known x p (inl missing) = rw (p, missing) refl
  hidden_lem frame vid known x p (inr (row, owner, there, owned, ne)) =
      rw (p, there, foreign_lem row owner owned ne) refl

  -- Over any two databases in which a vault is missing or belongs to another user, a VAULT_GET for it
  -- ends in the same way, writes the same bytes and leaves the same session.
  pub on_vault_get-Hidden :
      (frame : Frame) (vid : Bytes) (known : ℕ) (x : Conn) (d : Db)
      → parse_vault_get frame.payload ≡ ok (vid, known)
      → Hidden uid vid (env.others 0 x.db)
      → Hidden uid vid (env.others 0 d)
      → seen (on_vault_get c env uid key frame (record x { db = d }))
        ≡ seen (on_vault_get c env uid key frame x)
  on_vault_get-Hidden frame vid known x d p h k =
      ap seen (hidden_lem frame vid known (record x { db = d }) p k)
      ∙ error_lem err_not_found x (env.others 0 d)
      ∙ sym (error_lem err_not_found x (env.others 0 x.db))
      ∙ ap seen (sym (hidden_lem frame vid known x p h))
