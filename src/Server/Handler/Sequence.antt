-- ===== src/Server/Handler/Sequence.antt =====
-- The numbering of the frames that `handle_client` sends.
use pus_proj.Common.{
  ℕ, zero, suc, ◌+◌, ◌≡◌, refl, subst, ◌∙◌, inl, inr, Bool, List, [], ◌∷◌, ◌++◌, length, All, arith,
  ltb, leb, Bool-cases, length-append,
}
use pus_proj.Common.Results.{Result, ok, err, Result-cases}
use pus_proj.Bytes.{Bytes}
use pus_proj.Server.Protocol.{MsgType, Frame, encode, max_payload_len, no_flags}
use pus_proj.Server.Database.{Db, create_session, update_vault}
use pus_proj.Server.Connection.{
  Session, opened, Conn, Crypto, send_next, send_frame, ◌>>=◌, outgoing, update, statement,
  interleave, continue,
}
use pus_proj.Server.Wire.{read_frame}
use pus_proj.Server.Handler.Keeps.{Primitives, run-left}
use pus_proj.Server.Connection.Sound.{Inv, After, Sound}
use pus_proj.Server.Handler.Environment.{Env}
use pus_proj.Server.Handler.Fragments.{chunk_at, flags_at, send_chunks, send_fragmented_payload}
use pus_proj.Server.Handler.Requests.{send_data}
use pus_proj.Server.Handler.Loop.{received, receive, abandon_read, handle_client}

module _ (c : Crypto) where
  -- A frame of version 1 with sequence number `n`, as `encode` writes it under some key.
  pub record IsNumbered (n : ℕ) (raw : Bytes) : Type 0 where
    pub frame : Frame
    pub key : Bytes
    pub encoded : encode c.hmac frame key ≡ ok raw
    pub seq_id : frame.seq_id ≡ n
    pub version : frame.version ≡ 1

  -- The frames carry the numbers n, n + 1, …
  abbrev pub Numbered : ℕ → List Bytes → Type 0
  Numbered n [] = Unit
  Numbered n (raw ∷ raws) = IsNumbered n raw × Numbered (n + 1) raws

  Numbered-append :
      (n : ℕ) (raws : List Bytes) (raw : Bytes)
      → Numbered n raws
      → IsNumbered (n + length raws) raw
      → Numbered n (raws ++ (raw ∷ []))
  Numbered-append n [] raw h k =
      let e : n + 0 ≡ n = omega arith in (subst (λ m. IsNumbered m raw) e k, tt)
  Numbered-append n (r ∷ raws) raw (h, hs) k =
      let e : n + suc (length raws) ≡ n + 1 + length raws = omega arith in
      (h, Numbered-append (n + 1) raws raw hs (subst (λ m. IsNumbered m raw) e k))

  -- The next number is that of the frames written.
  abbrev pub InStep : ℕ → Conn → Type 0
  InStep n x = Numbered 0 x.written × (n ≡ length x.written)

  numbering : Inv
  numbering = record {
    holds = λ x. InStep x.session.outbound_seq x;
    left = λ x. Numbered 0 x.written;
    weak = λ x h. h.0;
  }

  -- What a loop that sends leaves: the number that it returns is the next one.
  abbrev SentTo : Result ℕ × Conn → Type 0
  SentTo (ok n, y) = InStep n y
  SentTo (err e, y) = Numbered 0 y.written

  -- Sending with the next number, and going on.
  module _ (msg_type : MsgType) (payload key : Bytes) (flags : ℕ) where
    written_next :
        (n : ℕ) (x : Conn) {raw : Bytes}
        → InStep n x
        → encode c.hmac (outgoing msg_type payload n flags) key ≡ ok raw
        → InStep (n + 1) (record x { written = x.written ++ (raw ∷ []) })
    written_next n x {raw} (h, e) p = (
      Numbered-append 0 x.written raw h (record {
        frame = outgoing msg_type payload n flags;
        key = key;
        encoded = p;
        seq_id = e ∙ omega arith;
        version = refl;
      }),
      omega (arith, length-append x.written (raw ∷ [])),
    )

  send_next-Sound :
      (t : MsgType) (payload key : Bytes) → Sound numbering (send_next c t payload key)
  unfolding send_next ◌>>=◌ numbering
  send_next-Sound t payload key = record {
    at = λ x h.
        elim (Result-cases (encode c.hmac (outgoing t payload x.session.outbound_seq 0) key)) [
          | inl (raw, p) ↦ rw p (written_next t payload key 0 x.session.outbound_seq x h p)
          | inr (e, p) ↦ rw p h.0
        ];
  }

  send_chunks_lem :
      (t : MsgType) (payload key : Bytes) (fuel offset n : ℕ) (x : Conn)
      → InStep n x
      → SentTo (send_chunks c t payload key fuel offset n x)
  unfolding send_chunks send_frame ◌>>=◌
  send_chunks_lem t payload key zero offset n x h = h
  send_chunks_lem t payload key (suc fuel) offset n x h =
      let chunk = chunk_at c t payload key offset in
      let flags = flags_at c t payload key offset in
      elim (Bool-cases (ltb offset (length payload))) [
        | inl more ↦ rw more (elim (Result-cases (encode c.hmac (outgoing t chunk n flags) key)) [
          | inl (raw, p) ↦ rw p (
              send_chunks_lem t payload key fuel (offset + length chunk) (n + 1) _
                (written_next t chunk key flags n x h p))
          | inr (e, p) ↦ rw p h.0
        ])
        | inr done ↦ rw done h
      ]

  send_fragmented_lem :
      (t : MsgType) (payload key : Bytes) (n : ℕ) (x : Conn)
      → InStep n x
      → SentTo (send_fragmented_payload c t payload key n x)
  unfolding send_fragmented_payload send_frame ◌>>=◌
  send_fragmented_lem t payload key n x h =
      elim (Bool-cases (leb (length payload) max_payload_len)) [
        | inl whole ↦
            rw whole (elim (Result-cases (encode c.hmac (outgoing t payload n no_flags) key)) [
              | inl (raw, p) ↦ rw p (written_next t payload key no_flags n x h p)
              | inr (e, p) ↦ rw p h.0
            ])
        | inr split ↦ rw split (send_chunks_lem t payload key (length payload) 0 n x h)
      ]

  assign_next :
      (r : Result ℕ) (y : Conn)
      → SentTo (r, y)
      → After numbering (continue r (λ n. update (λ t. record t { outbound_seq = n })) y)
  unfolding update numbering
  assign_next (ok n) y h = h
  assign_next (err e) y h = h

  module _ (env : Env) (uid : ℕ) (key : Bytes) where
    send_data-Sound : (payload : Bytes) → Sound numbering (send_data c env uid key payload)
    unfolding send_data ◌>>=◌ numbering
    send_data-Sound payload = record {
      at = λ x h.
          assign_next
            (send_fragmented_payload c MsgType.vault_data payload key x.session.outbound_seq x).0
            (send_fragmented_payload c MsgType.vault_data payload key x.session.outbound_seq x).1
            (send_fragmented_lem MsgType.vault_data payload key x.session.outbound_seq x h);
    }

  update-Sound :
      (f : Session → Session)
      → ((s : Session) → (f s).outbound_seq ≡ s.outbound_seq)
      → Sound numbering (update f)
  unfolding update numbering
  update-Sound f keep = record { at = λ x h. (h.0, keep x.session ∙ h.1) }

  After-statement {ℓ} :
      {A : Type ℓ} (r : Result A) (x : Conn) (d : Db)
      → numbering.holds x
      → After numbering (r, record x { db = d })
  unfolding numbering
  After-statement (ok a) x d h = h
  After-statement (err e) x d h = h.0

  statement-Sound {ℓ} : {A : Type ℓ} (f : Db → Result A × Db) → Sound numbering (statement f)
  unfolding statement numbering
  statement-Sound f = record { at = λ x h. After-statement (f x.db).0 x (f x.db).1 h }

  interleave-Sound : (f : Db → Db) → Sound numbering (interleave f)
  unfolding interleave numbering
  interleave-Sound f = record { at = λ x h. h }

  module _ (env : Env) where
    received-Sound : (r : Result (Frame × Bytes)) → Sound numbering (received c env r)
    unfolding received numbering
    received-Sound (ok (frame, rest)) = record { at = λ x h. h }
    received-Sound (err e) = record { at = λ x h. h.0 }

    receive-Sound : (key : Bytes) → Sound numbering (receive c env key)
    unfolding receive
    receive-Sound key = record {
      at = λ x. (received-Sound (read_frame c.hmac x.incoming key)).at x;
    }

    abandon_read-Sound : (b : Bool) → Sound numbering (abandon_read c env b)
    unfolding abandon_read numbering
    abandon_read-Sound b = record { at = λ x h. h }

    numbering-Primitives : Primitives c env numbering
    numbering-Primitives = record {
      send = send_next-Sound;
      send_data = send_data-Sound env;
      assign = update-Sound;
      create = λ token uid expiry cid. statement-Sound (create_session token uid expiry cid);
      put = λ vid uid version blob ts. statement-Sound (update_vault vid uid version blob ts);
      wait = λ i. interleave-Sound (env.others i);
      receive = receive-Sound;
      abandon = abandon_read-Sound;
    }

  All-Primitives : (envs : List Env) → All (λ env. Primitives c env numbering) envs
  All-Primitives [] = tt
  All-Primitives (env ∷ envs) = (numbering-Primitives env, All-Primitives envs)

  -- Whatever the client sends, and however the connection ends, the frames that the server has
  -- written carry the sequence numbers 0, 1, 2, … in order, and version 1.
  pub written-Numbered :
      (envs : List Env) (db : Db) (incoming : Bytes)
      → Numbered 0 (handle_client c envs db incoming).1.written
  unfolding handle_client numbering
  written-Numbered envs db incoming =
      run-left c numbering envs (opened db incoming) (All-Primitives envs) (tt, refl)
