-- ===== src/Server/Handler/Steady.antt =====
-- What no request of an established connection changes (server-py/server.py): its state, its user and
-- its HMAC key.
use pus_proj.Common.{ℕ, zero, suc, ◌+◌, ◌≡◌, sym, subst, inl, inr, Option, length}
use pus_proj.Common.Results.{Result, ok, err, Result-cases}
use pus_proj.Bytes.{Bytes}
use pus_proj.Server.Protocol.{MsgType}
use pus_proj.Server.Database.{Db}
use pus_proj.Server.Connection.{
  established, Session, Crypto, send_next, send_frame, write, update, statement, interleave,
}
use pus_proj.Server.Connection.Sound.{Inv, Sound, Sound-if, Sound-bind, Sound-pure, sound_rules}
use pus_proj.Server.Handler.Environment.{Env}
use pus_proj.Server.Handler.Fragments.{chunk_at, flags_at, send_chunks, send_fragmented_payload}
use pus_proj.Server.Handler.Requests.{send_data}
use pus_proj.Server.Handler.Serves.{Serving, IsBuffering}

-- The user and the key of an established connection stay.
abbrev pub Steady : Option ℕ → Option Bytes → Session → Type 0
Steady user key s =
    (s.phase ≡ established) × (s.authenticated_user_id ≡ user) × (s.session_mac_key ≡ key)

module _ (c : Crypto) (user : Option ℕ) (mac_key : Option Bytes) where
  unfoldable pub steady : Inv
  steady = record { holds = λ x. Steady user mac_key x.session; left = λ x. Unit; weak = λ x h. tt }

  write-Sound : (r : Result Bytes) → Sound steady (write r)
  unfolding write steady
  write-Sound (ok raw) = record { at = λ x h. h }
  write-Sound (err e) = record { at = λ x h. tt }

  send_frame-Sound :
      (t : MsgType) (payload : Bytes) (n : ℕ) (key : Bytes) (flags : ℕ)
      → Sound steady (send_frame c t payload n key flags)
  unfolding send_frame
  send_frame-Sound t payload n key flags = write-Sound _

  counting-Sound : (f : Session → ℕ) → Sound steady (update (λ s. record s { outbound_seq = f s }))
  unfolding update steady
  counting-Sound f = record { at = λ x h. h }

  send_next-Sound : (t : MsgType) (payload key : Bytes) → Sound steady (send_next c t payload key)
  unfolding send_next
  send_next-Sound t payload key = search (sound_rules, send_frame-Sound, counting-Sound) depth 10

  send_chunks-Sound :
      (t : MsgType) (payload key : Bytes) (fuel offset n : ℕ)
      → Sound steady (send_chunks c t payload key fuel offset n)
  unfolding send_chunks
  send_chunks-Sound t payload key zero offset n = search sound_rules
  send_chunks-Sound t payload key (suc fuel) offset n =
      let rest =
        send_chunks-Sound t payload key fuel (offset + length (chunk_at c t payload key offset))
          (n + 1) in
      Sound-if _ _ _
        (Sound-bind _ _
          (send_frame-Sound t (chunk_at c t payload key offset) n key
            (flags_at c t payload key offset))
          (λ u. rest))
        (Sound-pure n)

  send_fragmented-Sound :
      (t : MsgType) (payload key : Bytes) (n : ℕ)
      → Sound steady (send_fragmented_payload c t payload key n)
  unfolding send_fragmented_payload
  send_fragmented-Sound t payload key n =
      search (sound_rules, send_frame-Sound, send_chunks-Sound) depth 10

  send_data-Sound :
      (env : Env) (uid : ℕ) (key payload : Bytes) → Sound steady (send_data c env uid key payload)
  unfolding send_data
  send_data-Sound env uid key payload =
      search (sound_rules, send_fragmented-Sound, counting-Sound) depth 10

  statement-Sound {ℓ} : {A : Type ℓ} (f : Db → Result A × Db) → Sound steady (statement f)
  unfolding statement steady
  statement-Sound f = record {
    at = λ x h. elim (Result-cases (f x.db).0) [ inl (a, p) ↦ rw p h | inr (e, p) ↦ rw p tt ];
  }

  buffering-Sound : (f : Session → Session) → IsBuffering f → Sound steady (update f)
  unfolding update steady
  buffering-Sound f same = record {
    at = λ x h. subst (Steady user mac_key) (sym (same x.session)) h;
  }

  pub steady-Serving : (env : Env) → Serving c env steady
  unfolding interleave steady
  steady-Serving env = record {
    send = send_next-Sound;
    send_data = send_data-Sound env;
    buffering = buffering-Sound;
    put = λ vid uid version blob ts. statement-Sound _;
    wait = λ i. record { at = λ x h. h };
  }
