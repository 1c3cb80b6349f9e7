-- ===== src/Server/Handler/Reassembly.antt =====
-- The fragments of a VAULT_PUT in `handle_client` (server-py/server.py, lines 580 to 607).
use pus_proj.Common.{
  ℕ, ◌≤◌, Bool-cases, inl, inr, ◌≡◌, refl, ◌∙◌, true, false, none, some, List, [], ◌∷◌, ◌++◌,
  length, All, append_assoc, length-append, arith, ap,
}
use pus_proj.Common.Results.{ok}
use pus_proj.Bytes.{Bytes}
use pus_proj.Server.Protocol.{Frame, has_flag, fragmented, last_frag}
use pus_proj.Server.Payloads.{max_fragmented_vault_put_bytes}
use pus_proj.Server.Connection.{Conn, Crypto, Io, ◌>>=◌, ◌>>◌}
use pus_proj.Server.Handler.Environment.{Env, Signal, again}
use pus_proj.Server.Handler.Requests.{
  on_vault_put, open_buffer, collect, process_put, without_buffer,
}

-- A frame of a fragmented message that is not the last one, and the last one.
pub record IsPart (frame : Frame) : Type 0 where
  pub more : has_flag frame.flags fragmented ≡ true
  pub open_end : has_flag frame.flags last_frag ≡ false

pub record IsEnd (frame : Frame) : Type 0 where
  pub more : has_flag frame.flags fragmented ≡ true
  pub end : has_flag frame.flags last_frag ≡ true

unfoldable pub joined : List (Env × Frame) → Bytes → Bytes
joined [] rest = rest
joined ((env, frame) ∷ parts) rest = frame.payload ++ joined parts rest

module _ (c : Crypto) (uid : ℕ) (key : Bytes) where
  -- The handler on one frame after the other, each at its time.
  unfoldable pub feed : List (Env × Frame) → Env → Frame → Io Signal
  feed [] env frame = on_vault_put c env uid key frame
  feed ((env, frame) ∷ parts) last_env last = do
    on_vault_put c env uid key frame
    feed parts last_env last

  abbrev pub cleared : Conn → Conn
  cleared x = record x { session = without_buffer x.session }

  -- The session with a buffer in place.
  abbrev pub collected : Bytes → Conn → Conn
  collected b x = record x { session = record x.session { fragmented_put_buffer = some b } }

  end_lem :
      (b : Bytes) (env : Env) (frame : Frame) (x : Conn)
      → IsEnd frame
      → x.session.fragmented_put_buffer ≡ some b
      → length (b ++ frame.payload) ≤ max_fragmented_vault_put_bytes
      → on_vault_put c env uid key frame x
        ≡ process_put c env uid key (b ++ frame.payload) (cleared x)
  unfolding on_vault_put collect open_buffer ◌>>=◌
  end_lem b env frame x e p fits = rw (e.more, e.end, p) (ground arith)

  part_lem :
      (b : Bytes) (env : Env) (frame : Frame) (x : Conn)
      → IsPart frame
      → x.session.fragmented_put_buffer ≡ some b
      → length (b ++ frame.payload) ≤ max_fragmented_vault_put_bytes
      → on_vault_put c env uid key frame x ≡ (ok again, collected (b ++ frame.payload) x)
  unfolding on_vault_put collect open_buffer ◌>>=◌
  part_lem b env frame x e p fits = rw (e.more, e.open_end, p) (ground arith)

  feed_lem :
      (parts : List (Env × Frame)) (b : Bytes) (last_env : Env) (last : Frame) (x : Conn)
      → All (λ (p : Env × Frame). IsPart p.1) parts
      → IsEnd last
      → x.session.fragmented_put_buffer ≡ some b
      → length (b ++ joined parts last.payload) ≤ max_fragmented_vault_put_bytes
      → feed parts last_env last x
        ≡ process_put c last_env uid key (b ++ joined parts last.payload) (cleared x)
  unfolding feed joined ◌>>=◌
  feed_lem [] b last_env last x ps e p fits = end_lem b last_env last x e p fits
  feed_lem ((env, frame) ∷ parts) b last_env last x (q, ps) e p fits =
      let whole = append_assoc b frame.payload (joined parts last.payload) in
      let size = length-append (b ++ frame.payload) (joined parts last.payload) in
      let step = part_lem b env frame x q p (omega (arith, ap length whole, size)) in
      let rest =
        feed_lem parts (b ++ frame.payload) last_env last (collected (b ++ frame.payload) x) ps e
          refl (rw whole fits) in
      rw (step, ← whole) rest

  -- The first fragment opens an empty buffer.
  abbrev stamped : Env → Conn → Conn
  stamped env x = record x {
    session = record x.session {
      fragmented_put_buffer = some [];
      fragment_started_at = some (env.monotonic_ms 2);
    };
  }

  first_lem :
      (env : Env) (frame : Frame) (x : Conn)
      → has_flag frame.flags fragmented ≡ true
      → x.session.fragmented_put_buffer ≡ none
      → on_vault_put c env uid key frame x ≡ on_vault_put c env uid key frame (stamped env x)
  unfolding on_vault_put open_buffer ◌>>=◌
  first_lem env frame x more p = elim (Bool-cases (has_flag frame.flags last_frag)) [
    | inl q ↦ rw (more, q, p) refl
    | inr q ↦ rw (more, q, p) refl
  ]

  -- A VAULT_PUT that comes in fragments, all of them marked and only the last one as the last, is
  -- handled as the one message that their payloads make, when no buffer was open before and the
  -- whole is within the limit; the buffer is closed again.
  pub feed-process_put :
      (parts : List (Env × Frame)) (last_env : Env) (last : Frame) (x : Conn)
      → All (λ (p : Env × Frame). IsPart p.1) parts
      → IsEnd last
      → x.session.fragmented_put_buffer ≡ none
      → length (joined parts last.payload) ≤ max_fragmented_vault_put_bytes
      → feed parts last_env last x
        ≡ process_put c last_env uid key (joined parts last.payload) (cleared x)
  unfolding feed ◌>>=◌
  feed-process_put [] last_env last x ps e p fits =
      first_lem last_env last x e.more p
      ∙ feed_lem [] [] last_env last (stamped last_env x) ps e refl fits
  feed-process_put ((env, frame) ∷ parts) last_env last x (q, ps) e p fits =
      rw (first_lem env frame x q.more p)
        (feed_lem ((env, frame) ∷ parts) [] last_env last (stamped env x) (q, ps) e refl fits)
