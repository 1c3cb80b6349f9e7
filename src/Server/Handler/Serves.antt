-- ===== src/Server/Handler/Serves.antt =====
-- Invariants of the requests in the state ESTABLISHED of `handle_client`, from those of the single
-- actions.
use pus_proj.Common.{ℕ, ◌≡◌, refl, Bool, true, false, Option, none, some}
use pus_proj.Bytes.{Bytes}
use pus_proj.Server.Protocol.{MsgType, Frame}
use pus_proj.Server.Database.{VaultRow, update_vault}
use pus_proj.Server.Connection.{Session, Crypto, send_next, update, statement, interleave}
use pus_proj.Server.Connection.Sound.{Inv, Sound, sound_rules}
use pus_proj.Server.Handler.Environment.{Env}
use pus_proj.Server.Handler.Requests.{
  send_error, send_data, on_ping, on_bye, answer_get, on_vault_get, answer_update, store,
  check_and_store, process_put, collect, open_buffer, on_vault_put, on_request, on_established,
  on_established_with,
}
use pus_proj.Server.Payloads.{VaultPut, err_not_found, err_conflict}

-- An assignment to the buffer of a fragmented VAULT_PUT and its time alone.
abbrev pub IsBuffering : (Session → Session) → Type 0
IsBuffering f =
    (s : Session)
    → f s ≡ record s {
      fragmented_put_buffer = (f s).fragmented_put_buffer;
      fragment_started_at = (f s).fragment_started_at;
    }

-- What an invariant has to show to be kept by a request.
pub record Serving (c : Crypto) (env : Env) (j : Inv) : Type 0 where
  pub send : (t : MsgType) (payload key : Bytes) → Sound j (send_next c t payload key)
  pub send_data : (uid : ℕ) (key payload : Bytes) → Sound j (send_data c env uid key payload)
  pub buffering : (f : Session → Session) → IsBuffering f → Sound j (update f)
  pub put :
      (vid : Bytes) (uid version : ℕ) (blob : Bytes) (ts : ℕ)
      → Sound j (statement (update_vault vid uid version blob ts))
  pub wait : (i : ℕ) → Sound j (interleave (env.others i))

same_rest : (s : Session) → s ≡ s
same_rest s = refl

module _ (c : Crypto) (env : Env) {j : Inv} (p : Serving c env j) (uid : ℕ) (key : Bytes) where
  send_error-Sound : (code : ℕ) → Sound j (send_error c env uid key code)
  unfolding send_error
  send_error-Sound code = search (sound_rules, p.send) depth 8

  answer_get-Sound :
      (vid : Bytes) (row : Option VaultRow) → Sound j (answer_get c env uid key vid row)
  unfolding answer_get
  answer_get-Sound vid none = send_error-Sound err_not_found
  answer_get-Sound vid (some row) = search (sound_rules, send_error-Sound, p.send_data) depth 10

  answer_update-Sound :
      (vid : Bytes) (v : ℕ) (b : Bool) → Sound j (answer_update c env uid key vid v b)
  unfolding answer_update
  answer_update-Sound vid v false = send_error-Sound err_conflict
  answer_update-Sound vid v true = search (sound_rules, p.send) depth 8

  store-Sound : (put : VaultPut) (v : ℕ) → Sound j (store c env uid key put v)
  unfolding store
  store-Sound put v =
      search (sound_rules, p.put, p.wait, send_error-Sound, answer_update-Sound) depth 10

  check_and_store-Sound :
      (put : VaultPut) (row : Option VaultRow) → Sound j (check_and_store c env uid key put row)
  unfolding check_and_store
  check_and_store-Sound put none = store-Sound put 0
  check_and_store-Sound put (some row) = search (sound_rules, send_error-Sound, store-Sound) depth 8

  process_put-Sound : (payload : Bytes) → Sound j (process_put c env uid key payload)
  unfolding process_put
  process_put-Sound payload = search (sound_rules, p.wait, check_and_store-Sound) depth 12

  collect-Sound :
      (buffer : Bytes) (is_last : Bool) (payload : Bytes)
      → Sound j (collect c env uid key buffer is_last payload)
  unfolding collect
  collect-Sound buffer is_last payload =
      search (sound_rules, p.buffering, same_rest, process_put-Sound) depth 12

  open_buffer-Sound : (buffer : Option Bytes) → Sound j (open_buffer c env uid key buffer)
  unfolding open_buffer
  open_buffer-Sound none = search (sound_rules, p.buffering, same_rest) depth 8
  open_buffer-Sound (some b) = search sound_rules

  on_vault_put-Sound : (frame : Frame) → Sound j (on_vault_put c env uid key frame)
  unfolding on_vault_put
  on_vault_put-Sound frame =
      search (sound_rules, open_buffer-Sound, collect-Sound, process_put-Sound) depth 12

  on_request-Sound : (t : MsgType) (frame : Frame) → Sound j (on_request c env uid key t frame)
  unfolding on_request
  on_request-Sound MsgType.ping frame = unfold on_ping in search (sound_rules, p.send) depth 10
  on_request-Sound MsgType.bye frame = unfold on_bye in search (sound_rules, p.send) depth 10
  on_request-Sound MsgType.vault_get frame =
      unfold on_vault_get in search (sound_rules, p.wait, answer_get-Sound) depth 12
  on_request-Sound MsgType.vault_put frame = on_vault_put-Sound frame
  on_request-Sound _ frame = search sound_rules

  on_established_with-Sound :
      (buffer : Option Bytes) (frame : Frame)
      → Sound j (on_established_with c env uid key buffer frame)
  unfolding on_established_with
  on_established_with-Sound none frame = on_request-Sound frame.msg_type frame
  on_established_with-Sound (some b) frame = search (sound_rules, on_request-Sound)

  pub on_established-Sound : (frame : Frame) → Sound j (on_established c env uid key frame)
  unfolding on_established
  on_established-Sound frame = search (sound_rules, on_established_with-Sound)
