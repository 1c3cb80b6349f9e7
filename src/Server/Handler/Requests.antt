-- ===== src/Server/Handler/Requests.antt =====
-- The state ESTABLISHED of `handle_client` (server-py/server.py).
use pus_proj.Common.{
  ℕ, ◌+◌, Bool, true, false, not, ◌&&◌, Option, none, some, [], ◌∷◌, ◌++◌, length, ltb, ◌==◌,
  if◌then◌else◌,
}
use pus_proj.Common.Results.{format_error}
use pus_proj.Bytes.{Bytes, to_le, of_le}
use pus_proj.Server.Protocol.{MsgType, Frame, has_flag, fragmented, last_frag}
use pus_proj.Server.Database.{VaultRow, get_vault, update_vault}
use pus_proj.Server.Payloads.{
  VaultPut, parse_vault_get, parse_vault_put, build_error, build_vault_data, build_vault_ack,
  err_not_found, err_conflict, max_fragmented_vault_put_bytes,
}
use pus_proj.Server.Connection.{
  Session, Crypto, Io, ◌>>=◌, ◌>>◌, pure, raise, lift, session, update, query, statement,
  interleave, send_next,
}
use pus_proj.Server.Handler.Environment.{Env, Signal, again, leave}
use pus_proj.Server.Handler.Fragments.{send_fragmented_payload}
use pus_proj.Server.Handler.Login.{is_type, or_zero, or_empty}

-- `row_user_id is not None and int(row_user_id) != authenticated_user_id`
unfoldable pub is_foreign : ℕ → VaultRow → Bool
is_foreign uid row = elim row.user_id [ none ↦ false | some owner ↦ not (owner == uid) ]

-- fragmented_put_buffer = None; fragment_started_at = None
abbrev pub without_buffer : Session → Session
without_buffer s = record s { fragmented_put_buffer = none; fragment_started_at = none }

module _ (c : Crypto) (env : Env) (uid : ℕ) (mac_key : Bytes) where
  -- An ERROR frame with one code, and on with the loop.
  unfoldable pub send_error : ℕ → Io Signal
  send_error code = do
    payload ← lift (build_error code)
    send_next c MsgType.error payload mac_key
    pure again

  -- struct.unpack("<q") and struct.pack("<q") are inverse on eight bytes; as patterns they are
  -- those of the unsigned number.
  unfoldable pub on_ping : Frame → Io Signal
  on_ping frame = if not (length frame.payload == 8) then raise format_error else (do
    let ping_timestamp = of_le frame.payload
    send_next c MsgType.pong (to_le 8 ping_timestamp) mac_key
    pure again)

  unfoldable pub on_bye : Frame → Io Signal
  on_bye frame =
      if not (length frame.payload == 1)
      then raise format_error
      else (do send_next c MsgType.bye (0x00 ∷ []) mac_key; pure leave)

  -- Lines 569 to 577.
  unfoldable pub send_data : Bytes → Io (Unit {0})
  send_data payload = do
    s ← session
    next_seq ← send_fragmented_payload c MsgType.vault_data payload mac_key s.outbound_seq
    update (λ t. record t { outbound_seq = next_seq })

  -- Lines 543 to 578, for the row that the query found.
  unfoldable pub answer_get : Bytes → Option VaultRow → Io Signal
  unfolding send_error is_foreign send_data
  answer_get vault_id none = send_error err_not_found
  answer_get vault_id (some row) = if is_foreign uid row then send_error err_not_found else (do
    payload ← lift (build_vault_data vault_id (or_zero row.version) (or_empty row.blob))
    send_data payload
    pure again)

  unfoldable pub on_vault_get : Frame → Io Signal
  unfolding answer_get
  on_vault_get frame = do
    (vault_id, known_version) ← lift (parse_vault_get frame.payload)
    interleave (env.others 0)
    row ← query (get_vault vault_id)
    answer_get vault_id row

  -- Lines 638 to 666: the update, and the answer to its result.
  unfoldable pub answer_update : Bytes → ℕ → Bool → Io Signal
  unfolding send_error
  answer_update vault_id new_version false = send_error err_conflict
  answer_update vault_id new_version true = do
    payload ← lift (build_vault_ack vault_id new_version)
    send_next c MsgType.vault_ack payload mac_key
    pure again

  unfoldable pub store : VaultPut → ℕ → Io Signal
  unfolding answer_update
  store put current_version =
      if not (put.base_version == current_version) then send_error err_conflict else (do
        let new_version = current_version + 1
        interleave (env.others 1)
        updated ← statement (update_vault put.vault_id uid new_version put.blob (env.now_ms 0))
        answer_update put.vault_id new_version updated)

  -- Lines 612 to 666, for the row that the query found.
  unfoldable pub check_and_store : VaultPut → Option VaultRow → Io Signal
  unfolding store is_foreign
  check_and_store put none = store put 0
  check_and_store put (some row) =
      if is_foreign uid row then send_error err_not_found else store put (or_zero row.version)

  -- Lines 609 to 666: a whole VAULT_PUT payload.
  unfoldable pub process_put : Bytes → Io Signal
  unfolding check_and_store
  process_put payload = do
    put ← lift (parse_vault_put payload)
    interleave (env.others 0)
    row ← query (get_vault put.vault_id)
    check_and_store put row

  -- Lines 588 to 605: `buffer` is what was collected before this frame, `is_last` its flag.
  unfoldable pub collect : Bytes → Bool → Bytes → Io Signal
  unfolding process_put
  collect buffer is_last payload =
      let extended = buffer ++ payload in
      if ltb max_fragmented_vault_put_bytes (length extended)
      then (do update without_buffer; raise format_error)
      else if is_last
      then (do update without_buffer; process_put extended)
      else (do update (λ s. record s { fragmented_put_buffer = some extended }); pure again)

  -- The buffer, made with the time of its first fragment.
  unfoldable pub open_buffer : Option Bytes → Io Bytes
  open_buffer (some buffer) = pure buffer
  open_buffer none = do
    update (λ s. record s {
      fragmented_put_buffer = some [];
      fragment_started_at = some (env.monotonic_ms 2);
    })
    pure []

  unfoldable pub on_vault_put : Frame → Io Signal
  unfolding collect open_buffer
  on_vault_put frame =
      let is_fragmented = has_flag frame.flags fragmented in
      let is_last = has_flag frame.flags last_frag in
      if is_last && not is_fragmented
      then raise format_error
      else if is_fragmented
      then (do
        s ← session
        buffer ← open_buffer s.fragmented_put_buffer
        collect buffer is_last frame.payload)
      else process_put frame.payload

  -- One branch for each message type; the other types are unsupported in this state.
  unfoldable pub on_request : MsgType → Frame → Io Signal
  unfolding on_ping on_bye on_vault_get on_vault_put
  on_request MsgType.ping frame = on_ping frame
  on_request MsgType.bye frame = on_bye frame
  on_request MsgType.vault_get frame = on_vault_get frame
  on_request MsgType.vault_put frame = on_vault_put frame
  on_request _ frame = raise format_error

  -- Lines 507 to 670; the buffer is what is collected when the frame comes.
  unfoldable pub on_established_with : Option Bytes → Frame → Io Signal
  unfolding on_request
  on_established_with none frame = on_request frame.msg_type frame
  on_established_with (some buffer) frame =
      if not (is_type frame.msg_type MsgType.vault_put)
      then raise format_error
      else on_request frame.msg_type frame

  unfoldable pub on_established : Frame → Io Signal
  unfolding on_established_with
  on_established frame = do s ← session; on_established_with s.fragmented_put_buffer frame
