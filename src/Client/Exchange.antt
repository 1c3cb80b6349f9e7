-- ===== src/Client/Exchange.antt =====
-- Fetching and storing the vault: client-py/svpclient.py, lines 194 to 259.
pub mod Puts
pub mod Fetches
pub mod Ends
pub mod Acks
use pus_proj.Common.{
  ℕ, zero, suc, ◌+◌, true, not, Option, none, some, ◌++◌, length, slice, ltb, leb, ◌==◌, bit_or,
  if◌then◌else◌,
}
use pus_proj.Common.Results.{Error, tls_error, protocol_error}
use pus_proj.Bytes.{Bytes}
use pus_proj.Server.Protocol.{has_flag}
use pus_proj.Client.Framing.{ClientFrame, max_payload}
use pus_proj.Client.Reader.{Read}
use pus_proj.Client.Reader
use pus_proj.Client.Cache.{vault_id_len}
use pus_proj.Client.Codes.{
  msg_vault_get, msg_vault_put, msg_vault_data, msg_vault_ack, flag_none, flag_fragmented,
  flag_last_frag, err_not_found, err_internal,
}
use pus_proj.Client.Requests.{vault_get_payload, vault_put_payload}
use pus_proj.Client.Act.{ClientCrypto, Act, pure, raise, lift, self, assign, attempt, ◌>>=◌, ◌>>◌}
use pus_proj.Client.Session.{parse, send, recv, expect, bytes_ahead}

-- Reading a VAULT_DATA: the identifier is skipped.
unfoldable pub vault_data : Read (ℕ × Bytes)
vault_data = Reader.◌>>=◌ (Reader.raw vault_id_len) λ id. Reader.◌>>=◌ Reader.u64 λ version.
    Reader.◌>>=◌ Reader.remaining
      λ n. Reader.◌>>=◌ (Reader.raw n) λ blob. Reader.pure (version, blob)

-- Reading a VAULT_ACK.
unfoldable pub vault_ack : Read ℕ
vault_ack = Reader.◌>>=◌ (Reader.raw vault_id_len) λ id. Reader.u64

-- `except ProtocolError as e` around the first receive of fetch_vault.
unfoldable pub not_found : Error → Act (Option ClientFrame)
not_found (protocol_error code) =
    if code == err_not_found then pure none else raise (protocol_error code)
not_found e = raise e

-- A fragment behind the first one has its type and its flag.
unfoldable pub check_fragment : ClientFrame → Act (Unit {0})
check_fragment frag =
    if not (frag.type == msg_vault_data)
    then raise (protocol_error err_internal)
    else if not (has_flag frag.flags flag_fragmented)
    then raise (protocol_error err_internal)
    else pure tt

module _ (c : ClientCrypto) where
  -- The loop over the fragments, from the flags and the payload so far.
  unfoldable pub gather : ℕ → ℕ → Bytes → Act Bytes
  unfolding recv check_fragment
  gather zero flags payload = raise tls_error
  gather (suc fuel) flags payload = if has_flag flags flag_last_frag then pure payload else (do
    frag ← recv c true
    check_fragment frag
    gather fuel frag.flags (payload ++ frag.payload))

  unfoldable pub gather_all : ℕ → Bytes → Act Bytes
  unfolding gather
  gather_all flags payload x = gather (suc (bytes_ahead x)) flags payload x

  -- fetch_vault behind the first receive.
  unfoldable pub take_vault : Option ClientFrame → Act (Option Bytes)
  unfolding gather_all vault_data
  take_vault none = pure none
  take_vault (some data_frame) =
      if not (data_frame.type == msg_vault_data) then raise (protocol_error err_internal) else (do
        payload ←
            (if has_flag data_frame.flags flag_fragmented
              then gather_all data_frame.flags data_frame.payload
              else pure data_frame.payload)
        (version, blob) ← parse vault_data payload
        assign (λ cl. record cl { vault_version = version })
        pure (some blob))

  -- fetch_vault; `none` is the answer (False, b'').
  unfoldable pub fetch_vault : Act (Option Bytes)
  unfolding vault_get_payload send recv not_found take_vault
  fetch_vault = do
    cl ← self
    payload ← lift (vault_get_payload cl.vault_id cl.vault_version)
    send c msg_vault_get flag_none payload true
    first ← attempt (do f ← recv c true; pure (some f)) not_found
    take_vault first

  -- The loop over the fragments of a VAULT_PUT, from `offset`.
  unfoldable pub put_chunks : ℕ → ℕ → Bytes → Act (Unit {0})
  unfolding send
  put_chunks zero offset payload = pure tt
  put_chunks (suc fuel) offset payload =
      if ltb offset (length payload)
      then (do
        let chunk = slice offset (offset + max_payload) payload
        let flags =
            (if leb (length payload) (offset + length chunk)
              then bit_or flag_fragmented flag_last_frag
              else flag_fragmented)
        send c msg_vault_put flags chunk true
        put_chunks fuel (offset + length chunk) payload)
      else pure tt

  unfoldable pub send_put : Bytes → Act (Unit {0})
  unfolding put_chunks
  send_put payload =
      if leb (length payload) max_payload
      then send c msg_vault_put flag_none payload true
      else put_chunks (length payload) 0 payload

  -- put_vault
  unfoldable pub put_vault : Bytes → ℕ → Act ℕ
  unfolding vault_put_payload send_put expect vault_ack
  put_vault blob base_version = do
    cl ← self
    payload ← lift (vault_put_payload cl.vault_id base_version blob)
    send_put payload
    ack ← expect c msg_vault_ack true
    version ← parse vault_ack ack.payload
    assign (λ cl. record cl { vault_version = version })
    pure version
