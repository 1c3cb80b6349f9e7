-- ===== src/Server/Handler/Fragments.antt =====
-- _send_fragmented_payload of server-py/server.py.
use pus_proj.Common.{ℕ, zero, suc, ◌+◌, length, slice, leb, ltb, if◌then◌else◌, bit_or}
use pus_proj.Bytes.{Bytes}
use pus_proj.Server.Protocol.{MsgType, max_payload_len, no_flags, fragmented, last_frag}
use pus_proj.Server.Connection.{Crypto, Io, ◌>>◌, pure, send_frame}

module _ (c : Crypto) (msg_type : MsgType) (payload mac_key : Bytes) where
  -- chunk and flags of one round
  abbrev pub chunk_at : ℕ → Bytes
  chunk_at offset = slice offset (offset + max_payload_len) payload

  abbrev pub flags_at : ℕ → ℕ
  flags_at offset =
      if leb (length payload) (offset + length (chunk_at offset))
      then bit_or fragmented last_frag
      else fragmented

  -- `while offset < len(payload)`; each round takes a byte at least, so `length payload` rounds are
  -- enough. The result is next_seq.
  unfoldable pub send_chunks : ℕ → ℕ → ℕ → Io ℕ
  send_chunks zero offset next_seq = pure next_seq
  send_chunks (suc fuel) offset next_seq =
      let round = (do
        send_frame c msg_type (chunk_at offset) next_seq mac_key (flags_at offset)
        send_chunks fuel (offset + length (chunk_at offset)) (next_seq + 1)) in
      if ltb offset (length payload) then round else pure next_seq

  -- _send_fragmented_payload; the result is the next sequence number.
  unfoldable pub send_fragmented_payload : ℕ → Io ℕ
  unfolding send_chunks
  send_fragmented_payload seq_id =
      if leb (length payload) max_payload_len
      then (do send_frame c msg_type payload seq_id mac_key no_flags; pure (seq_id + 1))
      else send_chunks (length payload) 0 seq_id
