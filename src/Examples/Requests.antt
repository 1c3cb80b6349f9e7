-- ===== src/Examples/Requests.antt =====
-- The requests of an authenticated user.
use pus_proj.Common.{
  ℕ, ◌≡◌, refl, none, some, [], ◌∷◌, ◌++◌, List, length, replicate, length-replicate, arith, ◌+◌,
  inl, inr,
}
use pus_proj.Common.Results.{ok}
use pus_proj.Bytes.{Bytes, IsBytes, bytes_eq, to_le, of_le, pack}
use pus_proj.Bytes.Header.{pack_header}
use pus_proj.Server.Protocol.{MsgType, Frame, to_code, encode}
use pus_proj.Server.Database.{get_vault, fetch_one, update_vault, may_update, put_row}
use pus_proj.Server.Payloads.{
  VaultPut, parse_vault_put, parse_vault_get, parse_hello, parse_auth, build_vault_ack,
}
use pus_proj.Server.Payloads.VaultMessages.{put_payload, IsPut, parse_vault_put_inv}
use pus_proj.Server.Payloads.Refusals.{IsOrderly, parsers-IsOrderly}
use pus_proj.Server.Connection.{send_next, ◌>>=◌}
use pus_proj.Server.Handler.Environment.{again}
use pus_proj.Server.Handler.Requests.{
  process_put, check_and_store, store, answer_update, is_foreign, on_vault_get,
}
use pus_proj.Server.Handler.Updates.{Outcome, process_put-Outcome}
use pus_proj.Server.Handler.Reassembly.{feed, feed-process_put, joined, cleared}
use pus_proj.Server.Handler.Fragments.{send_fragmented_payload}
use pus_proj.Server.Handler.Chunks.{Pieces, send_fragmented_payload-Pieces}
use pus_proj.Server.Handler.Secrecy.{seen, on_vault_get-Hidden}
use pus_proj.Examples.Samples.{crypto, env, db, row, vault_id, token, challenged, frame_of}

abbrev put : VaultPut
put = record { vault_id = vault_id; base_version = 4; blob = 1 ∷ 2 ∷ 3 ∷ [] }

abbrev raw : Bytes
raw = vault_id ++ (4 ∷ 0 ∷ 0 ∷ 0 ∷ 0 ∷ 0 ∷ 0 ∷ 0 ∷ 3 ∷ 0 ∷ 0 ∷ 0 ∷ 1 ∷ 2 ∷ 3 ∷ [])

put_raw : put_payload put ≡ raw
unfolding put_payload to_le
put_raw = refl

raw-IsBytes : IsBytes raw
raw-IsBytes = omega arith

raw_read : parse_vault_put raw ≡ ok put
unfolding parse_vault_put of_le
raw_read = refl

parse_vault_put_inv_example : IsPut put × (raw ≡ put_payload put)
parse_vault_put_inv_example = parse_vault_put_inv raw raw-IsBytes raw_read

put_goes_on : (process_put crypto env 1 token raw challenged).0 ≡ ok again
unfolding process_put check_and_store store answer_update is_foreign ◌>>=◌ parse_vault_put of_le
    get_vault fetch_one bytes_eq update_vault may_update put_row build_vault_ack pack to_le
    send_next encode pack_header to_code
put_goes_on = refl

process_put-Outcome_example :
    (p : VaultPut) × (parse_vault_put raw ≡ ok p)
    × Outcome crypto env 1 token challenged p (process_put crypto env 1 token raw challenged).1
process_put-Outcome_example = process_put-Outcome crypto env 1 token raw challenged put_goes_on

-- Two fragments, the second one marked as the last.
abbrev part : ℕ → Bytes → Frame
part flags payload = record (frame_of MsgType.vault_put payload) { flags = flags }

feed-process_put_example :
    feed crypto 1 token ((env, part 4 vault_id) ∷ []) env (part 12 (4 ∷ 0 ∷ [])) challenged
    ≡ process_put crypto env 1 token
        (joined ((env, part 4 vault_id) ∷ []) (4 ∷ 0 ∷ []))
        (cleared crypto 1 token challenged)
feed-process_put_example =
    feed-process_put crypto 1 token ((env, part 4 vault_id) ∷ []) env (part 12 (4 ∷ 0 ∷ []))
      challenged (record { more = refl; open_end = refl }, tt) (record { more = refl; end = refl })
      refl (unfold joined in omega arith)

abbrev get : Frame
get = frame_of MsgType.vault_get (vault_id ++ (0 ∷ 0 ∷ 0 ∷ 0 ∷ 0 ∷ 0 ∷ 0 ∷ 0 ∷ []))

get_read : parse_vault_get get.payload ≡ ok (vault_id, 0)
unfolding parse_vault_get of_le
get_read = refl

stored : get_vault vault_id db ≡ some row
unfolding get_vault fetch_one bytes_eq
stored = refl

missing : get_vault vault_id (record db { vaults = [] }) ≡ none
unfolding get_vault fetch_one
missing = refl

-- The user 2 asks for the vault of the user 1, or for one that is not stored.
on_vault_get-Hidden_example :
    seen
      (on_vault_get crypto env 2 token get (record challenged { db = record db { vaults = [] } }))
    ≡ seen (on_vault_get crypto env 2 token get challenged)
on_vault_get-Hidden_example =
    on_vault_get-Hidden crypto env 2 token get vault_id 0 challenged (record db { vaults = [] })
      get_read (inr (row, 1, stored, refl, λ e. omega (arith, e))) (inl missing)

-- One byte more than a frame takes.
unfoldable long : Bytes
long = replicate 1_048_577 0

length-long : length long ≡ 1_048_577
unfolding long
length-long = length-replicate {A = ℕ} 1_048_577 0

send_fragmented_payload-Pieces_example :
    (raws : List Bytes) × Pieces crypto MsgType.vault_data token 1 raws long
    × (send_fragmented_payload crypto MsgType.vault_data long token 1 challenged
        ≡ (ok (1 + length raws), record challenged { written = challenged.written ++ raws }))
send_fragmented_payload-Pieces_example =
    send_fragmented_payload-Pieces crypto MsgType.vault_data token long 1 challenged
      (omega (arith, length-long)) (omega (arith, length-long))

parsers-IsOrderly_example :
    IsOrderly (parse_hello 1000 raw)
    × IsOrderly (parse_auth raw)
    × IsOrderly (parse_vault_get raw)
    × IsOrderly (parse_vault_put raw)
parsers-IsOrderly_example = parsers-IsOrderly 1000 raw
