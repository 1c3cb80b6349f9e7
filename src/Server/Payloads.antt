-- ===== src/Server/Payloads.antt =====
-- The payload parsers and builders of server-py/server.py.
pub mod VaultMessages
pub mod Refusals
use pus_proj.Common.{
  ℕ, ◌+◌, ◌-◌, ◌*◌, not, ◌||◌, Option, none, some, ◌++◌, length, slice, get_elem?, ltb, ◌==◌,
  if◌then◌else◌,
}
use pus_proj.Common.Results.{
  Result, ok, err, format_error, index_error, value_error, ◌>>=◌, ◌>>◌, raise_if,
}
use pus_proj.Bytes.{Bytes, pack, of_le}
use pus_proj.Text.{Text, decode_text}

abbrev pub max_clock_skew_ms : ℕ
max_clock_skew_ms = 5 * 60 * 1000

abbrev pub session_ttl_ms : ℕ
session_ttl_ms = 24 * 60 * 60 * 1000

abbrev pub err_auth_failed : ℕ
err_auth_failed = 0x06

abbrev pub err_not_found : ℕ
err_not_found = 0x08

abbrev pub err_conflict : ℕ
err_conflict = 0x0A

-- HELLO_STRUCT.size, VAULT_GET_STRUCT.size and VAULT_PUT_HEADER_STRUCT.size
abbrev pub hello_size : ℕ
hello_size = 56

abbrev pub vault_get_size : ℕ
vault_get_size = 24

abbrev pub vault_put_header_size : ℕ
vault_put_header_size = 28

abbrev pub max_vault_blob_bytes : ℕ
max_vault_blob_bytes = 50 * 1024 * 1024

abbrev pub max_fragmented_vault_put_bytes : ℕ
max_fragmented_vault_put_bytes = max_vault_blob_bytes + vault_put_header_size

abbrev pub session_token_len : ℕ
session_token_len = 32

-- payload[i]
unfoldable pub index : Bytes → ℕ → Result ℕ
index payload i = elim (get_elem? payload i) [ none ↦ err index_error | some b ↦ ok b ]

-- abs(a - b)
abbrev pub distance : ℕ → ℕ → ℕ
distance a b = (a - b) + (b - a)

pub record Hello : Type 0 where
  pub nonce_c : Bytes
  pub client_id : Bytes
  pub timestamp_ms : ℕ

-- _parse_hello_payload; `now` is what _now_ms() returns.
unfoldable pub parse_hello : ℕ → Bytes → Result Hello
parse_hello now payload = do
  raise_if (not (length payload == hello_size)) format_error
  let timestamp_ms = of_le (slice 48 56 payload)
  raise_if (ltb max_clock_skew_ms (distance now timestamp_ms)) format_error
  ok (record {
    nonce_c = slice 0 32 payload;
    client_id = slice 32 48 payload;
    timestamp_ms = timestamp_ms;
  })

pub record Auth : Type 0 where
  pub username : Text
  pub hmac_resp : Bytes
  pub token_refresh : ℕ
  pub refresh_token : Option Bytes
  pub totp_present : ℕ
  pub totp_code : Option ℕ

-- `except UnicodeDecodeError`
abbrev pub text_or_format_error : Result Text → Result Text
text_or_format_error (ok t) = ok t
text_or_format_error (err value_error) = err format_error
text_or_format_error (err e) = err e

-- The part of _parse_auth_payload behind the token: line 221 to the end.
unfoldable pub parse_totp : Bytes → ℕ → Text → Bytes → ℕ → Option Bytes → Result Auth
unfolding index
parse_totp payload idx username hmac_resp token_refresh refresh_token =
    let parsed : ℕ → Option ℕ → Result Auth = λ present code. ok (record {
      username = username;
      hmac_resp = hmac_resp;
      token_refresh = token_refresh;
      refresh_token = refresh_token;
      totp_present = present;
      totp_code = code;
    }) in
    if idx == length payload then parsed 0 none else (do
      totp_present ← index payload idx
      let behind = idx + 1
      if totp_present == 0
          then (if behind == length payload then parsed 0 none else err format_error)
          else if totp_present == 1
          then (if length payload - behind == 4
              then parsed 1 (some (of_le (slice behind (behind + 4) payload)))
              else err format_error)
          else err format_error)

-- The token of a refresh, and where the parser goes on: line 207 to 219.
unfoldable pub parse_token : Bytes → ℕ → ℕ → Result (Option Bytes × ℕ)
parse_token payload token_refresh idx =
    if token_refresh == 0
    then ok (none, idx)
    else if token_refresh == 1
    then (if ltb (length payload - idx) session_token_len
        then err format_error
        else ok (some (slice idx (idx + session_token_len) payload), idx + session_token_len))
    else err format_error

-- _parse_auth_payload
unfoldable pub parse_auth : Bytes → Result Auth
unfolding index parse_totp parse_token
parse_auth payload = do
  raise_if (ltb (length payload) (1 + 32)) format_error
  username_len ← index payload 0
  let username_end = 1 + username_len
  let hmac_end = username_end + 32
  raise_if (username_len == 0 || ltb 64 username_len) format_error
  raise_if (ltb (length payload) hmac_end) format_error
  let hmac_resp = slice username_end hmac_end payload
  username ← text_or_format_error (decode_text (slice 1 username_end payload))
  if length payload == hmac_end
      then ok (record {
        username = username;
        hmac_resp = hmac_resp;
        token_refresh = 0;
        refresh_token = none;
        totp_present = 0;
        totp_code = none;
      })
      else (do
        token_refresh ← index payload hmac_end
        (refresh_token, idx) ← parse_token payload token_refresh (hmac_end + 1)
        parse_totp payload idx username hmac_resp token_refresh refresh_token)

-- _build_auth_ok_payload
unfoldable pub build_auth_ok : Bytes → ℕ → ℕ → Result Bytes
build_auth_ok session_token expiry_ms vault_version = do
  size ← pack 2 (length session_token)
  expiry ← pack 8 expiry_ms
  version ← pack 8 vault_version
  ok (size ++ (session_token ++ (expiry ++ version)))

-- _build_auth_fail_payload
unfoldable pub build_auth_fail : Result Bytes
build_auth_fail = do code ← pack 1 err_auth_failed; retry ← pack 4 0; ok (code ++ retry)

-- _build_error_payload
unfoldable pub build_error : ℕ → Result Bytes
build_error error_code = pack 1 error_code

-- _build_vault_data_payload
unfoldable pub build_vault_data : Bytes → ℕ → Bytes → Result Bytes
build_vault_data vault_id version blob = do v ← pack 8 version; ok (vault_id ++ (v ++ blob))

-- _build_vault_ack_payload
unfoldable pub build_vault_ack : Bytes → ℕ → Result Bytes
build_vault_ack vault_id new_version = do v ← pack 8 new_version; ok (vault_id ++ v)

-- _parse_vault_get_payload
unfoldable pub parse_vault_get : Bytes → Result (Bytes × ℕ)
parse_vault_get payload =
    if length payload == vault_get_size
    then ok (slice 0 16 payload, of_le (slice 16 24 payload))
    else err format_error

pub record VaultPut : Type 0 where
  pub vault_id : Bytes
  pub base_version : ℕ
  pub blob : Bytes

-- _parse_vault_put_payload
unfoldable pub parse_vault_put : Bytes → Result VaultPut
parse_vault_put payload = do
  raise_if (ltb (length payload) vault_put_header_size) format_error
  let blob_len = of_le (slice 24 28 payload)
  raise_if (ltb max_vault_blob_bytes blob_len) format_error
  let expected_len = vault_put_header_size + blob_len
  raise_if (not (length payload == expected_len)) format_error
  ok (record {
    vault_id = slice 0 16 payload;
    base_version = of_le (slice 16 24 payload);
    blob = slice vault_put_header_size expected_len payload;
  })
