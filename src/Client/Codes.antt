-- ===== src/Client/Codes.antt =====
-- The constants of client-py/protocol.py.
use pus_proj.Common.{ℕ, replicate}
use pus_proj.Bytes.{Bytes}

-- The message types.
abbrev pub msg_hello : ℕ
msg_hello = 0x01

abbrev pub msg_challenge : ℕ
msg_challenge = 0x02

abbrev pub msg_auth : ℕ
msg_auth = 0x03

abbrev pub msg_auth_ok : ℕ
msg_auth_ok = 0x04

abbrev pub msg_register : ℕ
msg_register = 0x06

abbrev pub msg_register_ok : ℕ
msg_register_ok = 0x07

abbrev pub msg_vault_get : ℕ
msg_vault_get = 0x10

abbrev pub msg_vault_put : ℕ
msg_vault_put = 0x11

abbrev pub msg_vault_data : ℕ
msg_vault_data = 0x13

abbrev pub msg_vault_ack : ℕ
msg_vault_ack = 0x14

abbrev pub msg_ping : ℕ
msg_ping = 0x20

abbrev pub msg_pong : ℕ
msg_pong = 0x21

abbrev pub msg_bye : ℕ
msg_bye = 0xF0

abbrev pub msg_error : ℕ
msg_error = 0xFF

-- The flags.
abbrev pub flag_none : ℕ
flag_none = 0x00

abbrev pub flag_fragmented : ℕ
flag_fragmented = 0x04

abbrev pub flag_last_frag : ℕ
flag_last_frag = 0x08

-- The error codes.
abbrev pub err_auth_failed : ℕ
err_auth_failed = 0x06

abbrev pub err_session_expired : ℕ
err_session_expired = 0x07

abbrev pub err_not_found : ℕ
err_not_found = 0x08

abbrev pub err_conflict : ℕ
err_conflict = 0x0A

abbrev pub err_internal : ℕ
err_internal = 0xFF

abbrev pub bye_normal : ℕ
bye_normal = 0x00

-- KEY_LEN, NONCE_LEN and DUMMY_MAC_KEY
abbrev pub key_len : ℕ
key_len = 32

abbrev pub nonce_len : ℕ
nonce_len = 32

abbrev pub dummy_mac_key : Bytes
dummy_mac_key = replicate 32 0

abbrev pub pbkdf2_iters : ℕ
pbkdf2_iters = 200_000

-- The constants that the client has but only its tables or its options look at.
abbrev pub svp_port : ℕ
svp_port = 7443

abbrev pub msg_auth_fail : ℕ
msg_auth_fail = 0x05

abbrev pub msg_vault_sync : ℕ
msg_vault_sync = 0x12

abbrev pub err_rate_limited : ℕ
err_rate_limited = 0x0C

abbrev pub err_clock_skew : ℕ
err_clock_skew = 0x0E

abbrev pub err_too_large : ℕ
err_too_large = 0x0B

abbrev pub err_forbidden : ℕ
err_forbidden = 0x09

abbrev pub err_unknown_type : ℕ
err_unknown_type = 0x05

abbrev pub err_bad_hmac : ℕ
err_bad_hmac = 0x03
