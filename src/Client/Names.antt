-- ===== src/Client/Names.antt =====
-- The tables of names in client-py/protocol.py, and the numbers that the server's enumeration of
-- server-py/protocol.py has for the same names.
use pus_proj.Common.{
  ℕ, ◌≡◌, refl, ◌⊎◌, inl, inr, none, List, [], ◌∷◌, ◌==◌, ==→eq, Bool-cases, if◌then◌else◌, arith,
}
use pus_proj.Text.{Text, codes}
use pus_proj.Server.Protocol.{MsgType, to_code, of_code}
use pus_proj.Client.Codes.{
  msg_hello, msg_challenge, msg_auth, msg_auth_ok, msg_auth_fail, msg_register, msg_register_ok,
  msg_vault_get, msg_vault_put, msg_vault_sync, msg_vault_data, msg_vault_ack, msg_ping, msg_pong,
  msg_bye, msg_error, err_auth_failed, err_rate_limited, err_clock_skew, err_conflict,
  err_not_found, err_too_large, err_session_expired, err_forbidden, err_unknown_type, err_bad_hmac,
  err_internal,
}

-- dict.get with a default.
unfoldable pub get_or : Text → ℕ → List (ℕ × Text) → Text
get_or default n [] = default
get_or default n ((k, name) ∷ names) = if k == n then name else get_or default n names

abbrev pub err_names : List (ℕ × Text)
err_names =
    (err_auth_failed, codes "ERR_AUTH_FAILED")
    ∷ (err_rate_limited, codes "ERR_RATE_LIMITED")
    ∷ (err_clock_skew, codes "ERR_CLOCK_SKEW")
    ∷ (err_conflict, codes "ERR_CONFLICT")
    ∷ (err_not_found, codes "ERR_NOT_FOUND")
    ∷ (err_too_large, codes "ERR_TOO_LARGE")
    ∷ (err_session_expired, codes "ERR_SESSION_EXPIRED")
    ∷ (err_forbidden, codes "ERR_FORBIDDEN")
    ∷ (err_unknown_type, codes "ERR_UNKNOWN_TYPE")
    ∷ (err_bad_hmac, codes "ERR_BAD_HMAC")
    ∷ (err_internal, codes "ERR_INTERNAL")
    ∷ []

abbrev pub msg_names : List (ℕ × Text)
msg_names =
    (msg_hello, codes "HELLO")
    ∷ (msg_challenge, codes "CHALLENGE")
    ∷ (msg_auth, codes "AUTH")
    ∷ (msg_auth_ok, codes "AUTH_OK")
    ∷ (msg_auth_fail, codes "AUTH_FAIL")
    ∷ (msg_register, codes "REGISTER")
    ∷ (msg_register_ok, codes "REGISTER_OK")
    ∷ (msg_vault_get, codes "VAULT_GET")
    ∷ (msg_vault_data, codes "VAULT_DATA")
    ∷ (msg_vault_put, codes "VAULT_PUT")
    ∷ (msg_vault_ack, codes "VAULT_ACK")
    ∷ (msg_vault_sync, codes "VAULT_SYNC")
    ∷ (msg_ping, codes "PING")
    ∷ (msg_pong, codes "PONG")
    ∷ (msg_bye, codes "BYE")
    ∷ (msg_error, codes "ERROR")
    ∷ []

unfoldable pub err_name : ℕ → Text
unfolding get_or
err_name code = get_or (codes "ERR_UNKNOWN") code err_names

unfoldable pub msg_name : ℕ → Text
unfolding get_or
msg_name t = get_or (codes "UNKNOWN") t msg_names

-- The names of the members of the server's MsgType.
unfoldable pub member_name : MsgType → Text
member_name MsgType.hello = codes "HELLO"
member_name MsgType.challenge = codes "CHALLENGE"
member_name MsgType.auth = codes "AUTH"
member_name MsgType.auth_ok = codes "AUTH_OK"
member_name MsgType.auth_fail = codes "AUTH_FAIL"
member_name MsgType.vault_get = codes "VAULT_GET"
member_name MsgType.vault_put = codes "VAULT_PUT"
member_name MsgType.vault_sync = codes "VAULT_SYNC"
member_name MsgType.vault_data = codes "VAULT_DATA"
member_name MsgType.vault_ack = codes "VAULT_ACK"
member_name MsgType.ping = codes "PING"
member_name MsgType.pong = codes "PONG"
member_name MsgType.bye = codes "BYE"
member_name MsgType.error = codes "ERROR"

-- Client and server have the same numbers for the same names: the client's table has for the number
-- of each of the server's message types that type's name.
pub msg_name-to_code : (t : MsgType) → msg_name (to_code t) ≡ member_name t
unfolding msg_name to_code member_name
msg_name-to_code MsgType.hello = refl
msg_name-to_code _ = refl

-- Of the numbers that the server knows no message for, the client names two alone, those of a
-- registration.
pub msg_name_unknown :
    (n : ℕ) → of_code n ≡ none → (msg_name n ≡ codes "UNKNOWN") ⊎ ((n ≡ 0x06) ⊎ (n ≡ 0x07))
unfolding of_code msg_name
msg_name_unknown n h = elim (Bool-cases (n == 0x06)) [
  | inl six ↦ inr (inl (==→eq n 0x06 six))
  | inr not_six ↦ elim (Bool-cases (n == 0x07)) [
    | inl seven ↦ inr (inr (==→eq n 0x07 seven))
    | inr not_seven ↦ inl (ground arith)
  ]
]
