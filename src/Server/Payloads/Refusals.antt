-- ===== src/Server/Payloads/Refusals.antt =====
-- How the payload parsers of server-py/server.py fail.
use pus_proj.Common.{
  ℕ, zero, suc, ◌+◌, ◌<◌, ◌≡◌, refl, ap, Bool-cases, inl, inr, ◌⊎◌, Option, some, [], ◌∷◌, length,
  slice, get_elem?, ltb, ◌==◌, ◌||◌, arith,
}
use pus_proj.Common.Results.{Result, ok, err, Error, format_error, Result-cases, ◌>>=◌}
use pus_proj.Bytes.{Bytes}
use pus_proj.Text.{Text, decode_text}
use pus_proj.Text.Failures.{decode_text_error}
use pus_proj.Server.Payloads.{
  index, parse_hello, parse_auth, parse_totp, parse_token, parse_vault_get, parse_vault_put,
  text_or_format_error,
}

get_elem?-lt : (i : ℕ) (xs : Bytes) → i < length xs → (x : ℕ) × (get_elem? xs i ≡ some x)
get_elem?-lt zero [] h = absurd (omega arith)
get_elem?-lt zero (x ∷ xs) h = (x, refl)
get_elem?-lt (suc i) [] h = absurd (omega arith)
get_elem?-lt (suc i) (x ∷ xs) h = get_elem?-lt i xs (omega arith)

index-lt : (payload : Bytes) (i : ℕ) → i < length payload → (b : ℕ) × (index payload i ≡ ok b)
unfolding index
index-lt payload i h = let (b, e) = get_elem?-lt i payload h in (b, ground arith)

parse_token_error :
    (payload : Bytes) (refresh idx : ℕ) {e : Error}
    → parse_token payload refresh idx ≡ err e
    → e ≡ format_error
unfolding parse_token
parse_token_error payload refresh idx h = ground arith

parse_token_idx :
    (payload : Bytes) (refresh idx : ℕ) {t : Option Bytes} {i : ℕ}
    → idx + 0 < length payload + 1
    → parse_token payload refresh idx ≡ ok (t, i)
    → i < length payload + 1
unfolding parse_token
parse_token_idx payload refresh idx within h = ground arith

parse_totp_error :
    (payload : Bytes) (idx : ℕ) (name : Text) (hmac : Bytes) (refresh : ℕ) (token : Option Bytes)
    {e : Error}
    → idx < length payload + 1
    → parse_totp payload idx name hmac refresh token ≡ err e
    → e ≡ format_error
unfolding parse_totp
parse_totp_error payload idx name hmac refresh token within h =
    elim (Bool-cases (idx == length payload)) [
      | inl done ↦ ground arith
      | inr more ↦ let (b, p) = index-lt payload idx (ground arith) in ground arith
    ]

username_error :
    (bs : Bytes) {e : Error} → text_or_format_error (decode_text bs) ≡ err e → e ≡ format_error
username_error bs {e} h = elim (Result-cases (decode_text bs)) [
  | inl (t, p) ↦ cc (rw p at h)
  | inr (x, p) ↦ let known = decode_text_error bs p in cc (rw (p, known) at h)
]

-- The part behind the user name.
behind_name :
    (payload : Bytes) (idx : ℕ) (name : Text) (hmac : Bytes) {e : Error}
    → idx < length payload
    → (do
      token_refresh ← index payload idx
      (refresh_token, next) ← parse_token payload token_refresh (idx + 1)
      parse_totp payload next name hmac token_refresh refresh_token)
      ≡ err e
    → e ≡ format_error
behind_name payload idx name hmac {e} within h =
    let (b, p) = index-lt payload idx within in
    let q = rw p at h in
    elim (Result-cases (parse_token payload b (idx + 1))) [
      | inr (x, r) ↦ let k = parse_token_error payload b (idx + 1) r in cc (rw r at q)
      | inl ((token, next), r) ↦
          parse_totp_error payload next name hmac b token
            (parse_token_idx payload b (idx + 1) (omega arith) r) (rw r at q)
    ]

parse_auth_error : (payload : Bytes) {e : Error} → parse_auth payload ≡ err e → e ≡ format_error
unfolding parse_auth
parse_auth_error payload {e} h = elim (Bool-cases (ltb (length payload) (1 + 32))) [
  | inl short ↦ cc (rw short at h)
  | inr long ↦
      let (n, p) = index-lt payload 0 (ground arith) in
      let rest = rw (long, p) at h in
      let end = 1 + n + 32 in
      elim (Bool-cases (n == 0 || ltb 64 n)) [
        | inl odd ↦ cc (rw odd at rest)
        | inr fine ↦ elim (Bool-cases (ltb (length payload) end)) [
          | inl cut ↦ cc (rw (fine, cut) at rest)
          | inr there ↦
              elim (Result-cases (text_or_format_error (decode_text (slice 1 (1 + n) payload)))) [
                | inr (x, q) ↦
                    let known = username_error (slice 1 (1 + n) payload) q in
                    cc (rw (fine, there, q, known) at rest)
                | inl (name, q) ↦ elim (Bool-cases (length payload == end)) [
                  | inl all ↦ cc (rw (fine, there, q, all) at rest)
                  | inr more ↦
                      behind_name payload end name (slice (1 + n) end payload) (ground arith)
                        (rw (fine, there, q, more) at rest)
                ]
              ]
        ]
      ]
]

-- A value, or an SVPFormatError.
abbrev pub IsOrderly {ℓ} : {A : Type ℓ} → Result A → Type ℓ
IsOrderly {A = A} r = ((a : A) × (r ≡ ok a)) ⊎ (r ≡ err format_error)

orderly {ℓ} :
    {A : Type ℓ} (r : Result A) → ((e : Error) → r ≡ err e → e ≡ format_error) → IsOrderly r
orderly (ok a) only = inl (a, refl)
orderly (err e) only = inr (ap err (only e refl))

-- Whatever bytes a client sends as the payload of a HELLO, an AUTH, a VAULT_GET or a VAULT_PUT, the
-- parser either reads it or raises an SVPFormatError, which closes the connection in order: it
-- raises no IndexError, struct.error or UnicodeDecodeError.
pub parsers-IsOrderly :
    (now : ℕ) (payload : Bytes)
    → IsOrderly (parse_hello now payload)
      × IsOrderly (parse_auth payload)
      × IsOrderly (parse_vault_get payload)
      × IsOrderly (parse_vault_put payload)
unfolding parse_hello parse_vault_get parse_vault_put
parsers-IsOrderly now payload = (
  orderly (parse_hello now payload) (λ e h. ground arith),
  orderly (parse_auth payload) (λ e h. parse_auth_error payload h),
  orderly (parse_vault_get payload) (λ e h. ground arith),
  orderly (parse_vault_put payload) (λ e h. ground arith),
)
