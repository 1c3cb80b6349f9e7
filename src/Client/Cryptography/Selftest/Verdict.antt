-- ===== src/Client/Cryptography/Selftest/Verdict.antt =====
-- When the self-test of client-py/secvault.py succeeds.
use pus_proj.Common.{
  ℕ, ◌+◌, ◌≡◌, ◌≢◌, ◌≤◌, ◌⊎◌, refl, ap, ◌∙◌, Bool, true, false, not, ◌&&◌, none, some, [], ◌∷◌,
  ◌++◌, length, replicate, ◌==◌, if◌then◌else◌, arith, inl, inr, Bool-cases,
}
use pus_proj.Common.Results.{ok}
use pus_proj.Bytes.{Bytes, bytes_eq, bytes_eq_refl, bytes_eq_iff}
use pus_proj.Text
use pus_proj.Text.{Text, codes, encode_text}
use pus_proj.Client.Vault.{text_eq, to_hex, add}
use pus_proj.Client.Vault.Plaintext.{encrypt, serialize_plaintext}
use pus_proj.Client.Vault.Parsing.{gcm_iv_len, gcm_tag_len}
use pus_proj.Client.Vault.RoundTrip.{decrypt-encrypt}
use pus_proj.Client.Cryptography.{
  Library, sha256, hmac_sha256, pbkdf2_sha256, hkdf_sha256, aes256gcm_encrypt, aes256gcm_decrypt,
  aad_or_none,
}
use pus_proj.Client.Cryptography.Selftest.{
  abc_digest, hi_there_mac, secret_text, tamper, is_detected, has_secret, count_fails, sample_vault,
  checks, selftest,
}

module _ (lib : Library) (k n : Bytes) where
  opened_lem :
      (ct : Bytes) {p : Bytes}
      → lib.gcm_decrypt k n ct none ≡ some p
      → aes256gcm_decrypt lib k n ct [] ≡ ok p
  unfolding aes256gcm_decrypt aad_or_none
  opened_lem ct e = rw (aes256gcm_decrypt, e) refl

  rejected_lem :
      (ct : Bytes)
      → lib.gcm_decrypt k n ct none ≡ none
      → is_detected (aes256gcm_decrypt lib k n ct []) ≡ ok true
  unfolding aes256gcm_decrypt aad_or_none is_detected
  rejected_lem ct e = rw (aes256gcm_decrypt, e) refl

secret_encoded : (bs : Bytes) × (encode_text secret_text ≡ ok bs)
unfolding encode_text Text.encode_char
secret_encoded = (_, refl)

pass_encoded : encode_text (codes "pass") ≡ ok (codes "pass")
unfolding encode_text Text.encode_char
pass_encoded = refl

has_secret_lem : (random : Bytes) (now : ℕ) → has_secret (sample_vault random now) ≡ true
unfolding has_secret sample_vault add bytes_eq
has_secret_lem random now = refl

tamper_lem : (ct : Bytes) → 1 ≤ length ct → (bad : Bytes) × (tamper ct ≡ ok bad)
unfolding tamper
tamper_lem [] h = absurd (omega arith)
tamper_lem (b ∷ bs) h = (_, refl)

differs : (a b : Bytes) → bytes_eq a b ≡ false → a ≢ b
differs a b apart e = let same = (bytes_eq_iff a b).1 e in cc

-- What the library is asked beyond the cipher: the two digests, and that HKDF tells two infos apart.
abbrev pub IsRight : Library → Bytes → Type 0
IsRight lib iv =
    let key = lib.pbkdf2_hmac (codes "pass") (lib.sha256_digest (codes "user")) 1000 32 in
    (to_hex (lib.sha256_digest (codes "abc")) ≡ abc_digest)
    × (to_hex (lib.hmac_digest (replicate 20 0x0B) (codes "Hi There")) ≡ hi_there_mac)
    × (lib.hkdf_derive 32 iv (codes "x") key ≢ lib.hkdf_derive 32 iv (codes "y") key)

abbrev status : Bool → ℕ
status b = if b then 0 else 1

-- The status of the eight checks, when five of them hold.
status_lem :
    (a b d : Bool)
    → status (count_fails (a ∷ b ∷ true ∷ true ∷ true ∷ true ∷ d ∷ true ∷ []) == 0)
      ≡ status (a && (b && d))
unfolding count_fails
status_lem true true true = refl
status_lem true true false = refl
status_lem true false true = refl
status_lem true false false = refl
status_lem false true true = refl
status_lem false true false = refl
status_lem false false true = refl
status_lem false false false = refl

module _ (lib : Library) (vk iv random vault_iv : Bytes) (now : ℕ) where
  -- What the eight checks come to with a cipher that works.
  checks_lem :
      {plain : Bytes}
      → ((n p : Bytes) → lib.gcm_decrypt vk n (lib.gcm_encrypt vk n p none) none ≡ some p)
      → ((n p : Bytes) → length (lib.gcm_encrypt vk n p none) ≡ length p + gcm_tag_len)
      → ((p bad : Bytes)
          → tamper (lib.gcm_encrypt vk iv p none) ≡ ok bad
          → lib.gcm_decrypt vk iv bad none ≡ none)
      → length vault_iv ≡ gcm_iv_len
      → serialize_plaintext (sample_vault random now) ≡ ok plain
      → let key = lib.pbkdf2_hmac (codes "pass") (lib.sha256_digest (codes "user")) 1000 32 in
        let hi = lib.hmac_digest (replicate 20 0x0B) (codes "Hi There") in
        let x = lib.hkdf_derive 32 iv (codes "x") key in
        let y = lib.hkdf_derive 32 iv (codes "y") key in
        checks lib vk iv random vault_iv now
        ≡ ok (
            text_eq (to_hex (lib.sha256_digest (codes "abc"))) abc_digest
            ∷ text_eq (to_hex hi) hi_there_mac
            ∷ true
            ∷ true
            ∷ true
            ∷ true
            ∷ not (bytes_eq x y)
            ∷ true
            ∷ [])
  unfolding checks sha256 hmac_sha256 hkdf_sha256 pbkdf2_sha256 aes256gcm_encrypt aad_or_none
  checks_lem {plain} opens tagged tampered size laid =
      let (pt, e) = secret_encoded in
      let ct = lib.gcm_encrypt vk iv pt none in
      let (bad, t) = tamper_lem ct (omega (arith, tagged iv pt)) in
      let key = lib.pbkdf2_hmac (codes "pass") (lib.sha256_digest (codes "user")) 1000 32 in
      let seal = λ (k n p : Bytes). aes256gcm_encrypt lib k n p [] in
      let unseal = λ (k n p : Bytes). aes256gcm_decrypt lib k n p [] in
      let sealed : encrypt seal vk vault_iv (sample_vault random now)
          ≡ ok (vault_iv ++ lib.gcm_encrypt vk vault_iv plain none) =
        unfold encrypt in rw laid refl in
      let opened =
        decrypt-encrypt seal unseal vk vault_iv
          (λ p. opened_lem lib vk vault_iv (lib.gcm_encrypt vk vault_iv p none) (opens vault_iv p))
          (tagged vault_iv) (sample_vault random now) size sealed in
      rw
        (
          e,
          opened_lem lib vk iv ct (opens iv pt),
          t,
          rejected_lem lib vk iv bad (tampered pt bad t),
          pass_encoded,
          sealed,
          opened,
          bytes_eq_refl pt,
          bytes_eq_refl key,
          bytes_eq_refl (lib.hkdf_derive 32 iv (codes "svp-mac") key),
          has_secret_lem random now,
        )
        refl

  -- With a cipher that works, the self-test returns 0 when the two known digests are right and HKDF
  -- gives the two infos different keys, and 1 when one of these three fails. A cipher works when
  -- what was encrypted under the key of the test is decrypted to itself, with a tag of 16 bytes more,
  -- and a ciphertext with its first byte changed is refused. The nonce of the vault has 12 bytes, and
  -- the entry of the sample vault can be serialized.
  pub selftest_lem :
      {plain : Bytes}
      → ((n p : Bytes) → lib.gcm_decrypt vk n (lib.gcm_encrypt vk n p none) none ≡ some p)
      → ((n p : Bytes) → length (lib.gcm_encrypt vk n p none) ≡ length p + gcm_tag_len)
      → ((p bad : Bytes)
          → tamper (lib.gcm_encrypt vk iv p none) ≡ ok bad
          → lib.gcm_decrypt vk iv bad none ≡ none)
      → length vault_iv ≡ gcm_iv_len
      → serialize_plaintext (sample_vault random now) ≡ ok plain
      → (IsRight lib iv × (selftest lib vk iv random vault_iv now ≡ ok 0))
        ⊎ ((¬ IsRight lib iv) × (selftest lib vk iv random vault_iv now ≡ ok 1))
  unfolding selftest count_fails
  selftest_lem opens tagged tampered size laid =
      let key = lib.pbkdf2_hmac (codes "pass") (lib.sha256_digest (codes "user")) 1000 32 in
      let abc = to_hex (lib.sha256_digest (codes "abc")) in
      let hi = to_hex (lib.hmac_digest (replicate 20 0x0B) (codes "Hi There")) in
      let x = lib.hkdf_derive 32 iv (codes "x") key in
      let y = lib.hkdf_derive 32 iv (codes "y") key in
      let run = checks_lem opens tagged tampered size laid in
      let end : selftest lib vk iv random vault_iv now
          ≡ ok
              (status (text_eq abc abc_digest && (text_eq hi hi_there_mac && not (bytes_eq x y)))) =
        rw (selftest, run)
          (ap ok
            (status_lem (text_eq abc abc_digest) (text_eq hi hi_there_mac) (not (bytes_eq x y)))) in
      elim (Bool-cases (text_eq abc abc_digest)) [
        | inr wrong ↦ inr (λ h. differs abc abc_digest wrong h.0, end ∙ rw wrong refl)
        | inl a ↦ elim (Bool-cases (text_eq hi hi_there_mac)) [
          | inr wrong ↦ inr (λ h. differs hi hi_there_mac wrong h.1, end ∙ rw (a, wrong) refl)
          | inl b ↦ elim (Bool-cases (bytes_eq x y)) [
            | inl same ↦ inr (λ h. h.2 ((bytes_eq_iff x y).0 same), end ∙ rw (a, b, same) refl)
            | inr other ↦ inl (
              (
                (bytes_eq_iff abc abc_digest).0 a,
                (bytes_eq_iff hi hi_there_mac).0 b,
                differs x y other,
              ),
              end ∙ rw (a, b, other) refl,
            )
          ]
        ]
      ]
