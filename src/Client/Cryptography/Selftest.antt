-- ===== src/Client/Cryptography/Selftest.antt =====
-- selftest of client-py/secvault.py.
pub mod Verdict
use pus_proj.Common.{
  ℕ, suc, ◌+◌, ◌-◌, ◌%◌, ◌≡◌, ◌≢◌, ◌≤◌, ◌⊎◌, refl, ap, ◌∙◌, Bool, true, false, not, ◌&&◌, none,
  some, List, [], ◌∷◌, ◌++◌, length, replicate, ◌==◌, if◌then◌else◌, arith, inl, inr, Bool-cases,
}
use pus_proj.Common.Results.{Result, ok, err, crypto_error, index_error, ◌>>=◌}
use pus_proj.Bytes.{Bytes, bytes_eq, bytes_eq_refl, bytes_eq_iff}
use pus_proj.Text
use pus_proj.Text.{Text, codes, encode_text}
use pus_proj.Client.Vault.{Vault, text_eq, to_hex, add}
use pus_proj.Client.Vault.Plaintext.{encrypt, serialize_plaintext}
use pus_proj.Client.Vault.Parsing.{decrypt, gcm_iv_len, gcm_tag_len}
use pus_proj.Client.Vault.RoundTrip.{decrypt-encrypt}
use pus_proj.Client.Cryptography.{
  Library, sha256, hmac_sha256, pbkdf2_sha256, hkdf_sha256, aes256gcm_encrypt, aes256gcm_decrypt,
  aad_or_none,
}

-- The digests of the two known answers.
abbrev pub abc_digest : Text
abc_digest = codes "ba7816bf8f01cfea414140de5dae2223b00361a396177a9cb410ff61f20015ad"

abbrev pub hi_there_mac : Text
hi_there_mac = codes "b0344c61d8db38535ca8afceaf0bf12b881dc200c9833da726e9376c2e32cff7"

abbrev pub secret_text : Text
secret_text = codes "tajne hasło 123"

-- bad[0] ^= 0x01
unfoldable pub tamper : Bytes → Result Bytes
tamper [] = err index_error
tamper (b ∷ bs) = ok ((if b % 2 == 0 then b + 1 else b - 1) ∷ bs)

-- `except crypto.CryptoError`
unfoldable pub is_detected : Result Bytes → Result Bool
is_detected (ok plaintext) = ok false
is_detected (err crypto_error) = ok true
is_detected (err e) = err e

-- `len(v2) == 1 and v2.entries[0].password == "s3cr3t"`
unfoldable pub has_secret : Vault → Bool
has_secret (e ∷ []) = text_eq e.password (codes "s3cr3t")
has_secret _ = false

-- `fails`
unfoldable pub count_fails : List Bool → ℕ
count_fails [] = 0
count_fails (passed ∷ checks) = if passed then count_fails checks else suc (count_fails checks)

-- The vault of the last check.
unfoldable pub sample_vault : Bytes → ℕ → Vault
unfolding to_hex add
sample_vault random now =
    add random now (codes "github.com") (codes "alice") (codes "s3cr3t") (codes "konto firmowe") []

module _ (lib : Library) where
  -- The checks in order; `vk`, `iv`, `random` and `vault_iv` are what random_bytes returned.
  unfoldable pub checks : Bytes → Bytes → Bytes → Bytes → ℕ → Result (List Bool)
  unfolding sha256 hmac_sha256 pbkdf2_sha256 hkdf_sha256 aes256gcm_encrypt aes256gcm_decrypt tamper
      is_detected has_secret sample_vault to_hex encrypt decrypt
  checks vk iv random vault_iv now = do
    let abc = text_eq (to_hex (sha256 lib (codes "abc"))) abc_digest
    let hi = text_eq (to_hex (hmac_sha256 lib (replicate 20 0x0B) (codes "Hi There"))) hi_there_mac
    pt ← encode_text secret_text
    let ct = aes256gcm_encrypt lib vk iv pt []
    back ← aes256gcm_decrypt lib vk iv ct []
    bad ← tamper ct
    detected ← is_detected (aes256gcm_decrypt lib vk iv bad [])
    a ← pbkdf2_sha256 lib (codes "pass") (sha256 lib (codes "user")) 1000 32
    b ← pbkdf2_sha256 lib (codes "pass") (sha256 lib (codes "user")) 1000 32
    let same =
        bytes_eq (hkdf_sha256 lib a iv (codes "svp-mac") 32)
          (hkdf_sha256 lib a iv (codes "svp-mac") 32)
    let other =
        not (bytes_eq (hkdf_sha256 lib a iv (codes "x") 32) (hkdf_sha256 lib a iv (codes "y") 32))
    blob ← encrypt (λ k n p. aes256gcm_encrypt lib k n p []) vk vault_iv (sample_vault random now)
    v2 ← decrypt (λ k n p. aes256gcm_decrypt lib k n p []) blob vk
    ok (abc ∷ hi ∷ bytes_eq back pt ∷ detected ∷ bytes_eq a b ∷ same ∷ other ∷ has_secret v2 ∷ [])

  -- selftest
  unfoldable pub selftest : Bytes → Bytes → Bytes → Bytes → ℕ → Result ℕ
  unfolding checks count_fails
  selftest vk iv random vault_iv now = do
    results ← checks vk iv random vault_iv now
    ok (if count_fails results == 0 then 0 else 1)
