-- ===== src/Client/Cryptography.antt =====
-- client-py/svpcrypto.py over the libraries that it calls.
pub mod Selftest
use pus_proj.Common.{ℕ, Bool, Option, none, some, [], ◌∷◌}
use pus_proj.Common.Results.{Result, ok, err, crypto_error, ◌>>=◌}
use pus_proj.Bytes.{Bytes, bytes_eq}
use pus_proj.Text.{Text, encode_text}
use pus_proj.Client.Codes.{key_len, pbkdf2_iters}
use pus_proj.Client.Act.{ClientCrypto}

-- hashlib.sha256(data).digest(), hmac.new(key, data, sha256).digest(), hashlib.pbkdf2_hmac("sha256",
-- password, salt, iters, dklen), HKDF(SHA256, length, salt, info).derive(ikm) as `hkdf_derive length
-- salt info ikm`, and AESGCM(key).encrypt(iv, text, aad) and .decrypt, whose `none` is InvalidTag, for
-- keys of 32 bytes.
pub record Library : Type 0 where
  pub sha256_digest : Bytes → Bytes
  pub hmac_digest : Bytes → Bytes → Bytes
  pub pbkdf2_hmac : Bytes → Bytes → ℕ → ℕ → Bytes
  pub hkdf_derive : ℕ → Bytes → Bytes → Bytes → Bytes
  pub gcm_encrypt : Bytes → Bytes → Bytes → Option Bytes → Bytes
  pub gcm_decrypt : Bytes → Bytes → Bytes → Option Bytes → Option Bytes

-- `aad if aad else None`
unfoldable pub aad_or_none : Bytes → Option Bytes
aad_or_none [] = none
aad_or_none (b ∷ bs) = some (b ∷ bs)

unfoldable pub const_time_eq : Bytes → Bytes → Bool
unfolding bytes_eq
const_time_eq a b = bytes_eq a b

module _ (lib : Library) where
  unfoldable pub sha256 : Bytes → Bytes
  sha256 bytes = lib.sha256_digest bytes

  unfoldable pub hmac_sha256 : Bytes → Bytes → Bytes
  hmac_sha256 key bytes = lib.hmac_digest key bytes

  unfoldable pub pbkdf2_sha256 : Text → Bytes → ℕ → ℕ → Result Bytes
  pbkdf2_sha256 password salt iters dklen = do
    p ← encode_text password
    ok (lib.pbkdf2_hmac p salt iters dklen)

  unfoldable pub hkdf_sha256 : Bytes → Bytes → Bytes → ℕ → Bytes
  hkdf_sha256 ikm salt info length = lib.hkdf_derive length salt info ikm

  unfoldable pub aes256gcm_encrypt : Bytes → Bytes → Bytes → Bytes → Bytes
  unfolding aad_or_none
  aes256gcm_encrypt key iv plaintext aad = lib.gcm_encrypt key iv plaintext (aad_or_none aad)

  unfoldable pub aes256gcm_decrypt : Bytes → Bytes → Bytes → Bytes → Result Bytes
  unfolding aad_or_none
  aes256gcm_decrypt key iv ct_and_tag aad =
      elim (lib.gcm_decrypt key iv ct_and_tag (aad_or_none aad)) [
        | none ↦ err crypto_error
        | some plaintext ↦ ok plaintext
      ]

  -- What svpclient.py and vault.py use of the module. The password of derive_keys is encoded there
  -- already, as its UTF-8 is wanted for each of the two keys.
  unfoldable pub client_crypto : ClientCrypto
  unfolding sha256 hmac_sha256 hkdf_sha256 aes256gcm_encrypt aes256gcm_decrypt
  client_crypto = record {
    shared = record {
      hmac = hmac_sha256;
      hkdf = λ secret salt info. hkdf_sha256 secret salt info key_len;
    };
    sha256 = sha256;
    pbkdf2 = λ password salt. lib.pbkdf2_hmac password salt pbkdf2_iters key_len;
    seal = λ key iv plaintext. aes256gcm_encrypt key iv plaintext [];
    unseal = λ key iv ct_and_tag. aes256gcm_decrypt key iv ct_and_tag [];
  }
