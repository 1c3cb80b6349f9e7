-- ===== src/Client/Vault/Parsing.antt =====
-- deserialize_plaintext and decrypt of client-py/vault.py.
use pus_proj.Common.{ℕ, zero, suc, ◌+◌, not, [], ◌∷◌, ◌++◌, length, take, drop, ltb, if◌then◌else◌}
use pus_proj.Common.Results.{Result, ok, err, value_error}
use pus_proj.Common.Results
use pus_proj.Bytes.{Bytes, bytes_eq}
use pus_proj.Client.Reader.{Read, reader, pure, raise, ◌>>=◌}
use pus_proj.Client.Reader
use pus_proj.Client.Vault.{Entry, Vault}
use pus_proj.Client.Vault.Plaintext.{magic}

-- The body of the loop.
unfoldable pub read_entry : Read Entry
read_entry = do
  id ← Reader.lpstr
  service ← Reader.lpstr
  username ← Reader.lpstr
  password ← Reader.lpstr
  notes ← Reader.lpstr
  updated_at ← Reader.u64
  pure (record {
    id = id;
    service = service;
    username = username;
    password = password;
    notes = notes;
    updated_at = updated_at;
  })

-- n rounds of the loop, behind the entries that are read.
unfoldable pub read_entries : ℕ → Vault → Read Vault
unfolding read_entry
read_entries zero entries = pure entries
read_entries (suc n) entries = do e ← read_entry; read_entries n (entries ++ (e ∷ []))

unfoldable pub read_vault : Read Vault
unfolding read_entries
read_vault = do
  m ← Reader.raw (length magic)
  if not (bytes_eq m magic) then raise value_error else (do n ← Reader.u32; read_entries n [])

-- The result of a read that starts at the front.
abbrev pub read_all {ℓ} : {A : Type ℓ} → Result (A × Reader.ByteReader) → Result A
read_all (ok (a, r)) = ok a
read_all (err e) = err e

unfoldable pub deserialize_plaintext : Bytes → Result Vault
unfolding read_vault
deserialize_plaintext pt = read_all (read_vault (reader pt))

-- GCM_IV_LEN and GCM_TAG_LEN
abbrev pub gcm_iv_len : ℕ
gcm_iv_len = 12

abbrev pub gcm_tag_len : ℕ
gcm_tag_len = 16

-- decrypt, with crypto.aes256gcm_decrypt as a parameter.
unfoldable pub decrypt : (Bytes → Bytes → Bytes → Result Bytes) → Bytes → Bytes → Result Vault
unfolding deserialize_plaintext
decrypt unseal blob k_vault =
    if ltb (length blob) (gcm_iv_len + gcm_tag_len)
    then err value_error
    else Results.◌>>=◌ (unseal k_vault (take gcm_iv_len blob) (drop gcm_iv_len blob))
        deserialize_plaintext
