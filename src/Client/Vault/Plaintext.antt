-- ===== src/Client/Vault/Plaintext.antt =====
-- serialize_plaintext and encrypt of client-py/vault.py.
use pus_proj.Common.{◌∷◌, [], ◌++◌, length}
use pus_proj.Common.Results.{Result, ok, ◌>>=◌}
use pus_proj.Bytes.{Bytes}
use pus_proj.Client.Writer.{Buffer}
use pus_proj.Client.Writer
use pus_proj.Client.Vault.{Entry, Vault}

-- b"SVVAULT1"
abbrev pub magic : Bytes
magic = b'S' ∷ b'V' ∷ b'V' ∷ b'A' ∷ b'U' ∷ b'L' ∷ b'T' ∷ b'1' ∷ []

-- The body of the loop.
unfoldable pub write_entry : Entry → Buffer → Result Buffer
write_entry e w = do
  w ← Writer.lpstr e.id w
  w ← Writer.lpstr e.service w
  w ← Writer.lpstr e.username w
  w ← Writer.lpstr e.password w
  w ← Writer.lpstr e.notes w
  Writer.u64 e.updated_at w

unfoldable pub write_entries : Vault → Buffer → Result Buffer
unfolding write_entry
write_entries [] w = ok w
write_entries (e ∷ entries) w = do w ← write_entry e w; write_entries entries w

unfoldable pub serialize_plaintext : Vault → Result Bytes
unfolding write_entries
serialize_plaintext entries = do
  w ← Writer.raw magic []
  w ← Writer.u32 (length entries) w
  write_entries entries w

-- encrypt, with crypto.aes256gcm_encrypt as a parameter and `iv` what random_bytes returned.
unfoldable pub encrypt : (Bytes → Bytes → Bytes → Bytes) → Bytes → Bytes → Vault → Result Bytes
unfolding serialize_plaintext
encrypt seal k_vault iv entries = do pt ← serialize_plaintext entries; ok (iv ++ seal k_vault iv pt)
