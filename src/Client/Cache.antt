-- ===== src/Client/Cache.antt =====
-- save_cache and load_cache of client-py/secvault.py, over the bytes of the file, which is replaced whole.
pub mod RoundTrip
use pus_proj.Common.{ℕ, not, Option, none, some, [], ◌∷◌, length, if◌then◌else◌}
use pus_proj.Common.Results.{Result, ok, err, frame_error, value_error}
use pus_proj.Common.Results
use pus_proj.Bytes.{Bytes, bytes_eq}
use pus_proj.Text.{Text}
use pus_proj.Client.Writer
use pus_proj.Client.Reader.{ByteReader, Read, reader, pure, ◌>>=◌}
use pus_proj.Client.Reader

-- b"SVCACHE1"
abbrev pub cache_magic : Bytes
cache_magic = b'S' ∷ b'V' ∷ b'C' ∷ b'A' ∷ b'C' ∷ b'H' ∷ b'E' ∷ b'1' ∷ []

-- VAULT_ID_LEN
abbrev pub vault_id_len : ℕ
vault_id_len = 16

pub record Cached : Type 0 where
  pub login : Text
  pub vault_id : Bytes
  pub version : ℕ
  pub blob : Bytes

-- The bytes that are written; the file is opened only after that.
unfoldable pub save_cache : Cached → Result Bytes
save_cache c = Results.◌>>=◌ (Writer.raw cache_magic []) λ w.
    Results.◌>>=◌ (Writer.lpstr c.login w) λ v.
      Results.◌>>=◌ (Writer.raw c.vault_id v)
        λ u. Results.◌>>=◌ (Writer.u64 c.version u) (Writer.lpblob c.blob)

unfoldable pub read_cached : Read Cached
read_cached = do
  login ← Reader.lpstr
  vault_id ← Reader.raw vault_id_len
  version ← Reader.u64
  blob ← Reader.lpblob
  pure (record { login = login; vault_id = vault_id; version = version; blob = blob })

-- The body of the second `try`; a wrong magic is a None.
unfoldable pub read_cache : Read (Option Cached)
unfolding read_cached
read_cache = do
  m ← Reader.raw (length cache_magic)
  if not (bytes_eq m cache_magic) then pure none else (do c ← read_cached; pure (some c))

-- `except (FrameError, ValueError): return None`
abbrev pub or_none : Result (Option Cached × ByteReader) → Result (Option Cached)
or_none (ok (c, r)) = ok c
or_none (err frame_error) = ok none
or_none (err value_error) = ok none
or_none (err e) = err e

-- `none` is a file that cannot be read.
unfoldable pub load_cache : Option Bytes → Result (Option Cached)
unfolding read_cache
load_cache none = ok none
load_cache (some raw) = or_none (read_cache (reader raw))
