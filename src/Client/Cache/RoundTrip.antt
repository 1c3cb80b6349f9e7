-- ===== src/Client/Cache/RoundTrip.antt =====
-- The cache file is read back, and no file makes load_cache raise.
use pus_proj.Common.{◌≡◌, refl, sym, ◌∙◌, some, [], length, append-nil, arith}
use pus_proj.Common.Results.{Result, ok, err, Error, frame_error, value_error, Result-cases}
use pus_proj.Common.Results
use pus_proj.Bytes.{Bytes, bytes_eq_refl}
use pus_proj.Client.Writer
use pus_proj.Client.Reader.{ByteReader, Read, reader, pure, lift, raise, follow, ◌>>=◌}
use pus_proj.Client.Reader
use pus_proj.Client.Encodes.{
  Encodes, Encodes-bind, Encodes-last, Encodes-raw, Encodes-u64, Encodes-lpstr, Encodes-lpblob,
}
use pus_proj.Client.Cache.{
  Cached, cache_magic, vault_id_len, save_cache, read_cached, read_cache, load_cache,
}

module _ (c : Cached) (size : length c.vault_id ≡ vault_id_len) where
  Encodes-cached :
      Encodes read_cached
        (λ w. Results.◌>>=◌ (Writer.lpstr c.login w) λ v.
          Results.◌>>=◌
            (Writer.raw c.vault_id v)
            λ u. Results.◌>>=◌ (Writer.u64 c.version u) (Writer.lpblob c.blob))
        c
  unfolding read_cached
  Encodes-cached = Encodes-bind _ _ _ _ (Encodes-lpstr c.login) (
      Encodes-bind _ _ _ _ (Encodes-raw vault_id_len c.vault_id size)
        (Encodes-bind _ _ _ _ (Encodes-u64 c.version) (Encodes-last _ _ _ (Encodes-lpblob c.blob))))

  Encodes-cache :
      Encodes read_cache
        (λ w. Results.◌>>=◌ (Writer.raw cache_magic w) λ x.
          Results.◌>>=◌ (Writer.lpstr c.login x) λ v.
            Results.◌>>=◌
              (Writer.raw c.vault_id v)
              λ u. Results.◌>>=◌ (Writer.u64 c.version u) (Writer.lpblob c.blob))
        (some c)
  unfolding read_cache
  Encodes-cache =
      Encodes-bind (Reader.raw (length cache_magic)) _ (Writer.raw cache_magic) _
        (Encodes-raw (length cache_magic) cache_magic refl)
        (rw (bytes_eq_refl cache_magic) (Encodes-last _ _ _ Encodes-cached))

  -- A cache with a vault identifier of 16 bytes that can be saved is loaded again as it was.
  pub load_cache-save_cache :
      {file : Bytes} → save_cache c ≡ ok file → load_cache (some file) ≡ ok (some c)
  unfolding save_cache load_cache
  load_cache-save_cache {file} h =
      let (bs, e, reads) = Encodes-cache.invert [] h in
      let (r, run, rest) =
        reads.run (reader file) []
          (record { ahead = e ∙ sym (append-nil bs); within = omega arith }) in
      rw run refl
