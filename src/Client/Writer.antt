-- ===== src/Client/Writer.antt =====
-- ByteWriter of client-py/framing.py: each method takes the buffer to the longer buffer, or to what
-- it raised.
use pus_proj.Common.{ℕ, ◌%◌, [], ◌∷◌, ◌++◌, length, ltb}
use pus_proj.Common.Results.{Result, ok, value_error, ◌>>=◌, ◌>>◌, raise_if}
use pus_proj.Bytes.{Bytes, pack}
use pus_proj.Text.{Text, encode_text}

abbrev pub Buffer : Type 0
Buffer = Bytes

-- `v & 0xFF` keeps the low byte.
unfoldable pub u8 : ℕ → Buffer → Result Buffer
u8 v w = ok (w ++ ((v % 256) ∷ []))

unfoldable pub u16 : ℕ → Buffer → Result Buffer
u16 v w = do b ← pack 2 v; ok (w ++ b)

unfoldable pub u32 : ℕ → Buffer → Result Buffer
u32 v w = do b ← pack 4 v; ok (w ++ b)

unfoldable pub u64 : ℕ → Buffer → Result Buffer
u64 v w = do b ← pack 8 v; ok (w ++ b)

unfoldable pub raw : Bytes → Buffer → Result Buffer
raw b w = ok (w ++ b)

unfoldable pub lpbytes : Bytes → Buffer → Result Buffer
unfolding u16 raw
lpbytes b w = do raise_if (ltb 0xFFFF (length b)) value_error; w ← u16 (length b) w; raw b w

-- lpstr of a str
unfoldable pub lpstr : Text → Buffer → Result Buffer
unfolding u16 raw
lpstr s w = do
  b ← encode_text s
  raise_if (ltb 0xFFFF (length b)) value_error
  w ← u16 (length b) w
  raw b w

unfoldable pub lpblob : Bytes → Buffer → Result Buffer
unfolding u32 raw
lpblob b w = do w ← u32 (length b) w; raw b w
