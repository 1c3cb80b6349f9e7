-- ===== src/Client/Reader.antt =====
-- ByteReader of client-py/framing.py, and the actions that read with it.
use pus_proj.Common.{ℕ, ◌+◌, ◌-◌, length, slice, ltb, if◌then◌else◌}
use pus_proj.Common.Results.{Result, ok, err, Error, frame_error}
use pus_proj.Bytes.{Bytes, of_le}
use pus_proj.Text.{Text, decode_text}

pub record ByteReader : Type 0 where
  pub buf : Bytes
  pub pos : ℕ

abbrev pub reader : Bytes → ByteReader
reader b = record { buf = b; pos = 0 }

abbrev pub Read {ℓ} : Type ℓ → Type ℓ
Read A = ByteReader → Result (A × ByteReader)

unfoldable pub pure {ℓ} : {A : Type ℓ} → A → Read A
pure a r = ok (a, r)

unfoldable pub lift {ℓ} : {A : Type ℓ} → Result A → Read A
lift (ok a) r = ok (a, r)
lift (err e) r = err e

abbrev pub follow {ℓ κ} :
    {A : Type ℓ} {B : Type κ} → Result (A × ByteReader) → (A → Read B) → Result (B × ByteReader)
follow (ok (a, r)) f = f a r
follow (err e) f = err e

infixl 5 ◌>>=◌ ◌>>◌
unfoldable pub ◌>>=◌ {ℓ κ} : {A : Type ℓ} {B : Type κ} → Read A → (A → Read B) → Read B
unfolding pure lift
◌>>=◌ m f r = follow (m r) f

abbrev pub ◌>>◌ {ℓ κ} : {A : Type ℓ} {B : Type κ} → Read A → Read B → Read B
m >> n = m >>= λ _. n

unfoldable pub raise {ℓ} : {A : Type ℓ} → Error → Read A
raise e r = err e

-- _need(n), the slice of the next n bytes, and the step over them.
unfoldable pub raw : ℕ → Read Bytes
raw n r =
    if ltb (length r.buf) (r.pos + n)
    then err frame_error
    else ok (slice r.pos (r.pos + n) r.buf, record r { pos = r.pos + n })

-- An unsigned little-endian field of n bytes.
unfoldable pub field : ℕ → Read ℕ
unfolding raw
field n = do b ← raw n; pure (of_le b)

abbrev pub u8 : Read ℕ
u8 = field 1

abbrev pub u16 : Read ℕ
u16 = field 2

abbrev pub u32 : Read ℕ
u32 = field 4

abbrev pub u64 : Read ℕ
u64 = field 8

unfoldable pub lpbytes : Read Bytes
unfolding raw field
lpbytes = do n ← u16; raw n

unfoldable pub lpstr : Read Text
unfolding raw field
lpstr = do n ← u16; b ← raw n; lift (decode_text b)

unfoldable pub lpblob : Read Bytes
unfolding raw field
lpblob = do n ← u32; raw n

unfoldable pub remaining : Read ℕ
remaining r = ok (length r.buf - r.pos, r)
