-- ===== src/Common/Results.antt =====
-- Exceptions of the two programs as values. The texts of the exceptions are only logged or
-- printed, so a constructor carries what the code looks at: the class, and a protocol error's code.
use Prim.Native.Nat.{ℕ}
use mathlib.Core.Path.{◌≡◌, refl}
use mathlib.Core.Bool.{Bool, true, false}
use mathlib.Core.Logic.{◌⊎◌, inl, inr}

-- `format_error` is SVPFormatError, `hmac_error` SVPHmacError, `frame_error` FrameError,
-- `value_error` ValueError and its subclasses UnicodeEncodeError and UnicodeDecodeError,
-- `incomplete_read` asyncio.IncompleteReadError, `protocol_error` ProtocolError, `tls_error`
-- TlsError, `crypto_error` CryptoError, `overflow_error` and `integrity_error` what sqlite3 raises
-- for an integer beyond 64 bits and for a violated constraint, `attribute_error` AttributeError.
pub data Error : Type 0 where
  format_error hmac_error frame_error value_error struct_error index_error : Error
  incomplete_read tls_error crypto_error overflow_error integrity_error : Error
  attribute_error : Error
  protocol_error : ℕ → Error

pub data Result {ℓ} (A : Type ℓ) : Type ℓ where
  ok : A → Result A
  err : Error → Result A

infixl 5 ◌>>=◌ ◌>>◌
-- What follows is left out once an exception is raised.
abbrev pub ◌>>=◌ {ℓ ι} : {X : Type ℓ} {Y : Type ι} → Result X → (X → Result Y) → Result Y
err e >>= next = err e
ok x >>= next = next x

-- `if test: raise e`
abbrev pub raise_if : Bool → Error → Result (Unit {0})
raise_if true e = err e
raise_if false e = ok tt

abbrev pub ◌>>◌ {ι} : {Y : Type ι} → Result (Unit {0}) → Result Y → Result Y
test >> next = test >>= λ _. next

pub >>=-eq-ok {ℓ ι} :
    {X : Type ℓ} {Y : Type ι} (r : Result X) (next : X → Result Y) {y : Y}
    → (r >>= next) ≡ ok y
    → (x : X) × (r ≡ ok x) × (next x ≡ ok y)
>>=-eq-ok (ok x) next e = (x, refl, e)
>>=-eq-ok (err x) next e = cc

pub Result-cases {ℓ} :
    {A : Type ℓ} (r : Result A) → ((a : A) × (r ≡ ok a)) ⊎ ((e : Error) × (r ≡ err e))
Result-cases (ok a) = inl (a, refl)
Result-cases (err e) = inr (e, refl)
