-- ===== src/Bytes.antt =====
-- Byte strings, and the little-endian fields of Python's struct module.
pub mod Fields
pub mod Header
use pus_proj.Common.{
  ℕ, zero, suc, ◌+◌, ◌*◌, ◌/◌, ◌%◌, ◌^◌, ◌<◌, ◌≡◌, refl, ap, Bool, true, false, ◌&&◌, List, [], ◌∷◌,
  ◌↔◌, subst, arith, length, All, ltb, ◌==◌, if◌then◌else◌,
}
use pus_proj.Common.Results.{Result, ok, err, struct_error}
use native.Mathlib.Nat.{pow-suc}

abbrev pub Bytes : Type 0
Bytes = List ℕ

abbrev pub IsByte : ℕ → Type 0
IsByte b = b < 256

abbrev pub IsBytes : Bytes → Type 0
IsBytes = All IsByte

-- The `w` low bytes of `v`, the lowest first.
unfoldable pub to_le : ℕ → ℕ → Bytes
to_le zero v = []
to_le (suc w) v = (v % 256) ∷ to_le w (v / 256)

unfoldable pub of_le : Bytes → ℕ
of_le [] = 0
of_le (b ∷ bs) = b + 256 * of_le bs

-- struct.pack of one unsigned field of `w` bytes: struct.error out of range.
unfoldable pub pack : ℕ → ℕ → Result Bytes
pack w v = if ltb v (256 ^ w) then ok (to_le w v) else err struct_error

-- `a == b` and hmac.compare_digest(a, b) on byte strings
unfoldable pub bytes_eq : Bytes → Bytes → Bool
bytes_eq [] [] = true
bytes_eq [] (y ∷ ys) = false
bytes_eq (x ∷ xs) [] = false
bytes_eq (x ∷ xs) (y ∷ ys) = x == y && bytes_eq xs ys

pub length-to_le : (w v : ℕ) → length (to_le w v) ≡ w
unfolding to_le
length-to_le zero v = refl
length-to_le (suc w) v = ap suc (length-to_le w (v / 256))

pub to_le-IsBytes : (w v : ℕ) → IsBytes (to_le w v)
unfolding to_le
to_le-IsBytes zero v = tt
to_le-IsBytes (suc w) v = (omega arith, to_le-IsBytes w (v / 256))

div_bound : (w v : ℕ) → v < 256 ^ suc w → v / 256 < 256 ^ w
div_bound w v h = omega (arith, pow-suc 256 w)

pub of_le-to_le : (w v : ℕ) → v < 256 ^ w → of_le (to_le w v) ≡ v
unfolding to_le of_le
of_le-to_le zero v h = omega arith
of_le-to_le (suc w) v h = omega (arith, of_le-to_le w (v / 256) (div_bound w v h))

pub to_le-of_le : (bs : Bytes) → IsBytes bs → to_le (length bs) (of_le bs) ≡ bs
unfolding to_le of_le
to_le-of_le [] h = refl
to_le-of_le (b ∷ bs) (h, hs) =
    let low : (b + 256 * of_le bs) % 256 ≡ b = omega arith in
    let high : (b + 256 * of_le bs) / 256 ≡ of_le bs = omega arith in
    rw (low, high, to_le-of_le bs hs)

-- The same for a width that is only provably the length.
pub to_le-of_le_at : (w : ℕ) (bs : Bytes) → length bs ≡ w → IsBytes bs → to_le w (of_le bs) ≡ bs
to_le-of_le_at w bs e h = rw (← e) (to_le-of_le bs h)

pub of_le-lt : (bs : Bytes) → IsBytes bs → of_le bs < 256 ^ length bs
unfolding of_le
of_le-lt [] h = omega arith
of_le-lt (b ∷ bs) (h, hs) = omega (arith, pow-suc 256 (length bs), of_le-lt bs hs)

pub of_le-lt_at : (w : ℕ) (bs : Bytes) → length bs ≡ w → IsBytes bs → of_le bs < 256 ^ w
of_le-lt_at w bs e h = rw (← e) (of_le-lt bs h)

pub pack-eq-ok : (w v : ℕ) → v < 256 ^ w → pack w v ≡ ok (to_le w v)
unfolding pack
pack-eq-ok w v h = ground arith

pub pack_inv : (w v : ℕ) {bs : Bytes} → pack w v ≡ ok bs → (v < 256 ^ w) × (bs ≡ to_le w v)
unfolding pack
pack_inv w v h = (ground arith, ground arith)

pub bytes_eq_refl : (bs : Bytes) → bytes_eq bs bs ≡ true
unfolding bytes_eq
bytes_eq_refl [] = refl
bytes_eq_refl (b ∷ bs) = ground (arith, bytes_eq_refl bs)

pub bytes_eq→eq : (a b : Bytes) → bytes_eq a b ≡ true → a ≡ b
unfolding bytes_eq
bytes_eq→eq [] [] h = refl
bytes_eq→eq [] (y ∷ ys) h = cc
bytes_eq→eq (x ∷ xs) [] h = cc
bytes_eq→eq (x ∷ xs) (y ∷ ys) h = ground (arith, bytes_eq→eq xs ys)

pub bytes_eq_iff : (a b : Bytes) → (bytes_eq a b ≡ true) ↔ (a ≡ b)
bytes_eq_iff a b = (bytes_eq→eq a b, λ e. subst (λ c. bytes_eq a c ≡ true) e (bytes_eq_refl a))
