-- ===== src/Bytes/Fields.antt =====
-- Reading fields out of a byte string that is a concatenation.
use pus_proj.Common.{
  ℕ, zero, suc, [], ◌∷◌, ◌+◌, ◌-◌, ◌≤◌, ◌≡◌, ap, ◌∙◌, List, ◌++◌, arith, length, take, drop, slice,
  take-append, drop-append, take-append-drop, drop-drop, length-take, length-drop, sym,
}

module _ {ℓ} {A : Type ℓ} where
  -- A slice that lies behind a prefix.
  pub slice-append :
      (i j : ℕ) (xs ys zs : List A)
      → length xs ≡ i
      → length ys ≡ j - i
      → slice i j (xs ++ (ys ++ zs)) ≡ ys
  slice-append i j xs ys zs hx hy =
      rw (drop-append i xs (ys ++ zs) hx) (take-append (j - i) ys zs hy)

  -- A slice and what follows it.
  pub slice-append-drop : (i j : ℕ) (xs : List A) → i ≤ j → slice i j xs ++ drop j xs ≡ drop i xs
  slice-append-drop i j xs h =
      let e : i + (j - i) ≡ j = omega arith in
      ap (λ k. slice i j xs ++ drop k xs) (sym e)
      ∙ ap (λ ys. slice i j xs ++ ys) (sym (drop-drop i (j - i) xs))
      ∙ take-append-drop (j - i) (drop i xs)

  pub length-slice : (i j : ℕ) (xs : List A) → i ≤ j → j ≤ length xs → length (slice i j xs) ≡ j - i
  length-slice i j xs h k = omega (arith, length-take (j - i) (drop i xs), length-drop i xs)

  take-append-take : (m n : ℕ) (xs : List A) → take m xs ++ take n (drop m xs) ≡ take (m + n) xs
  take-append-take zero n xs = let e : 0 + n ≡ n = omega arith in rw e
  take-append-take (suc m) zero [] = let e : suc m + 0 ≡ suc m = omega arith in rw e
  take-append-take (suc m) (suc n) [] =
      let e : suc m + suc n ≡ suc (m + suc n) = omega arith in rw e
  take-append-take (suc m) n (x ∷ xs) =
      let e : suc m + n ≡ suc (m + n) = omega arith in rw e (ap (◌∷◌ x) (take-append-take m n xs))

  -- A prefix and the slice behind it.
  pub take-append-slice : (i j : ℕ) (xs : List A) → i ≤ j → take i xs ++ slice i j xs ≡ take j xs
  take-append-slice i j xs h =
      let e : i + (j - i) ≡ j = omega arith in take-append-take i (j - i) xs ∙ ap (λ k. take k xs) e
