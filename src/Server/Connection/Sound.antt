-- ===== src/Server/Connection/Sound.antt =====
-- Invariants of actions, with one rule for each way to build an action.
use pus_proj.Common.{◌≡◌, refl, Bool, true, false, if◌then◌else◌}
use pus_proj.Common.Results.{Result, ok, err, Error}
use pus_proj.Server.Database.{Db}
use pus_proj.Server.Connection.{Conn, Io, pure, raise, lift, session, query, ◌>>=◌, continue}

-- `holds` is kept by an action that returns; an action that raises leaves `left`.
pub record Inv : Type 1 where
  pub holds : Conn → Type 0
  pub left : Conn → Type 0
  pub weak : (x : Conn) → holds x → left x

abbrev pub After {ℓ} : {A : Type ℓ} → Inv → Result A × Conn → Type 0
After j (ok a, y) = j.holds y
After j (err e, y) = j.left y

pub record Sound {ℓ} {A : Type ℓ} (j : Inv) (m : Io A) : Type ℓ where
  pub at : (x : Conn) → j.holds x → After j (m x)

module _ {ℓ} {A : Type ℓ} {j : Inv} where
  pub Sound-pure : (a : A) → Sound j (pure a)
  unfolding pure
  Sound-pure a = record { at = λ x h. h }

  pub Sound-raise : (e : Error) → Sound j (raise {A = A} e)
  unfolding raise
  Sound-raise e = record { at = λ x h. j.weak x h }

  pub Sound-lift : (r : Result A) → Sound j (lift r)
  unfolding lift
  Sound-lift (ok a) = record { at = λ x h. h }
  Sound-lift (err e) = record { at = λ x h. j.weak x h }

  pub Sound-query : (f : Db → A) → Sound j (query f)
  unfolding query
  Sound-query f = record { at = λ x h. h }

  pub Sound-if : (b : Bool) (m n : Io A) → Sound j m → Sound j n → Sound j (if b then m else n)
  Sound-if true m n s t = s
  Sound-if false m n s t = t

pub Sound-session : {j : Inv} → Sound j session
unfolding session
Sound-session = record { at = λ x h. h }

module _ {ℓ κ} {A : Type ℓ} {B : Type κ} {j : Inv} where
  After-continue :
      (r : Result A) (f : A → Io B) (y : Conn)
      → After j (r, y)
      → ((a : A) → Sound j (f a))
      → After j (continue r f y)
  After-continue (ok a) f y h s = (s a).at y h
  After-continue (err e) f y h s = h

  pub Sound-bind :
      (m : Io A) (f : A → Io B) → Sound j m → ((a : A) → Sound j (f a)) → Sound j (m >>= f)
  unfolding ◌>>=◌
  Sound-bind m f s t = record { at = λ x h. After-continue (m x).0 f (m x).1 (s.at x h) t }

pub ruleset sound_rules =
    (Sound-pure, Sound-raise, Sound-lift, Sound-query, Sound-if, Sound-session, Sound-bind)

-- A sequence that returns: its first part does, and the result is that of the second.
continue_inv {ℓ κ} :
    {A : Type ℓ} {B : Type κ} (r : Result A) (f : A → Io B) (y : Conn) {b : B}
    → (continue r f y).0 ≡ ok b
    → (a : A) × (r ≡ ok a) × (continue r f y ≡ f a y)
continue_inv (ok a) f y e = (a, refl, refl)
continue_inv (err x) f y e = cc

pub bind_inv {ℓ κ} :
    {A : Type ℓ} {B : Type κ} (m : Io A) (f : A → Io B) (x : Conn) {b : B}
    → ((m >>= f) x).0 ≡ ok b
    → (a : A) × ((m x).0 ≡ ok a) × ((m >>= f) x ≡ f a (m x).1)
unfolding ◌>>=◌
bind_inv m f x e = continue_inv (m x).0 f (m x).1 e
