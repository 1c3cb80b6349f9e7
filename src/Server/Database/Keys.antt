-- ===== src/Server/Database/Keys.antt =====
-- The primary keys and the UNIQUE names of server-py/database.py: rows that are pairwise apart.
use pus_proj.Common.{
  subst, ℕ, suc, ◌≤◌, ◌≡◌, ◌≢◌, sym, ◌∙◌, inl, inr, Bool, false, none, some, List, [], ◌∷◌, ◌++◌,
  arith, All, All-append, Bool-cases,
}
use pus_proj.Bytes.{Bytes, bytes_eq, bytes_eq→eq, bytes_eq_refl, bytes_eq_iff}
use pus_proj.Server.Database.{
  User, VaultRow, SessionRow, Db, put_row, get_user_by_username, get_session, max_id, fetch_one,
}

-- No two elements are related the wrong way.
abbrev pub AllPairs {ℓ} : {A : Type ℓ} → (A → A → Type 0) → List A → Type 0
AllPairs R [] = Unit
AllPairs R (x ∷ xs) = All (R x) xs × AllPairs R xs

-- Two users have two ids, and two names where they have one.
abbrev pub OtherUser : User → User → Type 0
OtherUser u v = (u.id ≢ v.id) × ((name : List ℕ) → u.username ≡ some name → v.username ≢ some name)

module _ {ℓ} {A : Type ℓ} where
  pub All-map {κ μ} :
      (P : A → Type κ) (Q : A → Type μ)
      → ((a : A) → P a → Q a)
      → (xs : List A) → All P xs
      → All Q xs
  All-map P Q f [] h = tt
  All-map P Q f (x ∷ xs) (h, hs) = (f x h, All-map P Q f xs hs)

  All-zip :
      (P Q R : A → Type 0)
      → ((a : A) → P a → Q a → R a)
      → (xs : List A) → All P xs
      → All Q xs
      → All R xs
  All-zip P Q R f [] h k = tt
  All-zip P Q R f (x ∷ xs) (h, hs) (k, ks) = (f x h k, All-zip P Q R f xs hs ks)

  pub AllPairs-append :
      (R : A → A → Type 0) (xs : List A) (x : A)
      → AllPairs R xs
      → All (λ y. R y x) xs
      → AllPairs R (xs ++ (x ∷ []))
  AllPairs-append R [] x h k = (tt, tt)
  AllPairs-append R (y ∷ xs) x (h, hs) (k, ks) =
      (All-append (R y) xs (x ∷ []) h (k, tt), AllPairs-append R xs x hs ks)

  -- What a SELECT that finds nothing says of the rows.
  fetch_one-none : (p : A → Bool) (xs : List A) → fetch_one p xs ≡ none → All (λ x. p x ≡ false) xs
  unfolding fetch_one
  fetch_one-none p [] e = tt
  fetch_one-none p (x ∷ xs) e = elim (Bool-cases (p x)) [
    | inl t ↦ cc
    | inr f ↦ (f, fetch_one-none p xs (ground arith))
  ]

pub All-put_row :
    (P : VaultRow → Type 0) (row : VaultRow) (rows : List VaultRow)
    → P row
    → All P rows
    → All P (put_row row rows)
unfolding put_row
All-put_row P row [] h hs = (h, tt)
All-put_row P row (r ∷ rows) h (k, ks) = elim (Bool-cases (bytes_eq r.id row.id)) [
  | inl e ↦ rw e (h, ks)
  | inr e ↦ rw e (k, All-put_row P row rows h ks)
]

-- A row is put in the place of the one that has its id.
pub AllPairs-put_row :
    (row : VaultRow) (rows : List VaultRow)
    → AllPairs (λ (r s : VaultRow). r.id ≢ s.id) rows
    → AllPairs (λ (r s : VaultRow). r.id ≢ s.id) (put_row row rows)
unfolding put_row
AllPairs-put_row row [] h = (tt, tt)
AllPairs-put_row row (r ∷ rows) (h, hs) = elim (Bool-cases (bytes_eq r.id row.id)) [
  | inl same ↦
      let id : r.id ≡ row.id = bytes_eq→eq r.id row.id same in
      rw same (subst (λ k. All (λ (s : VaultRow). k ≢ s.id) rows) id h, hs)
  | inr other ↦
      let ne : r.id ≢ row.id = λ e. ground (arith, bytes_eq_iff r.id row.id) in
      rw other
        (All-put_row (λ (s : VaultRow). r.id ≢ s.id) row rows ne h, AllPairs-put_row row rows hs)
]

id_le_max : (us : List User) → All (λ (u : User). u.id ≤ max_id us) us
unfolding max_id
id_le_max [] = tt
id_le_max (u ∷ us) =
    (omega arith, All-map (λ (v : User). v.id ≤ max_id us) _ (λ v h. omega arith) us (id_le_max us))

-- Nobody has the name or the id of a new user, and no session its token.
module _ (db : Db) where
  pub other_names :
      (name : List ℕ) (u : User)
      → u.id ≡ suc (max_id db.users)
      → u.username ≡ some name
      → get_user_by_username name db ≡ none
      → All (λ v. OtherUser v u) db.users
  unfolding get_user_by_username
  other_names name u i n e =
      All-zip _ _ (λ v. OtherUser v u)
        (λ v low other. (
          λ same. omega arith,
          λ m have has.
              let same : v.username ≡ some name = have ∙ sym has ∙ n in
              let missed = rw (same, bytes_eq_refl name) at other in cc,
        ))
        db.users (id_le_max db.users) (fetch_one-none _ db.users e)

  pub other_tokens :
      (token : Bytes) (r : SessionRow)
      → r.token ≡ token
      → get_session token db ≡ none
      → All (λ (s : SessionRow). s.token ≢ r.token) db.sessions
  unfolding get_session
  other_tokens token r t e =
      All-map _ _ (λ s other same. let missed = rw (same ∙ t, bytes_eq_refl token) at other in cc)
        db.sessions (fetch_one-none _ db.sessions e)
