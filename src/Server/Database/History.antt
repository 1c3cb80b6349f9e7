-- ===== src/Server/Database/History.antt =====
-- Writes of any number of connections, in the order in which the database takes them.
use pus_proj.Common.{
  ℕ, zero, suc, ◌+◌, ◌≡◌, refl, ap, ◌∙◌, subst, inl, inr, Bool, true, false, ◌&&◌, Option, some,
  List, [], ◌∷◌, if◌then◌else◌, arith, length, Bool-cases,
}
use pus_proj.Bytes.{Bytes, bytes_eq, bytes_eq→eq}
use pus_proj.Server.Database.{VaultRow, Db, get_vault, update_vault, create_session, create_user}
use pus_proj.Server.Database.Laws.{
  succeeded, succeeded→ok, IsOpen, update_vault-success, update_vault-failure,
}

-- A statement that writes, with its arguments.
pub data Write : Type 0 where
  put : Bytes → ℕ → ℕ → Bytes → ℕ → Write
  new_session : Bytes → ℕ → ℕ → Bytes → Write
  new_user : List ℕ → Bytes → Write

unfoldable pub apply : Write → Db → Db
apply (put vid uid version blob ts) db = (update_vault vid uid version blob ts db).1
apply (new_session token uid expiry cid) db = (create_session token uid expiry cid db).1
apply (new_user name key) db = (create_user name key db).1

unfoldable pub replay : List Write → Db → Db
replay [] db = db
replay (w ∷ ws) db = replay ws (apply w db)

-- Whether a write is an accepted update of the vault `vid`.
unfoldable pub lands : Bytes → Write → Db → Bool
lands vid (put id uid version blob ts) db =
    bytes_eq id vid && succeeded (update_vault id uid version blob ts db).0
lands vid _ db = false

abbrev version_of : Write → ℕ
version_of (put id uid version blob ts) = version
version_of _ = 0

-- The versions of the accepted updates of one vault, in order.
unfoldable pub accepted : Bytes → List Write → Db → List ℕ
unfolding lands
accepted vid [] db = []
accepted vid (w ∷ ws) db =
    let rest = accepted vid ws (apply w db) in if lands vid w db then version_of w ∷ rest else rest

-- n, n + 1, … for `count` numbers
unfoldable pub counting : ℕ → ℕ → List ℕ
counting n zero = []
counting n (suc count) = n ∷ counting (n + 1) count

-- The version and the owner that the row of a vault shows.
pub record Shows (vid : Bytes) (owner : Option ℕ) (v : ℕ) (db : Db) : Type 0 where
  pub row : VaultRow
  pub found : get_vault vid db ≡ some row
  pub owned : row.user_id ≡ owner
  pub version : row.version ≡ some v

-- A write that does not land leaves the row of the vault.
pub quiet :
    (vid : Bytes) (w : Write) (db : Db)
    → lands vid w db ≡ false
    → get_vault vid (apply w db) ≡ get_vault vid db
unfolding lands apply
quiet vid (put id uid version blob ts) db h =
    elim (Bool-cases (succeeded (update_vault id uid version blob ts db).0)) [
      | inl t ↦
          let (lock, rows, us, ss) =
            update_vault-success id uid version blob ts db (succeeded→ok _ t) in
          ground (arith, rows vid)
      | inr f ↦ ap (get_vault vid) (update_vault-failure id uid version blob ts db (λ e. cc))
    ]
quiet vid (new_session token uid expiry cid) db h = unfold create_session get_vault in ground arith
quiet vid (new_user name key) db h = unfold create_user get_vault in ground arith

-- A write that lands steps the version by one, under the same owner.
pub landing :
    (vid : Bytes) (w : Write) {owner : Option ℕ} {v : ℕ} {db : Db}
    → Shows vid owner v db
    → lands vid w db ≡ true
    → (version_of w ≡ v + 1) × Shows vid owner (v + 1) (apply w db)
unfolding lands apply
landing vid (put id uid version blob ts) {owner} {v} {db} s h =
    let same : id ≡ vid = bytes_eq→eq id vid (ground arith) in
    let success = update_vault-success id uid version blob ts db (succeeded→ok _ (ground arith)) in
    let o : IsOpen (some s.row) uid version = rw s.found at (rw same at success.0) in
    let e : version ≡ v + 1 = ground (arith, o) in
    let found = success.1 vid in
    let it : VaultRow = record {
      id = id;
      user_id = some uid;
      version = some version;
      blob = some blob;
      ts = some ts;
    } in
    (
      e,
      record {
        row = it;
        found = ground (arith, found);
        owned = ground (arith, o.0);
        version = ap some e;
      },
    )
landing vid (new_session token uid expiry cid) s h = cc
landing vid (new_user name key) s h = cc

-- Over any sequence of writes, by whatever connections, the accepted updates of a vault carry the
-- versions that follow the stored one without a gap or a repetition, its final version is the
-- stored one plus their number, and its owner stays.
pub no_lost_update :
    (vid : Bytes) (ws : List Write) {owner : Option ℕ} {v : ℕ} {db : Db}
    → Shows vid owner v db
    → (accepted vid ws db ≡ counting (v + 1) (length (accepted vid ws db)))
      × Shows vid owner (v + length (accepted vid ws db)) (replay ws db)
unfolding accepted replay counting
no_lost_update vid [] {owner} {v} {db} s =
    let e : v ≡ v + 0 = omega arith in (refl, subst (λ n. Shows vid owner n db) e s)
no_lost_update vid (w ∷ ws) {owner} {v} {db} s = elim (Bool-cases (lands vid w db)) [
  | inl t ↦
      let (e, s') = landing vid w s t in
      let (es, final) = no_lost_update vid ws s' in
      let n : v + 1 + length (accepted vid ws (apply w db))
          ≡ v + suc (length (accepted vid ws (apply w db))) =
        omega arith in
      rw t (
        rw e (ap (◌∷◌ (v + 1)) es),
        subst (λ k. Shows vid owner k (replay ws (apply w db))) n final,
      )
  | inr f ↦ rw f (
      no_lost_update vid ws (record {
        row = s.row;
        found = quiet vid w db f ∙ s.found;
        owned = s.owned;
        version = s.version;
      }))
]
