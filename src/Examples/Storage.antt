-- ===== src/Examples/Storage.antt =====
-- The database and its statements.
use pus_proj.Common.{◌+◌, ◌≡◌, ◌≢◌, refl, true, some, List, [], ◌∷◌, length, arith, if◌then◌else◌}
use pus_proj.Common.Results.{ok}
use pus_proj.Bytes.{Bytes, bytes_eq}
use pus_proj.Server.Database.{update_vault, get_vault, has_user, fetch_one, put_row, may_update}
use pus_proj.Server.Database.Laws.{IsOpen, update_vault-success}
use pus_proj.Server.Database.History.{
  Write, put, apply, Shows, no_lost_update, accepted, counting, replay, lands,
}
use pus_proj.Server.Handler.Storage.{Grown, handle_client-Grown}
use pus_proj.Server.Handler.Loop.{handle_client}
use pus_proj.Examples.Samples.{crypto, db, env, vault_id, row}

-- Two clients write on version 4: the second one loses, and writes again on version 5.
abbrev race : List Write
race =
    put vault_id 1 5 (11 ∷ []) 60
    ∷ put vault_id 1 5 (12 ∷ []) 61
    ∷ put vault_id 2 6 (13 ∷ []) 62
    ∷ put vault_id 1 6 (12 ∷ []) 63
    ∷ []

row-Shows : Shows vault_id (some 1) 4 db
unfolding get_vault fetch_one bytes_eq
row-Shows = record { row = row; found = refl; owned = refl; version = refl }

race-accepted : accepted vault_id race db ≡ 5 ∷ 6 ∷ []
unfolding accepted apply lands update_vault get_vault fetch_one bytes_eq may_update put_row
race-accepted = refl

no_lost_update_example :
    (accepted vault_id race db ≡ counting 5 (length (accepted vault_id race db)))
    × Shows vault_id (some 1) (4 + length (accepted vault_id race db)) (replay race db)
no_lost_update_example = no_lost_update vault_id race row-Shows

accepted_once : (update_vault vault_id 1 5 (11 ∷ []) 60 db).0 ≡ ok true
unfolding update_vault get_vault fetch_one bytes_eq may_update
accepted_once = refl

update_vault-success_example :
    IsOpen (get_vault vault_id db) 1 5
    × ((j : Bytes)
        → get_vault j (update_vault vault_id 1 5 (11 ∷ []) 60 db).1 ≡ (
            if bytes_eq vault_id j
            then some (record {
              id = vault_id;
              user_id = some 1;
              version = some 5;
              blob = some (11 ∷ []);
              ts = some 60;
            })
            else get_vault j db))
    × ((update_vault vault_id 1 5 (11 ∷ []) 60 db).1.users ≡ db.users)
    × ((update_vault vault_id 1 5 (11 ∷ []) 60 db).1.sessions ≡ db.sessions)
update_vault-success_example = update_vault-success vault_id 1 5 (11 ∷ []) 60 db accepted_once

foreign_refused : (update_vault vault_id 2 5 (11 ∷ []) 60 db).0 ≢ ok true
unfolding update_vault get_vault fetch_one bytes_eq may_update
foreign_refused e = ground arith

bob_exists : has_user 1 db.users ≡ true
unfolding has_user
bob_exists = refl

handle_client-Grown_example :
    Grown vault_id (some 1) 4 (handle_client crypto (env ∷ []) db (1 ∷ 2 ∷ [])).1.db
handle_client-Grown_example =
    handle_client-Grown crypto (env ∷ []) db (1 ∷ 2 ∷ []) vault_id (some 1) 4 ((λ i d h. h), tt)
      row-Shows
