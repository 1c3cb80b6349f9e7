-- ===== src/Client/Commands/Runs.antt =====
-- Runs of the command loop of client-py/secvault.py.
use pus_proj.Common.{
  ◌≡◌, refl, ◌∙◌, inl, inr, Bool, true, false, Option, none, some, [], ◌∷◌, ◌++◌, Bool-cases,
  if◌then◌else◌, arith,
}
use pus_proj.Common.Results.{Result, ok, err}
use pus_proj.Bytes.{Bytes, bytes_eq_iff}
use pus_proj.Text.{Text}
use pus_proj.Client.Vault.{Entry, Vault, text_eq, to_hex, find_by_id, add, remove, is_named}
use pus_proj.Client.Vault.Dict.{UniqueIds}
use pus_proj.Client.Act.{ClientCrypto, World}
use pus_proj.Client.Sync.{do_sync}
use pus_proj.Client.Sync.Unique.{do_sync-UniqueIds, pull-UniqueIds}
use pus_proj.Client.Sync.Sessions.{Keeps-ensure_session}
use pus_proj.Client.Commands.{
  App, Command, add_entry, edit_entry, remove_entry, sync_now, pull_now, ping_now, edited,
  change_service, change_id, edit_found, edit, synced, run,
}

-- An id that random_bytes gives to a new entry is not in use.
abbrev pub Fresh : Command → App → Type 0
Fresh (add_entry random now service username pw notes) a =
    find_by_id (to_hex random) a.world.vault ≡ none
Fresh _ a = Unit

-- The states that the loop reaches from one, command by command.
pub data Run (c : ClientCrypto) (a : App) : App → Type 0 where
  start : Run c a a
  next : {b : App} → Run c a b → (cmd : Command) → Fresh cmd b → Run c a (run c cmd b)

find_by_id-append :
    (j : Text) (e : Entry) (v : Vault)
    → find_by_id j (v ++ (e ∷ []))
      ≡ elim (find_by_id j v) [ none ↦ (if text_eq e.id j then some e else none) | some f ↦ some f ]
unfolding find_by_id
find_by_id-append j e [] = refl
find_by_id-append j e (f ∷ v) = elim (Bool-cases (text_eq f.id j)) [
  | inl same ↦ rw same refl
  | inr other ↦ rw other (find_by_id-append j e v)
]

add-UniqueIds :
    (e : Entry) (v : Vault) → find_by_id e.id v ≡ none → UniqueIds v → UniqueIds (v ++ (e ∷ []))
unfolding find_by_id
add-UniqueIds e [] h u = (refl, tt)
add-UniqueIds e (f ∷ v) h (u, us) = elim (Bool-cases (text_eq f.id e.id)) [
  | inl same ↦ cc (rw same at h)
  | inr other ↦
      let back : text_eq e.id f.id ≡ false =
        ground (arith, other, bytes_eq_iff f.id e.id, bytes_eq_iff e.id f.id) in
      (find_by_id-append f.id e v ∙ rw (u, back) refl, add-UniqueIds e v (rw other at h) us)
]

-- Changing an entry, but not its id, and removing one.
module _ (key : Text) (f : Entry → Entry) (same_id : (e : Entry) → (f e).id ≡ e.id) where
  find_by_id-change_service :
      (j : Text) (v : Vault) → find_by_id j v ≡ none → find_by_id j (change_service key f v) ≡ none
  unfolding find_by_id change_service
  find_by_id-change_service j [] h = refl
  find_by_id-change_service j (e ∷ v) h = ground (arith, same_id e, find_by_id-change_service j v)

  change_service-UniqueIds : (v : Vault) → UniqueIds v → UniqueIds (change_service key f v)
  unfolding change_service
  change_service-UniqueIds [] u = tt
  change_service-UniqueIds (e ∷ v) (u, us) = elim (Bool-cases (text_eq e.service key)) [
    | inl found ↦ rw (found, same_id e) (u, us)
    | inr other ↦ rw other (find_by_id-change_service e.id v u, change_service-UniqueIds v us)
  ]

  find_by_id-change_id :
      (j : Text) (v : Vault) → find_by_id j v ≡ none → find_by_id j (change_id key f v) ≡ none
  unfolding find_by_id change_id
  find_by_id-change_id j [] h = refl
  find_by_id-change_id j (e ∷ v) h = ground (arith, same_id e, find_by_id-change_id j v)

  change_id-UniqueIds : (v : Vault) → UniqueIds v → UniqueIds (change_id key f v)
  unfolding change_id
  change_id-UniqueIds [] u = tt
  change_id-UniqueIds (e ∷ v) (u, us) = elim (Bool-cases (text_eq e.id key)) [
    | inl found ↦ rw (found, same_id e) (u, us)
    | inr other ↦ rw other (find_by_id-change_id e.id v u, change_id-UniqueIds v us)
  ]

  edit_found-UniqueIds :
      (s i : Option Entry) (dirty : Bool) (v : Vault)
      → UniqueIds v
      → UniqueIds (edit_found s i key f dirty v).0
  unfolding edit_found
  edit_found-UniqueIds (some e) i dirty v u = change_service-UniqueIds v u
  edit_found-UniqueIds none (some e) dirty v u = change_id-UniqueIds v u
  edit_found-UniqueIds none none dirty v u = u

find_by_id-remove :
    (j key : Text) (v : Vault) → find_by_id j v ≡ none → find_by_id j (remove key v).1 ≡ none
unfolding find_by_id remove
find_by_id-remove j key [] h = refl
find_by_id-remove j key (e ∷ v) h = ground (arith, find_by_id-remove j key v)

remove-UniqueIds : (key : Text) (v : Vault) → UniqueIds v → UniqueIds (remove key v).1
unfolding remove
remove-UniqueIds key [] u = tt
remove-UniqueIds key (e ∷ v) (u, us) = elim (Bool-cases (is_named key e)) [
  | inl found ↦ rw found us
  | inr other ↦ rw other (find_by_id-remove e.id key v u, remove-UniqueIds key v us)
]

module _ (c : ClientCrypto) where
  synced_vault :
      (r : Result Bool) (iv : Bytes) (x : World) (a : App)
      → (synced c r iv x a).world.vault ≡ x.vault
  unfolding synced
  synced_vault (ok true) iv x a = refl
  synced_vault (ok false) iv x a = refl
  synced_vault (err e) iv x a = refl

  run-UniqueIds :
      (cmd : Command) (a : App)
      → Fresh cmd a
      → UniqueIds a.world.vault
      → UniqueIds (run c cmd a).world.vault
  unfolding run add edit
  run-UniqueIds (add_entry random now service username pw notes) a fresh u =
      add-UniqueIds _ a.world.vault fresh u
  run-UniqueIds (edit_entry key user pw n now) a fresh u =
      edit_found-UniqueIds key (edited user pw n now) (λ e. refl) _ _ a.dirty a.world.vault u
  run-UniqueIds (remove_entry key) a fresh u = remove-UniqueIds key a.world.vault u
  run-UniqueIds (sync_now o iv1 iv2 iv3 iv4) a fresh u = elim (Bool-cases a.online) [
    | inr off ↦ rw off u
    | inl on ↦
        let r = do_sync c o iv1 iv2 iv3 a.world in
        rw on (
          rw (synced_vault r.0 iv4 r.1 (record a { online = true }))
            (do_sync-UniqueIds c o iv1 iv2 iv3 a.world u))
  ]
  run-UniqueIds (pull_now o) a fresh u = elim (Bool-cases a.online) [
    | inr off ↦ rw off u
    | inl on ↦ rw on (pull-UniqueIds c o a.world u)
  ]
  run-UniqueIds (ping_now o) a fresh u = elim (Bool-cases a.online) [
    | inr off ↦ rw off u
    | inl on ↦ rw (on, ((Keeps-ensure_session c o).kept a.world).same_vault) u
  ]

  -- In every state that the command loop reaches from one whose vault has distinct ids, whatever the
  -- user types and the server answers, the vault has distinct ids, provided that the random id of each
  -- new entry is not in use.
  pub Run-UniqueIds : {a b : App} → UniqueIds a.world.vault → Run c a b → UniqueIds b.world.vault
  Run-UniqueIds u start = u
  Run-UniqueIds u (next {b} r cmd fresh) = run-UniqueIds cmd b fresh (Run-UniqueIds u r)

  pub run_offline :
      (cmd : Command) (a : App)
      → a.online ≡ false
      → ((run c cmd a).online ≡ false)
        × ((run c cmd a).world.conn ≡ a.world.conn)
        × ((run c cmd a).cache ≡ a.cache)
  unfolding run
  run_offline (add_entry random now service username pw notes) a off = (off, refl, refl)
  run_offline (edit_entry key user pw n now) a off = (off, refl, refl)
  run_offline (remove_entry key) a off = (off, refl, refl)
  run_offline (sync_now o iv1 iv2 iv3 iv4) a off = rw off (refl, refl, refl)
  run_offline (pull_now o) a off = rw off (refl, refl, refl)
  run_offline (ping_now o) a off = rw off (refl, refl, refl)

  -- In offline mode no command opens, uses or closes a connection, or writes the cache file.
  pub Run-offline :
      {a b : App}
      → a.online ≡ false
      → Run c a b
      → (b.online ≡ false) × (b.world.conn ≡ a.world.conn) × (b.cache ≡ a.cache)
  Run-offline off start = (off, refl, refl)
  Run-offline off (next {b} r cmd fresh) =
      let (off', conn, cache) = Run-offline off r in
      let (off2, conn2, cache2) = run_offline cmd b off' in (off2, conn2 ∙ conn, cache2 ∙ cache)
