-- ===== src/Client/Vault.antt =====
-- The vault in memory: client-py/vault.py, lines 16 to 57 and 110 to 128. A vault is the list of its
-- entries.
pub mod Dict
pub mod Merge
pub mod Plaintext
pub mod Parsing
pub mod RoundTrip
use pus_proj.Common.{
  ℕ, ◌+◌, ◌/◌, ◌%◌, Bool, true, false, not, ◌||◌, Option, none, some, List, [], ◌∷◌, ◌++◌, leb, ltb,
  if◌then◌else◌,
}
use pus_proj.Bytes.{Bytes, bytes_eq}
use pus_proj.Text.{Text}

pub record Entry : Type 0 where
  pub id : Text
  pub service : Text
  pub username : Text
  pub password : Text
  pub notes : Text
  pub updated_at : ℕ

abbrev pub Vault : Type 0
Vault = List Entry

-- `==` of texts
abbrev pub text_eq : Text → Text → Bool
text_eq = bytes_eq

-- One of the digits 0 to 9 and a to f.
abbrev pub hex_digit : ℕ → ℕ
hex_digit n = if ltb n 10 then 48 + n else 87 + n

unfoldable pub to_hex : Bytes → Text
to_hex [] = []
to_hex (b ∷ bs) = hex_digit (b / 16) ∷ hex_digit (b % 16) ∷ to_hex bs

-- add; `random` is crypto.random_bytes(8) and `now` is int(time.time()).
unfoldable pub add : Bytes → ℕ → Text → Text → Text → Text → Vault → Vault
unfolding to_hex
add random now service username password notes entries =
    entries
    ++ (record {
      id = to_hex random;
      service = service;
      username = username;
      password = password;
      notes = notes;
      updated_at = now;
    }
        ∷ [])

unfoldable pub find_by_service : Text → Vault → Option Entry
find_by_service service [] = none
find_by_service service (e ∷ entries) =
    if text_eq e.service service then some e else find_by_service service entries

unfoldable pub find_by_id : Text → Vault → Option Entry
find_by_id id [] = none
find_by_id id (e ∷ entries) = if text_eq e.id id then some e else find_by_id id entries

-- `self.find_by_service(key) or self.find_by_id(key)`
unfoldable pub find : Text → Vault → Option Entry
unfolding find_by_service find_by_id
find key entries = elim (find_by_service key entries) [
  | some e ↦ some e
  | none ↦ find_by_id key entries
]

-- The condition of the loop of `remove`.
abbrev pub is_named : Text → Entry → Bool
is_named key e = text_eq e.id key || text_eq e.service key

-- The entries without the first one of that name, and whether there was one.
unfoldable pub remove : Text → Vault → Bool × Vault
remove key [] = (false, [])
remove key (e ∷ entries) =
    let rest = remove key entries in
    if is_named key e then (true, entries) else (rest.0, e ∷ rest.1)

-- `x if x else y` on texts
abbrev pub or_else : Text → Text → Text
or_else [] y = y
or_else (c ∷ cs) y = c ∷ cs

-- merge_from: the dict of the entries by their ids, in the order of insertion.
abbrev pub ById : Type 0
ById = List (Text × Entry)

unfoldable pub get : Text → ById → Option Entry
get k [] = none
get k ((j, e) ∷ d) = if text_eq j k then some e else get k d

-- `d[k] = e`
unfoldable pub assign : Text → Entry → ById → ById
assign k e [] = (k, e) ∷ []
assign k e ((j, f) ∷ d) = if text_eq j k then (j, e) ∷ d else (j, f) ∷ assign k e d

-- `{e.id: e for e in entries}`, into the dict `d`
unfoldable pub index_entries : Vault → ById → ById
unfolding assign
index_entries [] d = d
index_entries (e ∷ entries) d = index_entries entries (assign e.id e d)

unfoldable pub values : ById → Vault
values [] = []
values ((k, e) ∷ d) = e ∷ values d

unfoldable pub differ : Entry → Entry → Bool
differ a b =
    not (text_eq a.service b.service)
    || (not (text_eq a.username b.username)
        || (not (text_eq a.password b.password) || not (text_eq a.notes b.notes)))

-- What one entry of the server does to the dict and to the list of conflicts, by the local entry.
unfoldable pub merge_entry : Entry → Option Entry → ById → List Text → ById × List Text
unfolding assign differ
merge_entry s none d conflicts = (assign s.id s d, conflicts)
merge_entry s (some mine) d conflicts =
    if differ mine s
    then (
      (if leb mine.updated_at s.updated_at then assign s.id s d else d),
      conflicts ++ (or_else s.service s.id ∷ []),
    )
    else (d, conflicts)

unfoldable pub merge_loop : Vault → ById → List Text → ById × List Text
unfolding merge_entry get
merge_loop [] d conflicts = (d, conflicts)
merge_loop (s ∷ server) d conflicts =
    let (d', conflicts') = merge_entry s (get s.id d) d conflicts in merge_loop server d' conflicts'

-- The entries after the merge, and the conflicts.
unfoldable pub merge_from : Vault → Vault → Vault × List Text
unfolding index_entries values merge_loop
merge_from server entries =
    let (d, conflicts) = merge_loop server (index_entries entries []) [] in (values d, conflicts)
