-- ===== src/Client/Vault/Dict.antt =====
-- The dict by ids in merge_from of client-py/vault.py.
use pus_proj.Common.{
  ◌≡◌, refl, sym, ◌∙◌, inl, inr, Option, none, some, [], ◌∷◌, All, Bool-cases, if◌then◌else◌, arith,
}
use pus_proj.Bytes.{bytes_eq_iff}
use pus_proj.Text.{Text}
use pus_proj.Client.Vault.{
  Entry, Vault, ById, text_eq, find_by_id, get, assign, index_entries, values,
}

-- No two entries have one id.
abbrev pub UniqueIds : Vault → Type 0
UniqueIds [] = Unit
UniqueIds (e ∷ entries) = (find_by_id e.id entries ≡ none) × UniqueIds entries

pub get-assign :
    (j k : Text) (e : Entry) (d : ById)
    → get j (assign k e d) ≡ (if text_eq k j then some e else get j d)
unfolding get assign
get-assign j k e [] = refl
get-assign j k e ((i, f) ∷ d) =
    ground (arith, bytes_eq_iff i k, bytes_eq_iff i j, bytes_eq_iff k j, get-assign j k e d)

-- Each key of the dict is the id of its entry.
abbrev pub IsKeyed : ById → Type 0
IsKeyed = All (λ (p : Text × Entry). p.1.id ≡ p.0)

pub assign-IsKeyed : (e : Entry) (d : ById) → IsKeyed d → IsKeyed (assign e.id e d)
unfolding assign
assign-IsKeyed e [] h = (refl, tt)
assign-IsKeyed e ((j, f) ∷ d) (h, hs) = elim (Bool-cases (text_eq j e.id)) [
  | inl same ↦ rw same (sym ((bytes_eq_iff j e.id).0 same), hs)
  | inr other ↦ rw other (h, assign-IsKeyed e d hs)
]

pub find_by_id-values : (j : Text) (d : ById) → IsKeyed d → find_by_id j (values d) ≡ get j d
unfolding find_by_id values get
find_by_id-values j [] h = refl
find_by_id-values j ((k, e) ∷ d) (h, hs) = rw (h, find_by_id-values j d hs)

pub index_entries-IsKeyed :
    (entries : Vault) (d : ById) → IsKeyed d → IsKeyed (index_entries entries d)
unfolding index_entries
index_entries-IsKeyed [] d h = h
index_entries-IsKeyed (e ∷ entries) d h =
    index_entries-IsKeyed entries (assign e.id e d) (assign-IsKeyed e d h)

-- An entry, or what else there is.
unfoldable pub or_other : Option Entry → Option Entry → Option Entry
or_other none o = o
or_other (some e) o = some e

pub or_other-none : (o : Option Entry) → or_other o none ≡ o
unfolding or_other
or_other-none none = refl
or_other-none (some e) = refl

pub get-index_entries :
    (j : Text) (entries : Vault) (d : ById)
    → UniqueIds entries
    → get j (index_entries entries d) ≡ or_other (find_by_id j entries) (get j d)
unfolding index_entries find_by_id or_other
get-index_entries j [] d u = refl
get-index_entries j (e ∷ entries) d (fresh, u) =
    let step = get-index_entries j entries (assign e.id e d) u in
    let put = get-assign j e.id e d in
    elim (Bool-cases (text_eq e.id j)) [
      | inl same ↦
          let id = (bytes_eq_iff e.id j).0 same in
          let gone = rw id at fresh in step ∙ rw (gone, put, same) refl
      | inr other ↦ step ∙ rw (put, other) refl
    ]

-- The keys of the dict are distinct, and so are the ids of its values.
abbrev pub NodupKeys : ById → Type 0
NodupKeys [] = Unit
NodupKeys ((k, e) ∷ d) = (get k d ≡ none) × NodupKeys d

pub assign-NodupKeys : (k : Text) (e : Entry) (d : ById) → NodupKeys d → NodupKeys (assign k e d)
unfolding assign get
assign-NodupKeys k e [] h = (refl, tt)
assign-NodupKeys k e ((j, f) ∷ d) (h, hs) = elim (Bool-cases (text_eq j k)) [
  | inl same ↦ rw same (h, hs)
  | inr other ↦ rw other (
    get-assign j k e d ∙ ground (arith, h, bytes_eq_iff j k, bytes_eq_iff k j),
    assign-NodupKeys k e d hs,
  )
]

pub values-UniqueIds : (d : ById) → IsKeyed d → NodupKeys d → UniqueIds (values d)
unfolding values
values-UniqueIds [] k h = tt
values-UniqueIds ((j, e) ∷ d) (k, ks) (h, hs) =
    (rw k (find_by_id-values j d ks ∙ h), values-UniqueIds d ks hs)

pub index_entries-NodupKeys :
    (entries : Vault) (d : ById) → NodupKeys d → NodupKeys (index_entries entries d)
unfolding index_entries
index_entries-NodupKeys [] d h = h
index_entries-NodupKeys (e ∷ entries) d h =
    index_entries-NodupKeys entries (assign e.id e d) (assign-NodupKeys e.id e d h)
