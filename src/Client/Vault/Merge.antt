-- ===== src/Client/Vault/Merge.antt =====
-- What merge_from of client-py/vault.py does to each id.
use pus_proj.Common.{
  ◌≡◌, refl, sym, ap, ◌∙◌, ◌⊎◌, ◌↔◌, ◌≤◌, ◌<◌, subst, inl, inr, false, ◌&&◌, Option, none, some,
  List, [], ◌∷◌, leb, Bool-cases, Option-cases, if◌then◌else◌, arith,
}
use pus_proj.Bytes.{bytes_eq_iff, bytes_eq_refl}
use pus_proj.Text.{Text}
use pus_proj.Client.Vault.{
  Entry, Vault, ById, text_eq, find_by_id, get, index_entries, differ, merge_entry, merge_loop,
  merge_from,
}
use pus_proj.Client.Vault.Dict.{
  UniqueIds, get-assign, IsKeyed, assign-IsKeyed, find_by_id-values, index_entries-IsKeyed,
  or_other-none, get-index_entries, NodupKeys, assign-NodupKeys, values-UniqueIds,
  index_entries-NodupKeys,
}

-- The entry of an id after a merge, from the entries of the two sides: the one that there is; of two
-- that differ, the server's unless the local one is newer; of two that do not, the local one.
abbrev pub newer : Entry → Entry → Entry
newer mine s = if differ mine s && leb mine.updated_at s.updated_at then s else mine

unfoldable pub merged : Option Entry → Option Entry → Option Entry
merged none s = s
merged (some mine) none = some mine
merged (some mine) (some s) = some (newer mine s)

merged-none : (o : Option Entry) → merged o none ≡ o
unfolding merged
merged-none none = refl
merged-none (some e) = refl

merge_entry-IsKeyed :
    (s : Entry) (o : Option Entry) (d : ById) (c : List Text)
    → IsKeyed d
    → IsKeyed (merge_entry s o d c).0
unfolding merge_entry
merge_entry-IsKeyed s none d c h = assign-IsKeyed s d h
merge_entry-IsKeyed s (some mine) d c h = elim (Bool-cases (differ mine s)) [
  | inr same ↦ rw same h
  | inl other ↦ rw other (elim (Bool-cases (leb mine.updated_at s.updated_at)) [
    | inl newer_one ↦ rw newer_one (assign-IsKeyed s d h)
    | inr older ↦ rw older h
  ])
]

merge_loop-IsKeyed :
    (server : Vault) (d : ById) (c : List Text) → IsKeyed d → IsKeyed (merge_loop server d c).0
unfolding merge_loop
merge_loop-IsKeyed [] d c h = h
merge_loop-IsKeyed (s ∷ server) d c h =
    merge_loop-IsKeyed server _ _ (merge_entry-IsKeyed s (get s.id d) d c h)

-- One entry of the server changes what is stored under its id, and nothing else.
get-merge_entry :
    (j : Text) (s : Entry) (d : ById) (c : List Text)
    → get j (merge_entry s (get s.id d) d c).0
      ≡ (if text_eq s.id j then merged (get j d) (some s) else get j d)
unfolding merge_entry merged
get-merge_entry j s d c = elim (Option-cases (get s.id d)) [
  | inl p ↦ ground (arith, get-assign j s.id s d, bytes_eq_iff s.id j)
  | inr (mine, p) ↦ ground (arith, get-assign j s.id s d, bytes_eq_iff s.id j)
]

get-merge_loop :
    (j : Text) (server : Vault) (d : ById) (c : List Text)
    → UniqueIds server
    → get j (merge_loop server d c).0 ≡ merged (get j d) (find_by_id j server)
unfolding merge_loop find_by_id merged
get-merge_loop j [] d c u = ground arith
get-merge_loop j (s ∷ server) d c (fresh, u) =
    let r = merge_entry s (get s.id d) d c in
    let step = get-merge_loop j server r.0 r.1 u in
    let put = get-merge_entry j s d c in
    elim (Bool-cases (text_eq s.id j)) [
      | inl same ↦
          let gone = rw ((bytes_eq_iff s.id j).0 same) at fresh in
          step ∙ rw (gone, put, same) (merged-none (merged (get j d) (some s)))
      | inr other ↦ step ∙ rw (put, other) refl
    ]

differ_refl : (e : Entry) → differ e e ≡ false
unfolding differ
differ_refl e = ground (
  arith,
  bytes_eq_refl e.service,
  bytes_eq_refl e.username,
  bytes_eq_refl e.password,
  bytes_eq_refl e.notes,
)

merged_idem : (o s : Option Entry) → merged (merged o s) s ≡ merged o s
unfolding merged
merged_idem none none = refl
merged_idem none (some s) = rw (differ_refl s)
merged_idem (some mine) none = refl
merged_idem (some mine) (some s) = ground (arith, differ_refl s)

merge_entry-NodupKeys :
    (s : Entry) (o : Option Entry) (d : ById) (c : List Text)
    → NodupKeys d
    → NodupKeys (merge_entry s o d c).0
unfolding merge_entry
merge_entry-NodupKeys s none d c h = assign-NodupKeys s.id s d h
merge_entry-NodupKeys s (some mine) d c h = elim (Bool-cases (differ mine s)) [
  | inr same ↦ rw same h
  | inl other ↦ rw other (elim (Bool-cases (leb mine.updated_at s.updated_at)) [
    | inl newer_one ↦ rw newer_one (assign-NodupKeys s.id s d h)
    | inr older ↦ rw older h
  ])
]

merge_loop-NodupKeys :
    (server : Vault) (d : ById) (c : List Text) → NodupKeys d → NodupKeys (merge_loop server d c).0
unfolding merge_loop
merge_loop-NodupKeys [] d c h = h
merge_loop-NodupKeys (s ∷ server) d c h =
    merge_loop-NodupKeys server _ _ (merge_entry-NodupKeys s (get s.id d) d c h)

-- Whatever the two sides hold, the ids are distinct after a merge.
pub merge_from-UniqueIds : (server entries : Vault) → UniqueIds (merge_from server entries).0
unfolding merge_from
merge_from-UniqueIds server entries =
    let d = index_entries entries [] in
    values-UniqueIds _ (merge_loop-IsKeyed server d [] (index_entries-IsKeyed entries [] tt))
      (merge_loop-NodupKeys server d [] (index_entries-NodupKeys entries [] tt))

find_by_id-merge_from :
    (j : Text) (server entries : Vault)
    → UniqueIds server
    → UniqueIds entries
    → find_by_id j (merge_from server entries).0
      ≡ merged (find_by_id j entries) (find_by_id j server)
unfolding merge_from
find_by_id-merge_from j server entries u v =
    let d = index_entries entries [] in
    find_by_id-values j _ (merge_loop-IsKeyed server d [] (index_entries-IsKeyed entries [] tt))
    ∙ get-merge_loop j server d [] u
    ∙ ap (λ o. merged o (find_by_id j server))
        (get-index_entries j entries [] v ∙ or_other-none (find_by_id j entries))

-- The content of an entry: its four texts.
abbrev pub IsSameContent : Entry → Entry → Type 0
IsSameContent a b =
    (a.service ≡ b.service)
    × (a.username ≡ b.username)
    × (a.password ≡ b.password)
    × (a.notes ≡ b.notes)

differ_iff : (a b : Entry) → (differ a b ≡ false) ↔ IsSameContent a b
unfolding differ
differ_iff a b =
    let service = bytes_eq_iff a.service b.service in
    let username = bytes_eq_iff a.username b.username in
    let password = bytes_eq_iff a.password b.password in
    let notes = bytes_eq_iff a.notes b.notes in
    (λ e. (ground arith, ground arith, ground arith, ground arith), λ h. ground arith)

-- Which entry a merge has to choose under an id, from that of this side and that of the server.
abbrev pub IsChoice : Option Entry → Option Entry → Option Entry → Type 0
IsChoice none s o = o ≡ s
IsChoice (some mine) none o = o ≡ some mine
IsChoice (some mine) (some s) o =
    ((IsSameContent mine s ⊎ (s.updated_at < mine.updated_at)) × (o ≡ some mine))
    ⊎ ((¬ IsSameContent mine s) × (mine.updated_at ≤ s.updated_at) × (o ≡ some s))

merged-IsChoice : (o s : Option Entry) → IsChoice o s (merged o s)
unfolding merged
merged-IsChoice none s = refl
merged-IsChoice (some mine) none = refl
merged-IsChoice (some mine) (some s) = elim (Bool-cases (differ mine s)) [
  | inr same ↦ inl (inl ((differ_iff mine s).0 same), rw same refl)
  | inl other ↦ elim (Bool-cases (leb mine.updated_at s.updated_at)) [
    | inl later ↦
        inr (λ h. let alike = (differ_iff mine s).1 h in cc, ground arith, rw (other, later) refl)
    | inr earlier ↦ inl (inr ground arith, rw (other, earlier) refl)
  ]
]

-- The merge, entry by entry, when the ids of each side are distinct. Under an id that one side alone
-- has stands that side's entry. Under an id of both sides stands the local entry, when the two have
-- the same service, login, password and note or the local one was changed later, and the server's
-- otherwise.
pub merge_from-IsChoice :
    (j : Text) (server entries : Vault)
    → UniqueIds server
    → UniqueIds entries
    → IsChoice
        (find_by_id j entries)
        (find_by_id j server)
        (find_by_id j (merge_from server entries).0)
merge_from-IsChoice j server entries u v =
    subst (IsChoice (find_by_id j entries) (find_by_id j server))
      (sym (find_by_id-merge_from j server entries u v))
      (merged-IsChoice (find_by_id j entries) (find_by_id j server))

-- A second merge with the same vault of the server changes nothing more: under each id stands what
-- stood there after the first.
pub merge_from_idem :
    (j : Text) (server entries : Vault)
    → UniqueIds server
    → UniqueIds entries
    → find_by_id j (merge_from server (merge_from server entries).0).0
      ≡ find_by_id j (merge_from server entries).0
merge_from_idem j server entries u v =
    find_by_id-merge_from j server (merge_from server entries).0 u
      (merge_from-UniqueIds server entries)
    ∙ rw (find_by_id-merge_from j server entries u v)
        (merged_idem (find_by_id j entries) (find_by_id j server))
