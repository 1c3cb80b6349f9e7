-- ===== src/Client/Failures.antt =====
-- Reads that fail with a FrameError or a ValueError only.
use pus_proj.Common.{
  ℕ, zero, suc, ◌≡◌, refl, ap, ◌∙◌, ◌⊎◌, inl, inr, Bool, true, false, if◌then◌else◌, Option, none,
  some, arith,
}
use pus_proj.Common.Results.{ok, err, Error, frame_error, value_error, Result-cases}
use pus_proj.Bytes.{Bytes}
use pus_proj.Text.{decode_text}
use pus_proj.Text.Failures.{decode_text_error}
use pus_proj.Client.Reader.{ByteReader, Read, reader, pure, lift, raise, ◌>>=◌}
use pus_proj.Client.Reader
use pus_proj.Client.Vault.{Vault}
use pus_proj.Client.Vault.Parsing.{read_entry, read_entries, read_vault, deserialize_plaintext}
use pus_proj.Client.Cache.{read_cached, read_cache, load_cache, Cached}

abbrev pub IsExpected : Error → Type 0
IsExpected e = (e ≡ frame_error) ⊎ (e ≡ value_error)

record Careful {ℓ} {A : Type ℓ} (m : Read A) : Type ℓ where
  fails : (r : ByteReader) {e : Error} → m r ≡ err e → IsExpected e

module _ {ℓ} {A : Type ℓ} where
  Careful-pure : (a : A) → Careful (pure a)
  unfolding pure
  Careful-pure a = record { fails = λ r h. cc }

  Careful-raise : Careful (raise {A = A} value_error)
  unfolding raise
  Careful-raise = record { fails = λ r h. inr (cc) }

  Careful-if : (b : Bool) (m n : Read A) → Careful m → Careful n → Careful (if b then m else n)
  Careful-if true m n p q = p
  Careful-if false m n p q = q

Careful-bind {ℓ κ} :
    {A : Type ℓ} {B : Type κ} (m : Read A) (f : A → Read B)
    → Careful m
    → ((a : A) → Careful (f a))
    → Careful (m >>= f)
unfolding ◌>>=◌
Careful-bind m f p q = record {
  fails = λ r h. elim (Result-cases (m r)) [
    | inl ((a, r'), e) ↦ (q a).fails r' (rw e at h)
    | inr (x, e) ↦ p.fails r (e ∙ ap err (cc (rw e at h)))
  ];
}

Careful-raw : (n : ℕ) → Careful (Reader.raw n)
unfolding Reader.raw
Careful-raw n = record { fails = λ r h. inl (ground arith) }

Careful-decode : (b : Bytes) → Careful (lift (decode_text b))
unfolding lift
Careful-decode b = record {
  fails = λ r h. elim (Result-cases (decode_text b)) [
    | inl (t, e) ↦ cc (rw e at h)
    | inr (x, e) ↦ inr (decode_text_error b (e ∙ ap err (cc (rw e at h))))
  ];
}

ruleset careful_rules =
    (Careful-pure, Careful-raise, Careful-if, Careful-bind, Careful-raw, Careful-decode)

Careful-field : (n : ℕ) → Careful (Reader.field n)
unfolding Reader.field
Careful-field n = search careful_rules

Careful-lpstr : Careful Reader.lpstr
unfolding Reader.lpstr
Careful-lpstr = search (careful_rules, Careful-field)

Careful-lpblob : Careful Reader.lpblob
unfolding Reader.lpblob
Careful-lpblob = search (careful_rules, Careful-field)

Careful-read_entry : Careful read_entry
unfolding read_entry
Careful-read_entry = search (careful_rules, Careful-field, Careful-lpstr) depth 20

Careful-read_entries : (n : ℕ) (before : Vault) → Careful (read_entries n before)
unfolding read_entries
Careful-read_entries zero before = Careful-pure before
Careful-read_entries (suc n) before =
    search (careful_rules, Careful-read_entry, Careful-read_entries n)

Careful-read_vault : Careful read_vault
unfolding read_vault
Careful-read_vault = search (careful_rules, Careful-field, Careful-read_entries) depth 10

Careful-read_cache : Careful read_cache
unfolding read_cache read_cached
Careful-read_cache = search (careful_rules, Careful-field, Careful-lpstr, Careful-lpblob) depth 20

-- Whatever bytes are decrypted, the parser of a vault reads them or raises a FrameError or a
-- ValueError (of which a UnicodeDecodeError is one), and nothing else.
pub deserialize_plaintext_errors :
    (pt : Bytes) {e : Error} → deserialize_plaintext pt ≡ err e → IsExpected e
unfolding deserialize_plaintext
deserialize_plaintext_errors pt h = elim (Result-cases (read_vault (reader pt))) [
  | inl ((v, r), p) ↦ cc (rw p at h)
  | inr (x, p) ↦ Careful-read_vault.fails (reader pt) (p ∙ ap err (cc (rw p at h)))
]

-- No content of the cache file, and no missing file, makes load_cache raise.
pub load_cache_total : (file : Option Bytes) → (c : Option Cached) × (load_cache file ≡ ok c)
unfolding load_cache
load_cache_total none = (none, refl)
load_cache_total (some raw) = elim (Result-cases (read_cache (reader raw))) [
  | inl ((c, r), p) ↦ (c, rw p refl)
  | inr (x, p) ↦ elim (Careful-read_cache.fails (reader raw) p) [
    | inl q ↦ (none, rw (p, q) refl)
    | inr q ↦ (none, rw (p, q) refl)
  ]
]
