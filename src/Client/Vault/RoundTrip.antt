-- ===== src/Client/Vault/RoundTrip.antt =====
-- What is serialized or encrypted is read back.
use pus_proj.Common.{
  ◌+◌, ◌≡◌, refl, sym, ◌∙◌, [], ◌∷◌, ◌++◌, length, append-nil, append_assoc, arith, take-append,
  drop-append, length-append, false, ltb, ge→ltb,
}
use pus_proj.Common.Results.{Result, ok, err, >>=-eq-ok}
use pus_proj.Common.Results
use pus_proj.Bytes.{Bytes, bytes_eq_refl}
use pus_proj.Client.Reader.{Read, reader, pure, ◌>>=◌}
use pus_proj.Client.Reader
use pus_proj.Client.Writer.{Buffer}
use pus_proj.Client.Writer
use pus_proj.Client.Encodes.{
  Encodes, Encodes-bind, Encodes-pure, Encodes-last, Encodes-raw, Encodes-u32, Encodes-u64,
  Encodes-lpstr,
}
use pus_proj.Client.Vault.{Entry, Vault}
use pus_proj.Client.Vault.Plaintext.{
  magic, write_entry, write_entries, serialize_plaintext, encrypt,
}
use pus_proj.Client.Vault.Parsing.{
  read_entry, read_entries, read_vault, deserialize_plaintext, decrypt, gcm_iv_len, gcm_tag_len,
}

Encodes-write_entry : (e : Entry) → Encodes read_entry (write_entry e) e
unfolding read_entry write_entry
Encodes-write_entry e = Encodes-bind _ _ _ _ (Encodes-lpstr e.id) (
    Encodes-bind _ _ _ _ (Encodes-lpstr e.service) (
      Encodes-bind _ _ _ _ (Encodes-lpstr e.username) (
        Encodes-bind _ _ _ _ (Encodes-lpstr e.password) (
          Encodes-bind _ _ _ _ (Encodes-lpstr e.notes)
            (Encodes-last _ _ _ (Encodes-u64 e.updated_at))))))

Encodes-write_entries :
    (entries before : Vault)
    → Encodes (read_entries (length entries) before) (write_entries entries) (before ++ entries)
unfolding read_entries write_entries
Encodes-write_entries [] before = rw append-nil (Encodes-pure before)
Encodes-write_entries (e ∷ entries) before = rw (← append_assoc before (e ∷ []) entries) (
    Encodes-bind _ _ _ _ (Encodes-write_entry e)
      (Encodes-write_entries entries (before ++ (e ∷ []))))

Encodes-vault :
    (entries : Vault)
    → Encodes read_vault
        (λ w.
          Results.◌>>=◌
            (Writer.raw magic w)
            (λ v. Results.◌>>=◌ (Writer.u32 (length entries) v) (write_entries entries)))
        entries
unfolding read_vault
Encodes-vault entries =
    Encodes-bind (Reader.raw (length magic)) _ (Writer.raw magic) _
      (Encodes-raw (length magic) magic refl)
      (rw (bytes_eq_refl magic)
        (Encodes-bind _ _ _ _ (Encodes-u32 (length entries)) (Encodes-write_entries entries [])))

-- A vault that can be serialized is read back from its plaintext.
pub deserialize_plaintext-serialize_plaintext :
    (entries : Vault) {pt : Bytes}
    → serialize_plaintext entries ≡ ok pt
    → deserialize_plaintext pt ≡ ok entries
unfolding serialize_plaintext deserialize_plaintext
deserialize_plaintext-serialize_plaintext entries {pt} h =
    let (bs, e, reads) = (Encodes-vault entries).invert [] h in
    let (r, run, rest) =
      reads.run (reader pt) [] (record { ahead = e ∙ sym (append-nil bs); within = omega arith }) in
    rw run refl

-- With an authenticated cipher that opens what it sealed under the same key and nonce, and that adds
-- a tag of 16 bytes, a vault that is encrypted under a nonce of 12 bytes is decrypted to itself.
pub decrypt-encrypt :
    (seal : Bytes → Bytes → Bytes → Bytes) (unseal : Bytes → Bytes → Bytes → Result Bytes)
    (k_vault iv : Bytes)
    → ((p : Bytes) → unseal k_vault iv (seal k_vault iv p) ≡ ok p)
    → ((p : Bytes) → length (seal k_vault iv p) ≡ length p + gcm_tag_len)
    → (entries : Vault) {blob : Bytes} → length iv ≡ gcm_iv_len
    → encrypt seal k_vault iv entries ≡ ok blob
    → decrypt unseal blob k_vault ≡ ok entries
unfolding encrypt decrypt
decrypt-encrypt seal unseal k_vault iv opens tagged entries {blob} size h =
    let (pt, e1, e2) =
      >>=-eq-ok (serialize_plaintext entries) (λ p. ok (iv ++ seal k_vault iv p)) h in
    let c = seal k_vault iv pt in
    let b : blob ≡ iv ++ c = cc e2 in
    let long : ltb (length (iv ++ c)) (gcm_iv_len + gcm_tag_len) ≡ false =
      ge→ltb _ _ (omega (arith, length-append iv c, size, tagged pt)) in
    rw (b, long, take-append gcm_iv_len iv c size, drop-append gcm_iv_len iv c size, opens)
      (deserialize_plaintext-serialize_plaintext entries e1)
