-- ===== src/Examples/Devices.antt =====
-- Sample data for the tests of the Python client: a cipher that appends a tag, a client, connections.
use pus_proj.Common.{
  ℕ, ◌+◌, ◌-◌, ◌%◌, ◌≡◌, refl, ap, ◌∙◌, some, [], ◌∷◌, ◌++◌, length, replicate, take, drop, not,
  if◌then◌else◌, length-replicate, length-append, take-append, drop-append, arith,
}
use pus_proj.Common.Results.{Result, ok, err, crypto_error}
use pus_proj.Bytes.{Bytes, bytes_eq, bytes_eq_refl}
use pus_proj.Client.Vault.{Entry}
use pus_proj.Client.Act.{ClientCrypto, Client, new_client, World, dialled}
use pus_proj.Examples.Samples.{crypto, checksum, sum, bob, client_id, vault_id, token}

abbrev pub tag : Bytes → Bytes
tag k = replicate 16 (sum k % 256)

abbrev pub unseal_sample : Bytes → Bytes → Bytes → Result Bytes
unseal_sample k iv b =
    if not (bytes_eq (drop (length b - 16) b) (tag k))
    then err crypto_error
    else ok (take (length b - 16) b)

abbrev pub devices : ClientCrypto
devices = record {
  shared = crypto;
  sha256 = λ b. replicate 32 (sum b % 256);
  pbkdf2 = λ p s. replicate 32 ((sum p + sum s) % 256);
  seal = λ k iv p. p ++ tag k;
  unseal = unseal_sample;
}

pub unseal-seal : (k iv p : Bytes) → unseal_sample k iv (p ++ tag k) ≡ ok p
unseal-seal k iv p =
    let size = length-append p (tag k) in
    let t = length-replicate 16 (sum k % 256) in
    let n : length (p ++ tag k) - 16 ≡ length p = omega arith in
    rw
      (
        n,
        drop-append (length p) p (tag k) refl,
        take-append (length p) p (tag k) refl,
        bytes_eq_refl (tag k),
      )
      refl

pub length-seal : (k iv p : Bytes) → length (p ++ tag k) ≡ length p + 16
length-seal k iv p =
    length-append p (tag k) ∙ ap (λ n. length p + n) (length-replicate 16 (sum k % 256))

abbrev pub entry : Entry
entry = record {
  id = 49 ∷ [];
  service = 97 ∷ 98 ∷ [];
  username = bob;
  password = 120 ∷ [];
  notes = [];
  updated_at = 100;
}

-- The same entry, changed later, as the server has it.
abbrev pub changed : Entry
changed = record entry { password = 121 ∷ []; updated_at = 200 }

-- The bytes of a short frame under a key.
abbrev pub frame_bytes : Bytes → ℕ → Bytes → Bytes
frame_bytes key type payload =
    let body = 1 ∷ type ∷ 0 ∷ 0 ∷ 0 ∷ 0 ∷ 0 ∷ length payload ∷ 0 ∷ 0 ∷ 0 ∷ payload in
    body ++ checksum key body

abbrev pub zeros : Bytes
zeros = replicate 32 0

-- Bob's client with the keys of his password.
abbrev pub keyed : Client
keyed = record (new_client client_id) {
  login_name = bob;
  k_auth = replicate 32 2;
  k_vault = replicate 32 4;
}

abbrev pub logged_in : Client
logged_in = record keyed {
  session_token = token;
  k_mac = some token;
  vault_id = vault_id;
  vault_version = 4;
}

abbrev pub talking : Client → Bytes → World
talking client incoming = record {
  client = client;
  conn = some (dialled incoming 2_000_000);
  vault = entry ∷ [];
}
