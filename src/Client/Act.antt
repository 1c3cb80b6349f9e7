-- ===== src/Client/Act.antt =====
-- The state of the Python client while it runs, and the actions on it. An action that raises leaves
-- what it did before.
use pus_proj.Common.{ℕ, Option, none, List, []}
use pus_proj.Common.Results.{Result, ok, err, Error}
use pus_proj.Bytes.{Bytes}
use pus_proj.Text.{Text}
use pus_proj.Server.Connection.{Crypto}
use pus_proj.Client.Vault.{Vault}

-- The cryptography that svpcrypto.py calls: HMAC and HKDF as the server has them, SHA-256, PBKDF2
-- of a password and a salt with the client's iteration count, and AES-256-GCM by key, nonce and text.
pub record ClientCrypto : Type 0 where
  pub shared : Crypto
  pub sha256 : Bytes → Bytes
  pub pbkdf2 : Bytes → Bytes → Bytes
  pub seal : Bytes → Bytes → Bytes → Bytes
  pub unseal : Bytes → Bytes → Bytes → Result Bytes

-- The attributes of svpclient.Client.
pub record Client : Type 0 where
  pub login_name : Text
  pub k_auth : Bytes
  pub k_vault : Bytes
  pub client_id : Bytes
  pub nonce_c : Bytes
  pub session_token : Bytes
  pub k_mac : Option Bytes
  pub vault_id : Bytes
  pub vault_version : ℕ
  pub token_expiry : ℕ
  pub seq : ℕ

-- Client.__init__; `client_id` is what random_bytes(16) returned.
abbrev pub new_client : Bytes → Client
new_client client_id = record {
  login_name = [];
  k_auth = [];
  k_vault = [];
  client_id = client_id;
  nonce_c = [];
  session_token = [];
  k_mac = none;
  vault_id = [];
  vault_version = 0;
  token_expiry = 0;
  seq = 0;
}

-- An open TlsConnection: what the server has still to say until it closes, how many more writes
-- will succeed, and the frames sent.
pub record Link : Type 0 where
  pub incoming : Bytes
  pub writes_left : ℕ
  pub sent : List Bytes

abbrev pub dialled : Bytes → ℕ → Link
dialled incoming writes_left = record { incoming = incoming; writes_left = writes_left; sent = [] }

-- The client, its attribute `conn`, and the vault of the command line.
pub record World : Type 0 where
  pub client : Client
  pub conn : Option Link
  pub vault : Vault

abbrev pub Act {ℓ} : Type ℓ → Type ℓ
Act A = World → Result A × World

unfoldable pub pure {ℓ} : {A : Type ℓ} → A → Act A
pure a x = (ok a, x)

unfoldable pub raise {ℓ} : {A : Type ℓ} → Error → Act A
raise e x = (err e, x)

unfoldable pub lift {ℓ} : {A : Type ℓ} → Result A → Act A
lift r x = (r, x)

-- self
unfoldable pub self : Act Client
self x = (ok x.client, x)

-- Assignments to attributes.
unfoldable pub assign : (Client → Client) → Act (Unit {0})
assign f x = (ok tt, record x { client = f x.client })

unfoldable pub set_conn : Option Link → Act (Unit {0})
set_conn o x = (ok tt, record x { conn = o })

abbrev pub continue {ℓ κ} :
    {A : Type ℓ} {B : Type κ} → Result A → (A → Act B) → World → Result B × World
continue (ok a) f x = f a x
continue (err e) f x = (err e, x)

infixl 5 ◌>>=◌ ◌>>◌
-- To open this opens the actions above too.
unfoldable pub ◌>>=◌ {ℓ κ} : {A : Type ℓ} {B : Type κ} → Act A → (A → Act B) → Act B
unfolding pure raise lift self assign set_conn
◌>>=◌ m f x = continue (m x).0 f (m x).1

abbrev pub ◌>>◌ {ℓ κ} : {A : Type ℓ} {B : Type κ} → Act A → Act B → Act B
m >> n = m >>= λ _. n

-- try: m; except Exception as e: handler(e)
abbrev pub handle {ℓ} : {A : Type ℓ} → (Error → Act A) → Result A → World → Result A × World
handle handler (ok a) x = (ok a, x)
handle handler (err e) x = handler e x

unfoldable pub attempt {ℓ} : {A : Type ℓ} → Act A → (Error → Act A) → Act A
attempt m handler x = handle handler (m x).0 (m x).1
