-- ===== src/Client/Login/Agreement.antt =====
-- How the login of client-py/svpclient.py ends when the server's frames, encoded as server-py/server.py
-- does, are a CHALLENGE and an AUTH_OK.
use pus_proj.Common.{
  ℕ, ◌<◌, ◌≡◌, refl, sym, ◌∙◌, [], ◌∷◌, ◌++◌, length, ◌^◌, arith, append-nil, append_assoc,
}
use pus_proj.Common.Results.{ok}
use pus_proj.Bytes.{Bytes, pack, to_le}
use pus_proj.Server.Payloads.{build_auth_ok}
use pus_proj.Client.Reader.{ByteReader, reader}
use pus_proj.Client.Reader
use pus_proj.Client.Encodes.{At, Reads, Reads-raw, Reads-field, Reads-bind}
use pus_proj.Client.Act.{ClientCrypto, World, ◌>>=◌}
use pus_proj.Client.Login.{parse_auth_ok, keep_vault_id, default_vault_id}

-- The vault identifier after an AUTH_OK: the client keeps the one that it has.
abbrev pub vault_id_after : Bytes → Bytes → Bytes
vault_id_after [] id = id
vault_id_after (b ∷ bs) id = b ∷ bs

module _ (c : ClientCrypto) where
  keep_vault_id_lem :
      (vault_id id : Bytes) (x : World)
      → x.client.vault_id ≡ vault_id
      → default_vault_id c x.client.login_name ≡ ok id
      → keep_vault_id c vault_id x
        ≡ (ok tt, record x { client = record x.client { vault_id = vault_id_after vault_id id } })
  unfolding keep_vault_id ◌>>=◌
  keep_vault_id_lem [] id x e d = rw d refl
  keep_vault_id_lem (b ∷ bs) id x e d = rw (← e) refl

  -- The world behind an AUTH_OK that carries these.
  abbrev pub after_auth_ok : Bytes → ℕ → ℕ → Bytes → World → World
  after_auth_ok token expiry version id x = record x {
    client = record x.client {
      session_token = token;
      token_expiry = expiry;
      vault_version = version;
      vault_id = vault_id_after x.client.vault_id id;
    };
  }

  -- The client reads the server's AUTH_OK as the token, the expiry and the version that the server
  -- put in, and keeps the identifier of the vault that it has, or takes the default one.
  pub parse_auth_ok-build_auth_ok :
      (token : Bytes) (expiry version : ℕ) (id : Bytes) (x : World) {payload : Bytes}
      → build_auth_ok token expiry version ≡ ok payload
      → default_vault_id c x.client.login_name ≡ ok id
      → parse_auth_ok c payload x ≡ (ok tt, after_auth_ok token expiry version id x)
  unfolding build_auth_ok parse_auth_ok ◌>>=◌ pack Reader.lpbytes
  parse_auth_ok-build_auth_ok token expiry version id x {payload} h d =
      let n = length token in
      let a : n < 256 ^ 2 = ground arith in
      let b : expiry < 256 ^ 8 = ground arith in
      let e : version < 256 ^ 8 = ground arith in
      let s = to_le 2 n in
      let t = to_le 8 expiry in
      let v = to_le 8 version in
      let whole : payload ≡ s ++ (token ++ (t ++ v)) = ground arith in
      let start : At (reader payload) ((s ++ token) ++ (t ++ v)) = record {
        ahead = whole ∙ sym (append_assoc s token (t ++ v));
        within = omega arith;
      } in
      let read_token : Reads Reader.lpbytes (s ++ token) token =
        Reads-bind Reader.u16 (λ k. Reader.raw k) (Reads-field 2 n a) (Reads-raw n token refl) in
      let (r1, e1, h1) = read_token.run (reader payload) (t ++ v) start in
      let (r2, e2, h2) = (Reads-field 8 expiry b).run r1 v h1 in
      let (r3, e3, h3) = (Reads-field 8 version e).run r2 [] (rw append-nil h2) in
      rw (e1, e2, e3) (keep_vault_id_lem x.client.vault_id id _ refl d)
