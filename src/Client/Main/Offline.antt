-- ===== src/Client/Main/Offline.antt =====
-- main of client-py/secvault.py under --offline.
use pus_proj.Common.{
  ℕ, ◌≡◌, ◌≢◌, ◌⊎◌, refl, sym, ap, ◌∙◌, inl, inr, true, false, ◌++◌, Option, none, some, List, [],
  ◌∷◌,
}
use pus_proj.Common.Results.{ok, Result-cases}
use pus_proj.Bytes.{Bytes}
use pus_proj.Text.{Text, encode_text}
use pus_proj.Client.Vault.Parsing.{decrypt}
use pus_proj.Client.Vault.{Vault}
use pus_proj.Client.Cache.{Cached, load_cache}
use pus_proj.Client.Act.{ClientCrypto, World, new_client, ◌>>=◌}
use pus_proj.Client.Login.{derive_keys, salt_prefix}
use pus_proj.Client.Commands.{App}
use pus_proj.Client.Start.{with_cached, open_cached, go_offline, after_keys}
use pus_proj.Client.Console.{
  Shown, Ending, left_loop, eof_error, unfinished, read_line, read_password, console,
}
use pus_proj.Client.Console.Typed.{Ran}
use pus_proj.Client.Console.Follows.{console-IsRun}
use pus_proj.Client.Console.Offline.{quit_offline, console-Untouched}
use pus_proj.Client.Main.{
  Setting, status, eof, finish, after_start, mode_line, begin_with, main_for, main,
}

module _ (c : ClientCrypto) where
  conn-derive_keys :
      (login password : Text) (x : World) → (derive_keys c login password x).1.conn ≡ x.conn
  unfolding derive_keys ◌>>=◌
  conn-derive_keys login password x = elim (Result-cases (encode_text login)) [
    | inr (e, p) ↦ rw p refl
    | inl (l, p) ↦ elim (Result-cases (encode_text password)) [
      | inr (e, q) ↦ rw (p, q) refl
      | inl (pw, q) ↦ elim (Result-cases (encode_text (salt_prefix ++ login))) [
        | inr (e, r) ↦ rw (p, q, r) refl
        | inl (salt, r) ↦ rw (p, q, r) refl
      ]
    ]
  ]

  mode_line_offline :
      (s : Setting) (lines : List Text) → s.offline ≡ true → mode_line c s lines ≡ some ([], lines)
  unfolding mode_line
  mode_line_offline s lines off = rw off refl

  finish_cases :
      (s : Setting) (how : Ending) (a : App)
      → a.online ≡ false
      → how ≢ unfinished
      → ((how ≡ left_loop) × (finish c s how a ≡ status 0 (some a)))
        ⊎ ((how ≡ eof_error) × (finish c s how a ≡ eof a))
  unfolding finish
  finish_cases s left_loop a off ne =
      inl (
        refl,
        rw (quit_offline c s.at_end.outside s.at_end.iv1 s.at_end.iv2 s.at_end.iv3 a off) refl,
      )
  finish_cases s eof_error a off ne = inr (refl, refl)
  finish_cases s unfinished a off ne = absurd (ne refl)

  -- An offline main with a cache file that the keys of the typed name and password open runs the loop
  -- on the vault that was cached, by the rules of Console/Typed. It returns 0 when the loop was left,
  -- or passes on the EOFError of a question, and at its end there is no connection and the cache file
  -- is as it was.
  pub main_offline :
      (s : Setting) (ch : ℕ) (chs password : Text) (lines : List Text) (file : Option Bytes)
      {y : World} {cached : Cached} {v : Vault}
      → s.offline ≡ true
      → derive_keys c
          (ch ∷ chs)
          password
          (record { client = new_client s.client_id; conn = none; vault = [] })
        ≡ (ok tt, y)
      → load_cache file ≡ ok (some cached)
      → decrypt c.unseal cached.blob y.client.k_vault ≡ ok v
      → let begin : App = record {
        world = record y { vault = v };
        dirty = false;
        online = false;
        cache = file;
      } in
        let end = main c s ((ch ∷ chs) ∷ password ∷ lines) file in
        (a : App) × (n : ℕ) × (shown : List Shown) × (how : Ending) × Ran c s.around 0 lines begin n
          a shown how
        × (((how ≡ left_loop) × (end ≡ status 0 (some a))) ⊎ ((how ≡ eof_error) × (end ≡ eof a)))
        × (a.world.conn ≡ none)
        × (a.cache ≡ file)
  unfolding main main_for read_line read_password begin_with after_keys go_offline open_cached
      with_cached after_start
  main_offline s ch chs password lines file {y} {cached} {v} off keys loaded opened =
      let begin : App = record {
        world = record y { vault = v };
        dirty = false;
        online = false;
        cache = file;
      } in
      let x : World = record { client = new_client s.client_id; conn = none; vault = [] } in
      let over = console c s.around lines begin in
      let (done, (n, small, ran)) = console-IsRun c s.around lines begin in
      let (off', same, kept) = console-Untouched c s.around lines begin refl in
      let alone : y.conn ≡ none =
        ap (λ r. r.1.conn) (sym keys) ∙ conn-derive_keys (ch ∷ chs) password x in
      let run : main c s ((ch ∷ chs) ∷ password ∷ lines) file ≡ finish c s over.ending over.app =
        rw (keys, mode_line_offline s lines off, off, loaded, opened) refl in
      (
        over.app,
        n,
        over.shown,
        over.ending,
        ran,
        elim (finish_cases s over.ending over.app off' done) [
          | inl (e, f) ↦ inl (e, run ∙ f)
          | inr (e, f) ↦ inr (e, run ∙ f)
        ],
        same ∙ alone,
        kept,
      )
