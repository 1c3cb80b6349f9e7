-- ===== src/Client/Main.antt =====
-- main of client-py/secvault.py from the question for the name to its end, lines 189 to 349.
pub mod Offline
use pus_proj.Common.{
  ℕ, ◌≡◌, refl, ap, sym, ◌∙◌, ◌⊎◌, inl, inr, Bool, true, false, ◌||◌, Option, none, some, List, [],
  ◌∷◌, if◌then◌else◌,
}
use pus_proj.Common.Results.{Result, ok, err, Error, Result-cases}
use pus_proj.Bytes.{Bytes}
use pus_proj.Text.{Text, codes}
use pus_proj.Client.Vault.{text_eq}
use pus_proj.Client.Vault.Parsing.{decrypt}
use pus_proj.Client.Cache.{Cached, load_cache}
use pus_proj.Client.Act.{ClientCrypto, Link, World, new_client, ◌>>=◌}
use pus_proj.Client.Login.{connect, derive_keys}
use pus_proj.Client.Upkeep.{Outside}
use pus_proj.Client.Commands.{App, quit}
use pus_proj.Client.Start.{
  Started, begun, returned_1, raised, Opening, with_cached, open_cached, go_offline, after_keys,
}
use pus_proj.Client.Console.{
  Around, Over, Ending, left_loop, eof_error, unfinished, read_line, read_password, console,
}

-- What main gets from outside: --offline, what connecting leads to, the nonce and the time of the
-- login, and what each command and the end of main get.
pub record Setting : Type 0 where
  pub offline : Bool
  pub answer : Result Link
  pub nonce : Bytes
  pub now_ms : ℕ
  pub client_id : Bytes
  pub around : ℕ → Around
  pub at_end : Around

-- How main ends: with a status, or by an exception; `eof` is EOFError.
pub data Finish : Type 0 where
  status : ℕ → Option App → Finish
  failed : Error → Finish
  eof : App → Finish

-- The answer to the question for the mode asks for a new account.
abbrev pub is_new_account : Text → Bool
is_new_account mode = text_eq mode (codes "r") || text_eq mode (codes "R")

module _ (c : ClientCrypto) where
  -- Lines 340 to 349: after the loop.
  unfoldable pub finish : Setting → Ending → App → Finish
  unfolding quit
  finish s eof_error a = eof a
  finish s _ a = status 0 (some (quit c s.at_end.outside s.at_end.iv1 s.at_end.iv2 s.at_end.iv3 a))

  unfoldable pub after_start : Setting → List Text → Started → Finish
  unfolding console finish
  after_start s lines (begun a) =
      let over = console c s.around lines a in finish s over.ending over.app
  after_start s lines returned_1 = status 1 none
  after_start s lines (raised e) = failed e

  -- The line that answers the question for the mode, which is asked once the client is connected;
  -- `none` is EOFError.
  unfoldable pub mode_line : Setting → List Text → Option (Text × List Text)
  unfolding read_line
  mode_line s lines =
      if s.offline
      then some ([], lines)
      else elim s.answer [ ok link ↦ read_line lines | err e ↦ some ([], lines) ]

  -- Lines 199 to 239, with the lines that are left; an EOFError leads to the offline mode.
  unfoldable pub begin_with :
      Setting
      → Text
      → Option (Text × List Text)
      → Result (Unit {0})
      → World
      → Option Bytes
      → Started × List Text
  unfolding after_keys connect go_offline
  begin_with s login none (ok u) x file = (go_offline c file (connect s.answer x).1, [])
  begin_with s login none (err e) x file = (raised e, [])
  begin_with s login (some (mode, rest)) r x file =
      let o : Opening = record {
        offline = s.offline;
        answer = s.answer;
        new_account = is_new_account mode;
        nonce = s.nonce;
        now_ms = s.now_ms;
      } in
      (after_keys c o login file r x, rest)

  unfoldable pub main_for : Setting → Text → Text → List Text → Option Bytes → Finish
  unfolding derive_keys mode_line begin_with after_start
  main_for s [] password lines file = status 1 none
  main_for s (ch ∷ chs) password lines file =
      let x : World = record { client = new_client s.client_id; conn = none; vault = [] } in
      let (r, y) = derive_keys c (ch ∷ chs) password x in
      let (started, rest) = begin_with s (ch ∷ chs) (mode_line s lines) r y file in
      after_start s rest started

  -- main behind parse_args.
  unfoldable pub main : Setting → List Text → Option Bytes → Finish
  unfolding read_line read_password main_for
  main s lines file = elim (read_line lines) [
    | none ↦ status 1 none
    | some (login, l1) ↦ let (password, l2) = read_password l1 in main_for s login password l2 file
  ]
