-- ===== src/Client/Console/Offline.antt =====
-- The console of client-py/secvault.py without a connection.
use pus_proj.Common.{ℕ, ◌≡◌, refl, ◌∙◌, false, Option, List}
use pus_proj.Bytes.{Bytes}
use pus_proj.Text.{Text}
use pus_proj.Client.Act.{ClientCrypto, Link}
use pus_proj.Client.Upkeep.{Outside}
use pus_proj.Client.Commands.{App, Command, run, quit}
use pus_proj.Client.Commands.Runs.{run_offline}
use pus_proj.Client.Console.{Around, console}
use pus_proj.Client.Console.Typed.{Ran-keeps}
use pus_proj.Client.Console.Follows.{console-IsRun}

-- Offline, with this connection and this content of the cache file.
abbrev pub Untouched : Option Link → Option Bytes → App → Type 0
Untouched conn file a = (a.online ≡ false) × (a.world.conn ≡ conn) × (a.cache ≡ file)

module _ (c : ClientCrypto) where
  run-Untouched :
      (conn : Option Link) (file : Option Bytes) (cmd : Command) (a : App)
      → Untouched conn file a
      → Untouched conn file (run c cmd a)
  run-Untouched conn file cmd a (off, same, kept) =
      let (off', same', kept') = run_offline c cmd a off in (off', same' ∙ same, kept' ∙ kept)

  pub quit_offline :
      (o : Outside) (iv1 iv2 iv3 : Bytes) (a : App) → a.online ≡ false → quit c o iv1 iv2 iv3 a ≡ a
  unfolding quit
  quit_offline o iv1 iv2 iv3 a off = rw off refl

  pub console-Untouched :
      (around : ℕ → Around) (lines : List Text) (a : App)
      → a.online ≡ false
      → Untouched a.world.conn a.cache (console c around lines a).app
  console-Untouched around lines a off =
      let (done, (n, small, ran)) = console-IsRun c around lines a in
      Ran-keeps c (Untouched a.world.conn a.cache) (run-Untouched a.world.conn a.cache) ran
        (off, refl, refl)
