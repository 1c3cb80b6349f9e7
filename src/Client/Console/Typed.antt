-- ===== src/Client/Console/Typed.antt =====
-- What a user may type at the console of client-py/secvault.py, lines 243 to 338, and what it does:
-- rules for one round and for a run of the loop, which the loop follows.
use pus_proj.Common.{
  ℕ, suc, ◌+◌, ◌<◌, ◌≡◌, ◌⊎◌, false, none, some, List, [], ◌∷◌, ◌++◌, length, All, if◌then◌else◌,
}
use pus_proj.Text.{Text, codes}
use pus_proj.Client.Vault.{Entry, text_eq, find, remove}
use pus_proj.Client.Act.{ClientCrypto}
use pus_proj.Client.Line.{split_line}
use pus_proj.Client.Commands.{
  App, Command, add_entry, edit_entry, remove_entry, sync_now, pull_now, ping_now, run,
}
use pus_proj.Client.Console.{
  Shown, help_text, added, enter_keeps, changed, removed, not_found, unknown_command, ls, get,
  offline_note, Around, Ending, left_loop, eof_error,
}

-- A word that is no command.
abbrev pub IsUnknown : Text → Type 0
IsUnknown cmd =
    All (λ word. text_eq cmd word ≡ false)
      (codes "help"
        ∷ codes "ls"
        ∷ codes "get"
        ∷ codes "add"
        ∷ codes "edit"
        ∷ codes "rm"
        ∷ codes "delete"
        ∷ codes "sync"
        ∷ codes "pull"
        ∷ codes "ping"
        ∷ codes "quit"
        ∷ codes "exit"
        ∷ [])

-- The words of `rm`, and of `quit`.
abbrev pub IsRemove : Text → Type 0
IsRemove cmd = (cmd ≡ codes "rm") ⊎ (cmd ≡ codes "delete")

abbrev pub IsQuit : Text → Type 0
IsQuit cmd = (cmd ≡ codes "quit") ⊎ (cmd ≡ codes "exit")

-- A round that goes on: from the lines that are still to be read to those that it leaves, the state
-- behind it and what it prints.
pub data Round (c : ClientCrypto) (o : Around) (a : App)
    : List Text → List Text → App → List Shown → Type 0 where
  blank :
      {line : Text} {lines : List Text}
      → split_line line ≡ none
      → Round c o a (line ∷ lines) lines a []
  helps :
      {line arg : Text} {lines : List Text}
      → split_line line ≡ some (codes "help", arg)
      → Round c o a (line ∷ lines) lines a (help_text ∷ [])
  lists :
      {line arg : Text} {lines : List Text}
      → split_line line ≡ some (codes "ls", arg)
      → Round c o a (line ∷ lines) lines a (ls a.world.vault)
  gets :
      {line key : Text} {lines : List Text}
      → split_line line ≡ some (codes "get", key)
      → Round c o a (line ∷ lines) lines a (get key a.world.vault)
  unknowns :
      {line cmd arg : Text} {lines : List Text}
      → split_line line ≡ some (cmd, arg)
      → IsUnknown cmd
      → Round c o a (line ∷ lines) lines a (unknown_command cmd ∷ [])
  missed :
      {line key : Text} {lines : List Text}
      → split_line line ≡ some (codes "edit", key)
      → find key a.world.vault ≡ none
      → Round c o a (line ∷ lines) lines a (not_found key ∷ [])
  adds :
      {line arg service username pw notes : Text} {lines : List Text}
      → split_line line ≡ some (codes "add", arg)
      → Round c o a
          (line ∷ service ∷ username ∷ pw ∷ notes ∷ lines)
          lines
          (run c (add_entry o.random o.now service username pw notes) a)
          (added ∷ [])
  edits :
      {line key u pw n : Text} {lines : List Text} {e : Entry}
      → split_line line ≡ some (codes "edit", key)
      → find key a.world.vault ≡ some e
      → Round c o a
          (line ∷ u ∷ pw ∷ n ∷ lines)
          lines
          (run c (edit_entry key u pw n o.now) a)
          (enter_keeps ∷ changed ∷ [])
  removes :
      {line cmd key : Text} {lines : List Text}
      → split_line line ≡ some (cmd, key)
      → IsRemove cmd
      → Round c o a
          (line ∷ lines)
          lines
          (run c (remove_entry key) a)
          (if (remove key a.world.vault).0 then removed ∷ [] else not_found key ∷ [])
  syncs :
      {line arg : Text} {lines : List Text}
      → split_line line ≡ some (codes "sync", arg)
      → Round c o a
          (line ∷ lines)
          lines
          (run c (sync_now o.outside o.iv1 o.iv2 o.iv3 o.iv4) a)
          (offline_note a)
  pulls :
      {line arg : Text} {lines : List Text}
      → split_line line ≡ some (codes "pull", arg)
      → Round c o a (line ∷ lines) lines (run c (pull_now o.outside) a) (offline_note a)
  pings :
      {line arg : Text} {lines : List Text}
      → split_line line ≡ some (codes "ping", arg)
      → Round c o a (line ∷ lines) lines (run c (ping_now o.outside) a) (offline_note a)

-- A round that does not: the end of the input at the prompt, a word that leaves the loop, or the end
-- of the input behind one of the questions of `add` or `edit`.
pub data Stop (a : App) : List Text → Ending → Type 0 where
  no_line : Stop a [] left_loop
  quits :
      {line cmd arg : Text} {lines : List Text}
      → split_line line ≡ some (cmd, arg)
      → IsQuit cmd
      → Stop a (line ∷ lines) left_loop
  add_cut :
      {line arg : Text} {lines : List Text}
      → split_line line ≡ some (codes "add", arg)
      → length lines < 4
      → Stop a (line ∷ lines) eof_error
  edit_cut :
      {line key : Text} {lines : List Text} {e : Entry}
      → split_line line ≡ some (codes "edit", key)
      → find key a.world.vault ≡ some e
      → length lines < 3
      → Stop a (line ∷ lines) eof_error

-- A run of the loop from round `i` on: the number of its rounds, the state at its end, what it has
-- printed, and how it ended.
pub data Ran (c : ClientCrypto) (around : ℕ → Around)
    : ℕ → List Text → App → ℕ → App → List Shown → Ending → Type 0 where
  last :
      {i : ℕ} {lines : List Text} {a : App} {how : Ending}
      → Stop a lines how
      → Ran c around i lines a 1 a [] how
  more :
      {i n : ℕ} {lines rest : List Text} {a b d : App} {shown then_shown : List Shown}
      {how : Ending}
      → Round c (around i) a lines rest b shown
      → Ran c around (i + 1) rest b n d then_shown how
      → Ran c around i lines a (suc n) d (shown ++ then_shown) how

-- What every command keeps, a run keeps.
module _ (c : ClientCrypto) (P : App → Type 0)
    (keep : (cmd : Command) (b : App) → P b → P (run c cmd b)) where
  Round-keeps :
      {o : Around} {a b : App} {lines rest : List Text} {shown : List Shown}
      → Round c o a lines rest b shown
      → P a
      → P b
  Round-keeps (blank h) p = p
  Round-keeps (helps h) p = p
  Round-keeps (lists h) p = p
  Round-keeps (gets h) p = p
  Round-keeps (unknowns h w) p = p
  Round-keeps (missed h f) p = p
  Round-keeps (adds h) p = keep _ _ p
  Round-keeps (edits h f) p = keep _ _ p
  Round-keeps (removes h w) p = keep _ _ p
  Round-keeps (syncs h) p = keep _ _ p
  Round-keeps (pulls h) p = keep _ _ p
  Round-keeps (pings h) p = keep _ _ p

  pub Ran-keeps :
      {around : ℕ → Around} {i n : ℕ} {lines : List Text} {a d : App} {shown : List Shown}
      {how : Ending}
      → Ran c around i lines a n d shown how
      → P a
      → P d
  Ran-keeps (last s) p = p
  Ran-keeps (more r ran) p = Ran-keeps ran (Round-keeps r p)
