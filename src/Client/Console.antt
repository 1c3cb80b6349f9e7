-- ===== src/Client/Console.antt =====
-- The console of client-py/secvault.py: what is typed, the loop of main, lines 243 to 338, and what
-- the commands on the vault print. A line that is typed is an element of a list, whose end is the end
-- of the input.
pub mod Typed
pub mod Follows
pub mod Offline
use pus_proj.Common.{
  ℕ, zero, suc, ◌+◌, Bool, true, false, not, ◌||◌, Option, none, some, List, [], ◌∷◌, ◌++◌, length,
  if◌then◌else◌,
}
use pus_proj.Bytes.{Bytes}
use pus_proj.Text.{Text, codes}
use pus_proj.Client.Vault.{Entry, Vault, text_eq, find, remove}
use pus_proj.Client.Act.{ClientCrypto}
use pus_proj.Client.Upkeep.{Outside}
use pus_proj.Client.Line.{split_line}
use pus_proj.Client.Commands.{
  App, Command, add_entry, edit_entry, remove_entry, sync_now, pull_now, ping_now, run,
}

-- read_line, whose `none` is EOFError, and read_password, which makes an empty text of it.
unfoldable pub read_line : List Text → Option (Text × List Text)
read_line [] = none
read_line (line ∷ lines) = some (line, lines)

unfoldable pub read_password : List Text → Text × List Text
read_password [] = ([], [])
read_password (line ∷ lines) = (line, lines)

-- What is printed, but for the prompts: the lines of print_entry, a line of `ls`, and the messages.
pub data Shown : Type 0 where
  id_line service_line login_line password_line notes_line : Text → Shown
  listed : Text → Text → Text → Shown
  help_text empty_vault added enter_keeps changed removed offline : Shown
  not_found unknown_command : Text → Shown

unfoldable pub print_entry : Entry → Bool → List Shown
print_entry e show_password =
    id_line e.id
    ∷ service_line e.service
    ∷ login_line e.username
    ∷ password_line (if show_password then e.password else codes "********")
    ∷ elim e.notes [ [] ↦ [] | c ∷ cs ↦ notes_line e.notes ∷ [] ]

-- `ls`
unfoldable pub list_entries : Vault → List Shown
list_entries [] = []
list_entries (e ∷ entries) = listed e.id e.service e.username ∷ list_entries entries

unfoldable pub ls : Vault → List Shown
unfolding list_entries
ls [] = empty_vault ∷ []
ls (e ∷ entries) = list_entries (e ∷ entries)

-- `get`
unfoldable pub get : Text → Vault → List Shown
unfolding find print_entry
get key entries = elim (find key entries) [
  | none ↦ not_found key ∷ []
  | some e ↦ print_entry e true
]

-- The branches on `cmd`.
pub data Asked : Type 0 where
  help list_all add_one sync pull ping quit : Asked
  get_one edit_one remove_one unknown : Text → Asked

unfoldable pub ask : Text → Text → Asked
ask cmd arg =
    if text_eq cmd (codes "help")
    then help
    else if text_eq cmd (codes "ls")
    then list_all
    else if text_eq cmd (codes "get")
    then get_one arg
    else if text_eq cmd (codes "add")
    then add_one
    else if text_eq cmd (codes "edit")
    then edit_one arg
    else if text_eq cmd (codes "rm") || text_eq cmd (codes "delete")
    then remove_one arg
    else if text_eq cmd (codes "sync")
    then sync
    else if text_eq cmd (codes "pull")
    then pull
    else if text_eq cmd (codes "ping")
    then ping
    else if text_eq cmd (codes "quit") || text_eq cmd (codes "exit")
    then quit
    else unknown cmd

-- What a command gets from outside besides the lines: random bytes, the clock, the connection, and
-- the nonces of the encryptions.
pub record Around : Type 0 where
  pub random : Bytes
  pub now : ℕ
  pub outside : Outside
  pub iv1 : Bytes
  pub iv2 : Bytes
  pub iv3 : Bytes
  pub iv4 : Bytes

-- How a round of the loop ends: it goes on with the lines that are left, it leaves the loop, or an
-- EOFError leaves main.
pub data Turn : Type 0 where
  goes_on : App → List Text → List Shown → Turn
  ends eof_raised : Turn

-- The questions of `add` and those of `edit`.
unfoldable pub read_new : List Text → Option ((Text × (Text × (Text × Text))) × List Text)
unfolding read_line read_password
read_new lines = elim (read_line lines) [
  | none ↦ none
  | some (service, l1) ↦ elim (read_line l1) [
    | none ↦ none
    | some (username, l2) ↦
        let (pw, l3) = read_password l2 in
        elim (read_line l3) [
          | none ↦ none
          | some (notes, l4) ↦ some ((service, (username, (pw, notes))), l4)
        ]
  ]
]

unfoldable pub read_changes : List Text → Option ((Text × (Text × Text)) × List Text)
unfolding read_line read_password
read_changes lines = elim (read_line lines) [
  | none ↦ none
  | some (u, l1) ↦
      let (pw, l2) = read_password l1 in
      elim (read_line l2) [ none ↦ none | some (n, l3) ↦ some ((u, (pw, n)), l3) ]
]

-- A command that needs the server prints its own messages, which are left out.
abbrev pub offline_note : App → List Shown
offline_note a = if a.online then [] else offline ∷ []

-- How the loop ends, with all that it has printed.
pub data Ending : Type 0 where
  left_loop eof_error unfinished : Ending

pub record Over : Type 0 where
  pub app : App
  pub shown : List Shown
  pub ending : Ending

abbrev pub after_turn : (List Text → App → Over) → Turn → App → Over
after_turn rest (goes_on b lines shown) a = record (rest lines b) {
  shown = shown ++ (rest lines b).shown;
}
after_turn rest ends a = record { app = a; shown = []; ending = left_loop }
after_turn rest eof_raised a = record { app = a; shown = []; ending = eof_error }

module _ (c : ClientCrypto) where
  unfoldable pub add_typed :
      Around → Option ((Text × (Text × (Text × Text))) × List Text) → App → Turn
  unfolding run
  add_typed o none a = eof_raised
  add_typed o (some ((service, (username, (pw, notes))), lines)) a =
      goes_on (run c (add_entry o.random o.now service username pw notes) a) lines (added ∷ [])

  unfoldable pub edit_typed :
      Around → Text → Option ((Text × (Text × Text)) × List Text) → App → Turn
  unfolding run
  edit_typed o key none a = eof_raised
  edit_typed o key (some ((u, (pw, n)), lines)) a =
      goes_on (run c (edit_entry key u pw n o.now) a) lines (enter_keeps ∷ changed ∷ [])

  unfoldable pub edit_of : Around → Text → Option Entry → List Text → App → Turn
  unfolding edit_typed read_changes
  edit_of o key none lines a = goes_on a lines (not_found key ∷ [])
  edit_of o key (some e) lines a = edit_typed o key (read_changes lines) a

  -- The branches, lines 255 to 338.
  unfoldable pub perform : Asked → Around → List Text → App → Turn
  unfolding run ls get find remove add_typed read_new edit_of
  perform help o lines a = goes_on a lines (help_text ∷ [])
  perform list_all o lines a = goes_on a lines (ls a.world.vault)
  perform (get_one key) o lines a = goes_on a lines (get key a.world.vault)
  perform add_one o lines a = add_typed o (read_new lines) a
  perform (edit_one key) o lines a = edit_of o key (find key a.world.vault) lines a
  perform (remove_one key) o lines a =
      goes_on (run c (remove_entry key) a) lines
        (if (remove key a.world.vault).0 then removed ∷ [] else not_found key ∷ [])
  perform sync o lines a =
      goes_on (run c (sync_now o.outside o.iv1 o.iv2 o.iv3 o.iv4) a) lines (offline_note a)
  perform pull o lines a = goes_on (run c (pull_now o.outside) a) lines (offline_note a)
  perform ping o lines a = goes_on (run c (ping_now o.outside) a) lines (offline_note a)
  perform quit o lines a = ends
  perform (unknown cmd) o lines a = goes_on a lines (unknown_command cmd ∷ [])

  unfoldable pub perform_line : Option (Text × Text) → Around → List Text → App → Turn
  unfolding perform ask
  perform_line none o lines a = goes_on a lines []
  perform_line (some (cmd, arg)) o lines a = perform (ask cmd arg) o lines a

  -- One round of the loop; the end of the input at the prompt leaves it.
  unfoldable pub take_turn : Around → List Text → App → Turn
  unfolding perform_line split_line
  take_turn o [] a = ends
  take_turn o (line ∷ lines) a = perform_line (split_line line) o lines a

  -- The loop, with what the i-th round gets from outside. A round that goes on has taken a line, so
  -- one more round than there are lines is enough; `unfinished` is the end of the fuel.
  unfoldable pub loop : ℕ → ℕ → (ℕ → Around) → List Text → App → Over
  unfolding take_turn
  loop zero i around lines a = record { app = a; shown = []; ending = unfinished }
  loop (suc fuel) i around lines a =
      after_turn (loop fuel (i + 1) around) (take_turn (around i) lines a) a

  unfoldable pub console : (ℕ → Around) → List Text → App → Over
  unfolding loop
  console around lines a = loop (suc (length lines)) 0 around lines a
