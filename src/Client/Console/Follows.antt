-- ===== src/Client/Console/Follows.antt =====
-- The loop of the console of client-py/secvault.py follows the rules of Console/Typed.
use pus_proj.Common.{
  ℕ, zero, suc, ◌+◌, ◌<◌, ◌≤◌, ◌≡◌, ◌≢◌, refl, sym, ap, ◌∙◌, ◌⊎◌, inl, inr, Bool, true, false, ◌||◌,
  Option, none, some, List, [], ◌∷◌, subst, length, Bool-cases, arith, if◌then◌else◌,
}
use pus_proj.Bytes.{bytes_eq→eq}
use pus_proj.Text.{Text, codes}
use pus_proj.Client.Vault.{Entry, text_eq, find}
use pus_proj.Client.Act.{ClientCrypto}
use pus_proj.Client.Line.{split_line}
use pus_proj.Client.Commands.{App}
use pus_proj.Client.Console.{
  Asked, help, list_all, add_one, sync, pull, ping, quit, get_one, edit_one, remove_one, unknown,
  ask, Around, Turn, goes_on, ends, eof_raised, read_line, read_password, read_new, read_changes,
  add_typed, edit_typed, edit_of, perform, perform_line, take_turn, Over, left_loop, eof_error,
  unfinished, unknown_command, after_turn, loop, console,
}
use pus_proj.Client.Console.Typed.{
  IsUnknown, IsRemove, IsQuit, Round, blank, helps, lists, gets, unknowns, missed, adds, edits,
  removes, syncs, pulls, pings, Stop, no_line, quits, add_cut, edit_cut, Ran, last, more,
}

-- What a branch says of the word and the argument.
abbrev Means : Text → Text → Asked → Type 0
Means cmd arg add_one = cmd ≡ codes "add"
Means cmd arg (edit_one key) = (cmd ≡ codes "edit") × (key ≡ arg)
Means cmd arg (remove_one key) = IsRemove cmd × (key ≡ arg)
Means cmd arg sync = cmd ≡ codes "sync"
Means cmd arg pull = cmd ≡ codes "pull"
Means cmd arg ping = cmd ≡ codes "ping"
Means cmd arg quit = IsQuit cmd
Means cmd arg help = cmd ≡ codes "help"
Means cmd arg list_all = cmd ≡ codes "ls"
Means cmd arg (get_one key) = (cmd ≡ codes "get") × (key ≡ arg)
Means cmd arg (unknown w) = IsUnknown cmd × (w ≡ cmd)

branch :
    (P : Asked → Type 0) (b : Bool) (x y : Asked)
    → (b ≡ true → P x)
    → (b ≡ false → P y)
    → P (if b then x else y)
branch P true x y t f = t refl
branch P false x y t f = f refl

either_word : (cmd v w : Text) → (text_eq cmd v || text_eq cmd w) ≡ true → (cmd ≡ v) ⊎ (cmd ≡ w)
either_word cmd v w h = elim (Bool-cases (text_eq cmd v)) [
  | inl e ↦ inl (bytes_eq→eq cmd v e)
  | inr e ↦ inr (bytes_eq→eq cmd w (ground arith))
]

neither_word :
    (cmd v w : Text)
    → (text_eq cmd v || text_eq cmd w) ≡ false
    → (text_eq cmd v ≡ false) × (text_eq cmd w ≡ false)
neither_word cmd v w h = (ground arith, ground arith)

ask-Means : (cmd arg : Text) → Means cmd arg (ask cmd arg)
unfolding ask
ask-Means cmd arg =
    let is = λ (w : Text). bytes_eq→eq cmd w in
    branch (Means cmd arg) _ help _ (is (codes "help")) λ n1.
      branch (Means cmd arg) _ list_all _ (is (codes "ls")) λ n2.
        branch (Means cmd arg) _ (get_one arg) _ (λ e. (is (codes "get") e, refl))
          λ n3. branch (Means cmd arg) _ add_one _ (is (codes "add")) λ n4.
            branch (Means cmd arg) _ (edit_one arg) _ (λ e. (is (codes "edit") e, refl))
              λ n5.
                branch (Means cmd arg) _ (remove_one arg) _
                  (λ e. (either_word cmd (codes "rm") (codes "delete") e, refl))
                  λ n6. branch (Means cmd arg) _ sync _ (is (codes "sync")) λ n7.
                    branch (Means cmd arg) _ pull _ (is (codes "pull")) λ n8.
                      branch (Means cmd arg) _ ping _ (is (codes "ping")) λ n9.
                        branch (Means cmd arg) _ quit (unknown cmd)
                          (either_word cmd (codes "quit") (codes "exit"))
                          λ n0.
                            let (rm, delete) = neither_word cmd (codes "rm") (codes "delete") n6 in
                            let (q, x) = neither_word cmd (codes "quit") (codes "exit") n0 in
                            (
                              (
                                n1,
                                (
                                  n2,
                                  (n3, (n4, (n5, (rm, (delete, (n7, (n8, (n9, (q, (x, tt)))))))))),
                                ),
                              ),
                              refl,
                            )

-- A round follows the rules, and one that goes on has fewer lines left.
abbrev Follows : ClientCrypto → Around → App → List Text → Turn → Type 0
Follows c o a lines (goes_on b rest shown) =
    Round c o a lines rest b shown × (length rest < length lines)
Follows c o a lines ends = Stop a lines left_loop
Follows c o a lines eof_raised = Stop a lines eof_error

module _ (c : ClientCrypto) (o : Around) (a : App) (line : Text) where
  add_typed-Follows :
      (arg : Text) (lines : List Text)
      → split_line line ≡ some (codes "add", arg)
      → Follows c o a (line ∷ lines) (add_typed c o (read_new lines) a)
  unfolding add_typed read_new read_line read_password
  add_typed-Follows arg [] h = add_cut h (omega arith)
  add_typed-Follows arg (s ∷ []) h = add_cut h (omega arith)
  add_typed-Follows arg (s ∷ u ∷ []) h = add_cut h (omega arith)
  add_typed-Follows arg (s ∷ u ∷ p ∷ []) h = add_cut h (omega arith)
  add_typed-Follows arg (s ∷ u ∷ p ∷ t ∷ lines) h = (adds h, omega arith)

  edit_of-Follows :
      (key : Text) (found : Option Entry) (lines : List Text)
      → find key a.world.vault ≡ found
      → split_line line ≡ some (codes "edit", key)
      → Follows c o a (line ∷ lines) (edit_of c o key found lines a)
  unfolding edit_of edit_typed read_changes read_line read_password
  edit_of-Follows key none lines f h = (missed h f, omega arith)
  edit_of-Follows key (some e) [] f h = edit_cut h f (omega arith)
  edit_of-Follows key (some e) (u ∷ []) f h = edit_cut h f (omega arith)
  edit_of-Follows key (some e) (u ∷ p ∷ []) f h = edit_cut h f (omega arith)
  edit_of-Follows key (some e) (u ∷ p ∷ t ∷ lines) f h = (edits h f, omega arith)

  word :
      {cmd arg w : Text}
      → split_line line ≡ some (cmd, arg)
      → cmd ≡ w
      → split_line line ≡ some (w, arg)
  word {cmd} {arg} {w} h e = h ∙ ap (λ x. some (x, arg)) e

  perform-Follows :
      (q : Asked) (cmd arg : Text) (lines : List Text)
      → split_line line ≡ some (cmd, arg)
      → Means cmd arg q
      → Follows c o a (line ∷ lines) (perform c q o lines a)
  unfolding perform
  perform-Follows help cmd arg lines h m = (helps (word h m), omega arith)
  perform-Follows list_all cmd arg lines h m = (lists (word h m), omega arith)
  perform-Follows (get_one key) cmd arg lines h (m, same) =
      (gets (word h m ∙ ap (λ x. some (codes "get", x)) (sym same)), omega arith)
  perform-Follows (unknown w) cmd arg lines h (m, same) = (
    subst (λ x. Round c o a (line ∷ lines) lines a (unknown_command x ∷ [])) (sym same)
        (unknowns h m),
    omega arith,
  )
  perform-Follows add_one cmd arg lines h m = add_typed-Follows arg lines (word h m)
  perform-Follows (edit_one key) cmd arg lines h (m, same) =
      edit_of-Follows key (find key a.world.vault) lines refl
        (word h m ∙ ap (λ x. some (codes "edit", x)) (sym same))
  perform-Follows (remove_one key) cmd arg lines h (m, same) =
      (removes (h ∙ ap (λ x. some (cmd, x)) (sym same)) m, omega arith)
  perform-Follows sync cmd arg lines h m = (syncs (word h m), omega arith)
  perform-Follows pull cmd arg lines h m = (pulls (word h m), omega arith)
  perform-Follows ping cmd arg lines h m = (pings (word h m), omega arith)
  perform-Follows quit cmd arg lines h m = quits h m

  perform_line-Follows :
      (parts : Option (Text × Text)) (lines : List Text)
      → split_line line ≡ parts
      → Follows c o a (line ∷ lines) (perform_line c parts o lines a)
  unfolding perform_line
  perform_line-Follows none lines h = (blank h, omega arith)
  perform_line-Follows (some (cmd, arg)) lines h =
      perform-Follows (ask cmd arg) cmd arg lines h (ask-Means cmd arg)

module _ (c : ClientCrypto) where
  take_turn-Follows :
      (o : Around) (a : App) (lines : List Text) → Follows c o a lines (take_turn c o lines a)
  unfolding take_turn
  take_turn-Follows o a [] = no_line
  take_turn-Follows o a (line ∷ lines) =
      perform_line-Follows c o a line (split_line line) lines refl

  -- What the loop promises: it ends by the rules, in at most one more round than lines are typed.
  abbrev pub IsRun : (ℕ → Around) → ℕ → List Text → App → Over → Type 0
  IsRun around i lines a over =
      (over.ending ≢ unfinished)
      × ((n : ℕ) × (n ≤ length lines + 1)
          × Ran c around i lines a n over.app over.shown over.ending)

  after_turn-IsRun :
      (around : ℕ → Around) (i : ℕ) (rest : List Text → App → Over) (turn : Turn)
      (lines : List Text) (a : App)
      → Follows c (around i) a lines turn
      → ((ls : List Text) (b : App)
          → length ls < length lines
          → IsRun around (i + 1) ls b (rest ls b))
      → IsRun around i lines a (after_turn rest turn a)
  after_turn-IsRun around i rest (goes_on b ls shown) lines a (r, fewer) done =
      let (ending, (n, small, ran)) = done ls b fewer in (ending, (suc n, omega arith, more r ran))
  after_turn-IsRun around i rest ends lines a s done = (λ e. cc, (1, omega arith, last s))
  after_turn-IsRun around i rest eof_raised lines a s done = (λ e. cc, (1, omega arith, last s))

  loop-IsRun :
      (fuel i : ℕ) (around : ℕ → Around) (lines : List Text) (a : App)
      → length lines < fuel
      → IsRun around i lines a (loop c fuel i around lines a)
  unfolding loop
  loop-IsRun zero i around lines a h = absurd (omega arith)
  loop-IsRun (suc fuel) i around lines a h =
      after_turn-IsRun around i (loop c fuel (i + 1) around) (take_turn c (around i) lines a) lines
        a (take_turn-Follows (around i) a lines)
        (λ ls b k. loop-IsRun fuel (i + 1) around ls b (omega arith))

  -- Whatever is typed, and however the server answers, the loop of main ends, in at most one round
  -- more than lines are typed, and does what the rules of Console/Typed say of these lines: in each
  -- round the command that the line names, with its argument and the answers to its questions, and
  -- at the end a quit, the end of the input at the prompt, or an EOFError in a question. What it prints
  -- is what the rounds print, one after the other.
  pub console-IsRun :
      (around : ℕ → Around) (lines : List Text) (a : App)
      → IsRun around 0 lines a (console c around lines a)
  unfolding console
  console-IsRun around lines a = loop-IsRun (suc (length lines)) 0 around lines a (omega arith)
