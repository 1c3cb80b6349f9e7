-- ===== src/Client/Line.antt =====
-- How main of client-py/secvault.py takes a typed line apart, lines 249 to 253: Python's
-- str.split(maxsplit=1) and str.strip.
use pus_proj.Common.{
  ℕ, ◌≡◌, refl, ◌∙◌, Bool, true, false, ◌&&◌, ◌||◌, Option, none, some, [], ◌∷◌, ◌++◌, leb, ◌==◌,
  if◌then◌else◌, All,
}
use pus_proj.Text.{Text}

-- str.isspace of one character.
unfoldable pub is_space : ℕ → Bool
is_space c =
    leb 9 c && leb c 13
    || (leb 28 c && leb c 32
        || (c == 0x85
            || (c == 0xA0
                || (c == 0x1680
                    || (leb 0x2000 c && leb c 0x200A
                        || (c == 0x2028
                            || (c == 0x2029 || (c == 0x202F || (c == 0x205F || c == 0x3000)))))))))

-- lstrip, rstrip and strip
unfoldable pub lstrip : Text → Text
lstrip [] = []
lstrip (c ∷ cs) = if is_space c then lstrip cs else c ∷ cs

unfoldable pub rstrip : Text → Text
rstrip [] = []
rstrip (c ∷ cs) = elim (rstrip cs) [ [] ↦ if is_space c then [] else c ∷ [] | d ∷ ds ↦ c ∷ d ∷ ds ]

unfoldable pub strip : Text → Text
unfolding lstrip rstrip
strip t = rstrip (lstrip t)

-- The first word of a text that begins with one, and what is behind it.
unfoldable pub first_word : Text → Text × Text
first_word [] = ([], [])
first_word (c ∷ cs) =
    let rest = first_word cs in if is_space c then ([], c ∷ cs) else (c ∷ rest.0, rest.1)

-- The command and its argument of a text that begins with no white character.
unfoldable pub parts_of : Text → Option (Text × Text)
unfolding first_word strip
parts_of [] = none
parts_of (c ∷ cs) = let (word, rest) = first_word (c ∷ cs) in some (word, strip (lstrip rest))

-- The command and its argument; `none` is a line without a word.
unfoldable pub split_line : Text → Option (Text × Text)
unfolding lstrip parts_of
split_line line = parts_of (lstrip line)

-- Characters that are all white, and a text without white ones.
abbrev pub IsBlank : Text → Type 0
IsBlank = All (λ c. is_space c ≡ true)

abbrev pub IsWord : Text → Type 0
IsWord = All (λ c. is_space c ≡ false)

-- A text that neither begins nor ends with a white character.
abbrev pub StartsDark : Text → Type 0
StartsDark [] = Unit
StartsDark (c ∷ cs) = is_space c ≡ false

abbrev pub IsTrim : Text → Type 0
IsTrim t = StartsDark t × (rstrip t ≡ t)

lstrip-append : (pad t : Text) → IsBlank pad → lstrip (pad ++ t) ≡ lstrip t
unfolding lstrip
lstrip-append [] t h = refl
lstrip-append (c ∷ pad) t (h, hs) = rw h (lstrip-append pad t hs)

rstrip_blank : (pad : Text) → IsBlank pad → rstrip pad ≡ []
unfolding rstrip
rstrip_blank [] h = refl
rstrip_blank (c ∷ pad) (h, hs) = rw (rstrip_blank pad hs, h) refl

rstrip-append : (t pad : Text) → IsBlank pad → rstrip (t ++ pad) ≡ rstrip t
unfolding rstrip
rstrip-append [] pad h = rstrip_blank pad h
rstrip-append (c ∷ t) pad h = rw (rstrip-append t pad h) refl

first_word-append :
    (w : Text) (c : ℕ) (rest : Text)
    → IsWord w
    → is_space c ≡ true
    → first_word (w ++ (c ∷ rest)) ≡ (w, c ∷ rest)
unfolding first_word
first_word-append [] c rest h s = rw s refl
first_word-append (d ∷ w) c rest (h, hs) s = rw (h, first_word-append w c rest hs s) refl

first_word_all : (w : Text) → IsWord w → first_word w ≡ (w, [])
unfolding first_word
first_word_all [] h = refl
first_word_all (d ∷ w) (h, hs) = rw (h, first_word_all w hs) refl

lstrip_dark : (t : Text) → StartsDark t → lstrip t ≡ t
unfolding lstrip
lstrip_dark [] h = refl
lstrip_dark (c ∷ t) h = rw h refl

lstrip_blank : (pad : Text) → IsBlank pad → lstrip pad ≡ []
unfolding lstrip
lstrip_blank [] h = refl
lstrip_blank (c ∷ pad) (h, hs) = rw h (lstrip_blank pad hs)

-- White characters behind a trimmed text are taken off again.
strip-append : (t pad : Text) → IsTrim t → IsBlank pad → strip (lstrip (t ++ pad)) ≡ t
unfolding strip
strip-append [] pad (dark, trim) blank = rw (lstrip_blank pad blank) refl
strip-append (c ∷ t) pad (dark, trim) blank =
    rw (lstrip_dark ((c ∷ t) ++ pad) dark, lstrip_dark ((c ∷ t) ++ pad) dark)
      (rstrip-append (c ∷ t) pad blank ∙ trim)

-- However many white characters stand before, between and behind them, the console reads a word and
-- an argument without white characters at its ends as that command and that argument.
pub split_line-typed :
    (pad : Text) (c : ℕ) (word : Text) (s : ℕ) (gap arg tail : Text)
    → IsBlank pad
    → IsWord (c ∷ word)
    → IsBlank (s ∷ gap)
    → IsTrim arg
    → IsBlank tail
    → split_line (pad ++ ((c ∷ word) ++ ((s ∷ gap) ++ (arg ++ tail)))) ≡ some (c ∷ word, arg)
unfolding split_line
split_line-typed pad c word s gap arg tail blank (dark, w) (white, g) trim end =
    let rest = (s ∷ gap) ++ (arg ++ tail) in
    let start =
      lstrip-append pad ((c ∷ word) ++ rest) blank ∙ lstrip_dark ((c ∷ word) ++ rest) dark in
    let cut = first_word-append (c ∷ word) s (gap ++ (arg ++ tail)) (dark, w) white in
    let behind = lstrip-append (s ∷ gap) (arg ++ tail) (white, g) in
    rw (start, cut, behind, strip-append arg tail trim end) refl
