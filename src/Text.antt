-- ===== src/Text.antt =====
-- Python's str as a list of code points, with str.encode("utf-8") and bytes.decode("utf-8") in
-- their strict form. Both programs use them for logins and for the fields of a vault.
pub mod RoundTrip
pub mod Failures
use Prim.Native.Char.{code}
use Prim.Native.String.{String}
use pus_proj.Common.{
  ℕ, zero, suc, ◌+◌, ◌-◌, ◌*◌, ◌/◌, ◌%◌, ◌&&◌, List, [], ◌∷◌, ◌++◌, ltb, leb, ◌==◌, if◌then◌else◌,
}
use pus_proj.Common.Results.{Result, ok, err, value_error, ◌>>=◌}
use pus_proj.Bytes.{Bytes}

abbrev pub Text : Type 0
Text = List ℕ

-- A literal of the source.
abbrev pub codes : String → Text
codes String.[] = []
codes (String.◌∷◌ c s) = code c ∷ codes s

-- One code point; a surrogate is a UnicodeEncodeError. Code points end below 0x110000.
unfoldable pub encode_char : ℕ → Result Bytes
encode_char c =
    if ltb c 0x80
    then ok (c ∷ [])
    else if ltb c 0x800
    then ok ((0xC0 + c / 64) ∷ (0x80 + c % 64) ∷ [])
    else if leb 0xD800 c && ltb c 0xE000
    then err value_error
    else if ltb c 0x10000
    then ok ((0xE0 + c / 4096) ∷ (0x80 + c / 64 % 64) ∷ (0x80 + c % 64) ∷ [])
    else if ltb c 0x110000
    then ok
        ((0xF0 + c / 262144) ∷ (0x80 + c / 4096 % 64) ∷ (0x80 + c / 64 % 64) ∷ (0x80 + c % 64) ∷ [])
    else err value_error

-- text.encode("utf-8")
unfoldable pub encode_text : Text → Result Bytes
encode_text [] = ok []
encode_text (c ∷ cs) = do bs ← encode_char c; rest ← encode_text cs; ok (bs ++ rest)

-- `need` bytes of a code point are still to come, the next one between `low` and `high`; `acc`
-- holds the bits so far. The bounds rule out long forms, surrogates and what is past 0x10FFFF.
unfoldable pub decode_loop : Bytes → ℕ → ℕ → ℕ → ℕ → Result Text
decode_loop [] zero acc low high = ok []
decode_loop [] (suc need) acc low high = err value_error
decode_loop (b ∷ bs) zero acc low high =
    let one = (do rest ← decode_loop bs 0 0 0x80 0xBF; ok (b ∷ rest)) in
    let two = decode_loop bs 1 (b - 0xC0) 0x80 0xBF in
    let three =
      decode_loop bs 2 (b - 0xE0) (if b == 0xE0 then 0xA0 else 0x80)
        (if b == 0xED then 0x9F else 0xBF) in
    let four =
      decode_loop bs 3 (b - 0xF0) (if b == 0xF0 then 0x90 else 0x80)
        (if b == 0xF4 then 0x8F else 0xBF) in
    if ltb b 0x80
    then one
    else if ltb b 0xC2
    then err value_error
    else if ltb b 0xE0
    then two
    else if ltb b 0xF0
    then three
    else if ltb b 0xF5
    then four
    else err value_error
decode_loop (b ∷ bs) (suc zero) acc low high =
    let c : ℕ = acc * 64 + (b - 0x80) in
    let rest = (do cs ← decode_loop bs 0 0 0x80 0xBF; ok (c ∷ cs)) in
    if leb low b && leb b high then rest else err value_error
decode_loop (b ∷ bs) (suc (suc need)) acc low high =
    let rest = decode_loop bs (suc need) (acc * 64 + (b - 0x80)) 0x80 0xBF in
    if leb low b && leb b high then rest else err value_error

-- data.decode("utf-8"); a UnicodeDecodeError is a ValueError.
unfoldable pub decode_text : Bytes → Result Text
unfolding decode_loop
decode_text bs = decode_loop bs 0 0 0x80 0xBF
