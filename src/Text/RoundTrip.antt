-- ===== src/Text/RoundTrip.antt =====
-- Decoding an encoded text gives the text back.
use pus_proj.Common.{
  ℕ, suc, ◌∙◌, ◌&&◌, ◌-◌, if◌then◌else◌, ◌+◌, ◌*◌, ◌/◌, ◌%◌, ◌≤◌, ◌<◌, ◌≡◌, [], ◌∷◌, ◌++◌, arith,
  inl, inr, ltb, leb, ◌==◌, true, false,
}
use pus_proj.Common.Results.{Result, ok, ◌>>=◌, Result-cases}
use pus_proj.Bytes.{Bytes}
use pus_proj.Text.{Text, encode_char, encode_text, decode_loop, decode_text}

abbrev start : Bytes → Result Text
start bs = decode_loop bs 0 0 0x80 0xBF

-- A code point in front of what is decoded.
abbrev cons_text : ℕ → Result Text → Result Text
cons_text c r = do cs ← r; ok (c ∷ cs)

last_byte :
    (c acc b low high : ℕ) (rest : Bytes)
    → low ≤ b
    → b ≤ high
    → acc * 64 + b ≡ c + 0x80
    → 0x80 ≤ b
    → decode_loop (b ∷ rest) 1 acc low high ≡ cons_text c (start rest)
unfolding decode_loop
last_byte c acc b low high rest p q e k =
    let same : acc * 64 + (b - 0x80) ≡ c = omega arith in
    let inside : (leb low b && leb b high) ≡ true = ground arith in rw (inside, same)

inner_byte :
    (need acc b low high : ℕ) (rest : Bytes)
    → low ≤ b
    → b ≤ high
    → decode_loop (b ∷ rest) (suc (suc need)) acc low high
      ≡ decode_loop rest (suc need) (acc * 64 + (b - 0x80)) 0x80 0xBF
unfolding decode_loop
inner_byte need acc b low high rest p q = ground arith

lead_two :
    (b : ℕ) (bs : Bytes)
    → 0xC2 ≤ b
    → b < 0xE0
    → start (b ∷ bs) ≡ decode_loop bs 1 (b - 0xC0) 0x80 0xBF
unfolding decode_loop
lead_two b bs p q = ground arith

lead_three :
    (b : ℕ) (bs : Bytes)
    → 0xE0 ≤ b
    → b < 0xF0
    → start (b ∷ bs)
      ≡ decode_loop bs 2
          (b - 0xE0)
          (if b == 0xE0 then 0xA0 else 0x80)
          (if b == 0xED then 0x9F else 0xBF)
unfolding decode_loop
lead_three b bs p q = ground arith

lead_four :
    (b : ℕ) (bs : Bytes)
    → 0xF0 ≤ b
    → b < 0xF5
    → start (b ∷ bs)
      ≡ decode_loop bs 3
          (b - 0xF0)
          (if b == 0xF0 then 0x90 else 0x80)
          (if b == 0xF4 then 0x8F else 0xBF)
unfolding decode_loop
lead_four b bs p q = ground arith

one_byte : (c : ℕ) (rest : Bytes) → c < 0x80 → start (c ∷ rest) ≡ cons_text c (start rest)
unfolding decode_loop
one_byte c rest h = ground arith

two_bytes :
    (c : ℕ) (rest : Bytes)
    → 0x80 ≤ c
    → c < 0x800
    → start ((0xC0 + c / 64) ∷ (0x80 + c % 64) ∷ rest) ≡ cons_text c (start rest)
two_bytes c rest lo hi =
    lead_two (0xC0 + c / 64) _ (omega arith) (omega arith)
    ∙ last_byte c (0xC0 + c / 64 - 0xC0) (0x80 + c % 64) 0x80 0xBF rest (omega arith) (omega arith)
        (omega arith) (omega arith)

three_bytes :
    (c : ℕ) (rest : Bytes)
    → 0x800 ≤ c
    → c < 0x10000
    → (leb 0xD800 c && ltb c 0xE000) ≡ false
    → start ((0xE0 + c / 4096) ∷ (0x80 + c / 64 % 64) ∷ (0x80 + c % 64) ∷ rest)
      ≡ cons_text c (start rest)
three_bytes c rest lo hi plain =
    let lead = 0xE0 + c / 4096 in
    let mid = 0x80 + c / 64 % 64 in
    lead_three lead _ (omega arith) (omega arith)
    ∙ inner_byte 0 (lead - 0xE0) mid _ _ ((0x80 + c % 64) ∷ rest) (ground arith) (ground arith)
    ∙ last_byte c ((lead - 0xE0) * 64 + (mid - 0x80)) (0x80 + c % 64) 0x80 0xBF rest (omega arith)
        (omega arith) (omega arith) (omega arith)

four_bytes :
    (c : ℕ) (rest : Bytes)
    → 0x10000 ≤ c
    → c < 0x110000
    → start (
        (0xF0 + c / 262144)
        ∷ (0x80 + c / 4096 % 64)
        ∷ (0x80 + c / 64 % 64)
        ∷ (0x80 + c % 64)
        ∷ rest)
      ≡ cons_text c (start rest)
four_bytes c rest lo hi =
    let lead = 0xF0 + c / 262144 in
    let second = 0x80 + c / 4096 % 64 in
    let third = 0x80 + c / 64 % 64 in
    lead_four lead _ (omega arith) (omega arith)
    ∙ inner_byte 1 (lead - 0xF0) second _ _ (third ∷ (0x80 + c % 64) ∷ rest) (ground arith)
        (ground arith)
    ∙ inner_byte 0 ((lead - 0xF0) * 64 + (second - 0x80)) third 0x80 0xBF ((0x80 + c % 64) ∷ rest)
        (omega arith) (omega arith)
    ∙ last_byte c (((lead - 0xF0) * 64 + (second - 0x80)) * 64 + (third - 0x80)) (0x80 + c % 64)
        0x80 0xBF rest (omega arith) (omega arith) (omega arith) (omega arith)

decode-encode_char :
    (c : ℕ) (rest : Bytes) {bs : Bytes}
    → encode_char c ≡ ok bs
    → start (bs ++ rest) ≡ cons_text c (start rest)
unfolding encode_char
decode-encode_char c rest {bs} e =
    ground (arith, one_byte c rest, two_bytes c rest, three_bytes c rest, four_bytes c rest)

-- Whatever text can be encoded is decoded back to itself.
pub decode_text-encode_text :
    (t : Text) {bs : Bytes} → encode_text t ≡ ok bs → decode_text bs ≡ ok t
unfolding decode_text encode_text
decode_text-encode_text [] e = unfold decode_loop in ground arith
decode_text-encode_text (c ∷ cs) {bs} e = elim (Result-cases (encode_char c)) [
  | inl (x, p) ↦ elim (Result-cases (encode_text cs)) [
    | inl (xs, q) ↦
        let whole : bs ≡ x ++ xs = ground arith in
        rw (whole, decode-encode_char c xs p, decode_text-encode_text cs q)
    | inr (_, q) ↦ ground arith
  ]
  | inr (_, p) ↦ ground arith
]
