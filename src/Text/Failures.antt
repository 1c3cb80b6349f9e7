-- ===== src/Text/Failures.antt =====
-- How bytes.decode("utf-8") fails.
use pus_proj.Common.{ℕ, zero, suc, ◌+◌, ◌-◌, ◌*◌, ◌≡◌, [], ◌∷◌, ◌==◌, if◌then◌else◌, arith}
use pus_proj.Common.Results.{err, Error, value_error}
use pus_proj.Bytes.{Bytes}
use pus_proj.Text.{decode_loop, decode_text}

decode_loop_error :
    (bs : Bytes) (need acc low high : ℕ) (e : Error)
    → decode_loop bs need acc low high ≡ err e
    → e ≡ value_error
unfolding decode_loop
decode_loop_error [] zero acc low high e h = cc
decode_loop_error [] (suc need) acc low high e h = cc
decode_loop_error (b ∷ bs) zero acc low high e h = ground (
  arith,
  decode_loop_error bs 0 0 0x80 0xBF e,
  decode_loop_error bs 1 (b - 0xC0) 0x80 0xBF e,
  decode_loop_error bs 2 (b - 0xE0) (if b == 0xE0 then 0xA0 else 0x80)
      (if b == 0xED then 0x9F else 0xBF) e,
  decode_loop_error bs 3 (b - 0xF0) (if b == 0xF0 then 0x90 else 0x80)
      (if b == 0xF4 then 0x8F else 0xBF) e,
)
decode_loop_error (b ∷ bs) (suc zero) acc low high e h =
    ground (arith, decode_loop_error bs 0 0 0x80 0xBF e)
decode_loop_error (b ∷ bs) (suc (suc need)) acc low high e h =
    ground (arith, decode_loop_error bs (suc need) (acc * 64 + (b - 0x80)) 0x80 0xBF e)

-- With a UnicodeDecodeError, which is a ValueError, and in no other way.
pub decode_text_error : (bs : Bytes) {e : Error} → decode_text bs ≡ err e → e ≡ value_error
unfolding decode_text
decode_text_error bs {e} h = decode_loop_error bs 0 0 0x80 0xBF e h
