-- ===== src/Client/Requests/Auths.antt =====
-- What _parse_auth_payload of server-py/server.py makes of the AUTH of client-py/svpclient.py.
use pus_proj.Common.{
  ℕ, zero, suc, ◌+◌, ◌-◌, ◌^◌, ◌%◌, ◌≤◌, ◌<◌, ◌≡◌, refl, sym, ap, ◌∙◌, ◌++◌, Option, none, some, [],
  ◌∷◌, List, length, slice, replicate, get_elem?, append-nil, append_assoc, length-append,
  length-replicate, arith, ltb, ◌==◌, ◌||◌, false, true,
}
use pus_proj.Common.Results.{ok, ◌>>=◌}
use pus_proj.Bytes.{Bytes, to_le, length-to_le, of_le-to_le, pack}
use pus_proj.Bytes.Fields.{slice-append}
use pus_proj.Text.{Text, encode_text, decode_text}
use pus_proj.Text.RoundTrip.{decode_text-encode_text}
use pus_proj.Server.Payloads.{
  Auth, index, parse_auth, parse_token, parse_totp, text_or_format_error,
}
use pus_proj.Client.Writer
use pus_proj.Client.Requests.{totp_part, login_payload, refresh_payload}

get_elem?-append :
    {A : Type 0} (i : ℕ) (xs : List A) (y : A) (ys : List A)
    → length xs ≡ i
    → get_elem? (xs ++ (y ∷ ys)) i ≡ some y
get_elem?-append zero [] y ys e = refl
get_elem?-append (suc i) [] y ys e = absurd (omega arith)
get_elem?-append zero (x ∷ xs) y ys e = absurd (omega arith)
get_elem?-append (suc i) (x ∷ xs) y ys e = get_elem?-append i xs y ys (omega arith)

index-append :
    (i : ℕ) (xs : Bytes) (y : ℕ) (ys : Bytes) → length xs ≡ i → index (xs ++ (y ∷ ys)) i ≡ ok y
unfolding index
index-append i xs y ys e = let found = get_elem?-append i xs y ys e in ground arith

-- What the server reads of a login with or without a second factor, and of a refresh.
abbrev pub with_totp : Text → Bytes → Option ℕ → Auth
with_totp login_name resp totp_code = record {
  username = login_name;
  hmac_resp = resp;
  token_refresh = 0;
  refresh_token = none;
  totp_present = elim totp_code [ none ↦ 0 | some code ↦ 1 ];
  totp_code = totp_code;
}

abbrev pub with_token : Text → Bytes → Bytes → Auth
with_token login_name resp token = record {
  username = login_name;
  hmac_resp = resp;
  token_refresh = 1;
  refresh_token = some token;
  totp_present = 0;
  totp_code = none;
}

module _ (login_name : Text) {username : Bytes} (resp : Bytes)
    (encoded : encode_text login_name ≡ ok username) (some_name : 1 ≤ length username)
    (short : length username ≤ 64) (n32 : length resp ≡ 32) where
  -- What the parser reads of an AUTH in front of the token.
  parse_auth_lem :
      (token_refresh : ℕ) (tail payload : Bytes)
      → payload ≡ (((length username ∷ []) ++ username) ++ resp) ++ (token_refresh ∷ tail)
      → parse_auth payload ≡ (
          parse_token payload token_refresh (1 + length username + 32 + 1) >>= λ p.
          parse_totp payload p.1 login_name resp token_refresh p.0)
  unfolding parse_auth
  parse_auth_lem token_refresh tail payload whole =
      let n = length username in
      let front = (n ∷ []) ++ username in
      let l1 : length front ≡ 1 + n = omega arith in
      let l2 : length (front ++ resp) ≡ 1 + n + 32 = omega (arith, length-append front resp) in
      let l3 : length payload ≡ 1 + n + 32 + suc (length tail) =
        ap length whole ∙ omega (arith, length-append (front ++ resp) (token_refresh ∷ tail)) in
      let last : Bytes = resp ++ (token_refresh ∷ tail) in
      let w1 : payload ≡ front ++ last = whole ∙ append_assoc front resp _ in
      let i0 : index payload 0 ≡ ok n = ap (λ b. index b 0) whole ∙ unfold index in refl in
      let s1 : slice 1 (1 + n) payload ≡ username =
        ap (slice 1 (1 + n)) w1
        ∙ slice-append 1 (1 + n) (n ∷ []) username last refl (omega arith) in
      let s2 : slice (1 + n) (1 + n + 32) payload ≡ resp =
        ap (slice (1 + n) (1 + n + 32)) w1
        ∙ slice-append (1 + n) (1 + n + 32) front resp (token_refresh ∷ tail) l1 (omega arith) in
      let i1 : index payload (1 + n + 32) ≡ ok token_refresh =
        ap (λ b. index b (1 + n + 32)) whole
        ∙ index-append (1 + n + 32) (front ++ resp) token_refresh tail l2 in
      let t : text_or_format_error (decode_text username) ≡ ok login_name =
        rw (decode_text-encode_text login_name encoded) refl in
      let a1 : ltb (length payload) (1 + 32) ≡ false = ground arith in
      let a2 : (n == 0 || ltb 64 n) ≡ false = ground arith in
      let a3 : ltb (length payload) (1 + n + 32) ≡ false = ground arith in
      let a4 : (length payload == 1 + n + 32) ≡ false = ground arith in
      rw (a1, i0, a2, a3, s1, t, a4, i1, s2) refl

  -- The AUTH of a login, whose name takes 1 to 64 bytes and whose response 32, is read by the server
  -- as the name, the response, no refresh and the code of the second factor, if there is one.
  pub parse_auth-login_payload :
      (totp_code : Option ℕ) {payload : Bytes}
      → login_payload username resp totp_code ≡ ok payload
      → parse_auth payload ≡ ok (with_totp login_name resp totp_code)
  unfolding login_payload totp_part Writer.raw Writer.u8 Writer.u32 parse_token parse_totp pack
  parse_auth-login_payload none {payload} h =
      let n = length username in
      let low : n % 256 ≡ n = omega arith in
      let front = ((n ∷ []) ++ username) ++ resp in
      let whole : payload ≡ front ++ (0 ∷ []) = ground (arith, low) in
      let l1 : length ((n ∷ []) ++ username) ≡ 1 + n = omega arith in
      let size : length payload ≡ 1 + n + 32 + 1 =
        ap length whole
        ∙ omega (arith, length-append front (0 ∷ []), length-append ((n ∷ []) ++ username) resp) in
      let end : (1 + n + 32 + 1 == length payload) ≡ true = ground arith in
      parse_auth_lem 0 [] payload whole ∙ rw end refl
  parse_auth-login_payload (some code) {payload} h =
      let n = length username in
      let low : n % 256 ≡ n = omega arith in
      let t = to_le 4 code in
      let fits : code < 256 ^ 4 = ground arith in
      let front = ((n ∷ []) ++ username) ++ resp in
      let whole : payload ≡ ((front ++ (0 ∷ [])) ++ (1 ∷ [])) ++ t = ground (arith, low) in
      let two : payload ≡ (front ++ (0 ∷ [])) ++ (1 ∷ t) =
        whole ∙ append_assoc (front ++ (0 ∷ [])) (1 ∷ []) t in
      let three : payload ≡ front ++ (0 ∷ 1 ∷ t) = two ∙ append_assoc front (0 ∷ []) (1 ∷ t) in
      let l1 : length ((n ∷ []) ++ username) ≡ 1 + n = omega arith in
      let l2 : length (front ++ (0 ∷ [])) ≡ 1 + n + 32 + 1 =
        omega (arith, length-append front (0 ∷ []), length-append ((n ∷ []) ++ username) resp) in
      let l3 : length ((front ++ (0 ∷ [])) ++ (1 ∷ [])) ≡ 1 + n + 32 + 1 + 1 =
        omega (arith, length-append (front ++ (0 ∷ [])) (1 ∷ [])) in
      let lt = length-to_le 4 code in
      let size : length payload ≡ 1 + n + 32 + 1 + 1 + 4 =
        ap length whole ∙ omega (arith, length-append ((front ++ (0 ∷ [])) ++ (1 ∷ [])) t) in
      let end : (1 + n + 32 + 1 == length payload) ≡ false = ground arith in
      let i : index payload (1 + n + 32 + 1) ≡ ok 1 =
        ap (λ b. index b (1 + n + 32 + 1)) two ∙ index-append _ (front ++ (0 ∷ [])) 1 t l2 in
      let four : (length payload - (1 + n + 32 + 1 + 1) == 4) ≡ true = ground arith in
      let j = 1 + n + 32 + 1 + 1 in
      let s : slice j (j + 4) payload ≡ t =
        ap (slice j (j + 4))
          (whole ∙ ap (λ b. ((front ++ (0 ∷ [])) ++ (1 ∷ [])) ++ b) (sym (append-nil t)))
        ∙ slice-append j (j + 4) ((front ++ (0 ∷ [])) ++ (1 ∷ [])) t [] l3 (omega arith) in
      parse_auth_lem 0 (1 ∷ t) payload three ∙ rw (end, i, four, s, of_le-to_le 4 code fits) refl

  refresh_lem :
      (token : Bytes) {payload : Bytes}
      → length token ≡ 32
      → resp ≡ replicate 32 0
      → refresh_payload username token ≡ ok payload
      → parse_auth payload ≡ ok (with_token login_name resp token)
  unfolding refresh_payload Writer.raw Writer.u8 parse_token parse_totp
  refresh_lem token {payload} size zeros h =
      let n = length username in
      let low : n % 256 ≡ n = omega arith in
      let front = ((n ∷ []) ++ username) ++ resp in
      let whole : payload ≡ (front ++ (1 ∷ [])) ++ token =
        unfold Writer.raw in cc (rw (low, ← zeros) at h) in
      let two : payload ≡ front ++ (1 ∷ token) = whole ∙ append_assoc front (1 ∷ []) token in
      let l1 : length ((n ∷ []) ++ username) ≡ 1 + n = omega arith in
      let l2 : length (front ++ (1 ∷ [])) ≡ 1 + n + 32 + 1 =
        omega (arith, length-append front (1 ∷ []), length-append ((n ∷ []) ++ username) resp) in
      let length_is : length payload ≡ 1 + n + 32 + 1 + 32 =
        ap length whole ∙ omega (arith, length-append (front ++ (1 ∷ [])) token) in
      let i = 1 + n + 32 + 1 in
      let s : slice i (i + 32) payload ≡ token =
        ap (slice i (i + 32)) (whole ∙ ap (λ b. (front ++ (1 ∷ [])) ++ b) (sym (append-nil token)))
        ∙ slice-append i (i + 32) (front ++ (1 ∷ [])) token [] l2 (omega arith) in
      let room : ltb (length payload - i) 32 ≡ false = ground arith in
      let end : (i + 32 == length payload) ≡ true = ground arith in
      parse_auth_lem 1 token payload two ∙ rw (room, s, end) refl

-- The AUTH of a refresh, whose name takes 1 to 64 bytes and whose token 32, is read by the server as
-- the name, a refresh with that token and no second factor.
pub parse_auth-refresh_payload :
    (login_name : Text) (token : Bytes) {username payload : Bytes}
    → encode_text login_name ≡ ok username
    → 1 ≤ length username
    → length username ≤ 64
    → length token ≡ 32
    → refresh_payload username token ≡ ok payload
    → parse_auth payload ≡ ok (with_token login_name (replicate 32 0) token)
parse_auth-refresh_payload login_name token encoded some_name short size h =
    refresh_lem login_name (replicate 32 0) encoded some_name short (length-replicate {A = ℕ} 32 0)
      token size refl h
