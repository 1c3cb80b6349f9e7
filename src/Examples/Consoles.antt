-- ===== src/Examples/Consoles.antt =====
-- The console, main and the self-test at concrete inputs.
use pus_proj.Common.{
  ℕ, ◌+◌, ◌-◌, ◌%◌, ◌≡◌, ◌≢◌, ◌⊎◌, refl, true, false, Option, none, some, List, [], ◌∷◌, ◌++◌,
  length, replicate, take, ◌==◌, if◌then◌else◌, take-append, length-append, arith,
}
use pus_proj.Common.Results.{ok, err, tls_error}
use pus_proj.Bytes.{Bytes, pack, to_le, bytes_eq}
use pus_proj.Text
use pus_proj.Text.{Text, codes, encode_text}
use pus_proj.Server.Protocol.{MsgType, to_code}
use pus_proj.Client.Writer
use pus_proj.Client.Vault.{to_hex, find, find_by_service, find_by_id, add}
use pus_proj.Client.Vault.Parsing.{decrypt}
use pus_proj.Client.Vault.RoundTrip.{decrypt-encrypt}
use pus_proj.Client.Cache.{Cached, save_cache}
use pus_proj.Client.Cache.RoundTrip.{load_cache-save_cache}
use pus_proj.Client.Act.{World, new_client, ◌>>=◌}
use pus_proj.Client.Login.{derive_keys, salt_prefix}
use pus_proj.Client.Vault.Plaintext.{encrypt, serialize_plaintext, write_entries, write_entry}
use pus_proj.Client.Upkeep.{Outside}
use pus_proj.Client.Commands.{App, run}
use pus_proj.Client.Line.{
  is_space, lstrip, rstrip, strip, first_word, parts_of, split_line, IsBlank, IsWord, IsTrim,
  split_line-typed,
}
use pus_proj.Client.Names.{msg_name, member_name, msg_name-to_code}
use pus_proj.Client.Console.{
  Around, listed, id_line, service_line, login_line, password_line, unknown_command, added, Shown,
  Ending, left_loop, eof_error, add_typed, read_new, read_line, read_password, console, loop,
  take_turn, perform_line, perform, ask, ls, get, print_entry, list_entries,
}
use pus_proj.Client.Console.Typed.{Ran}
use pus_proj.Client.Console.Follows.{IsRun, console-IsRun}
use pus_proj.Client.Main.{Setting, main, status, eof}
use pus_proj.Client.Main.Offline.{main_offline}
use pus_proj.Client.Cryptography.{Library}
use pus_proj.Client.Cryptography.Selftest.Verdict.{IsRight, selftest_lem}
use pus_proj.Client.Cryptography.Selftest.{sample_vault, abc_digest, hi_there_mac, selftest, tamper}
use pus_proj.Examples.Samples.{sum, token, bob, client_id, vault_id}
use pus_proj.Examples.Devices.{devices, talking, logged_in, entry, tag, unseal-seal, length-seal}

two_blanks : IsBlank (codes "  ")
unfolding is_space
two_blanks = (refl, (refl, tt))

blank_lem : IsBlank (codes " \t")
unfolding is_space
blank_lem = (refl, (refl, tt))

get_lem : IsWord (codes "get")
unfolding is_space
get_lem = (refl, (refl, (refl, tt)))

my_bank-IsTrim : IsTrim (codes "my bank")
unfolding is_space rstrip
my_bank-IsTrim = (refl, refl)

split_line-typed_example :
    split_line (codes "  get  my bank \t") ≡ some (codes "get", codes "my bank")
split_line-typed_example =
    split_line-typed (codes "  ") 103 (codes "et") 32 (codes " ") (codes "my bank") (codes " \t")
      two_blanks get_lem two_blanks my_bank-IsTrim blank_lem

msg_name-to_code_example : msg_name (to_code MsgType.vault_ack) ≡ member_name MsgType.vault_ack
msg_name-to_code_example = msg_name-to_code MsgType.vault_ack

abbrev outside : Outside
outside = record {
  ping_ms = 5;
  answer = err tls_error;
  refresh_nonce = [];
  refresh_ms = 0;
  login_nonce = [];
  login_ms = 0;
}

abbrev around : Around
around = record {
  random = replicate 8 1;
  now = 7;
  outside = outside;
  iv1 = [];
  iv2 = [];
  iv3 = [];
  iv4 = [];
}

abbrev typed : List Text
typed =
    codes "ls"
    ∷ codes "add"
    ∷ codes "mail"
    ∷ codes "bob"
    ∷ codes "pw"
    ∷ []
    ∷ codes "  get mail "
    ∷ codes "look"
    ∷ codes "quit"
    ∷ []

abbrev app : App
app = record { world = talking logged_in []; dirty = false; online = false; cache = none }

console-IsRun_example :
    IsRun devices (λ i. around) 0 typed app (console devices (λ i. around) typed app)
console-IsRun_example = console-IsRun devices (λ i. around) typed app

abbrev setting : Setting
setting = record {
  offline = true;
  answer = err tls_error;
  nonce = [];
  now_ms = 0;
  client_id = client_id;
  around = λ i. around;
  at_end = around;
}

-- The keys of bob's password, and a cache file that is sealed with them.
abbrev bob_key : Bytes
bob_key = devices.pbkdf2 bob (devices.sha256 (salt_prefix ++ bob))

abbrev bob_anew : World
bob_anew = record {
  client = record (new_client client_id) {
    login_name = bob;
    k_auth = devices.pbkdf2 bob (devices.sha256 bob);
    k_vault = bob_key;
  };
  conn = none;
  vault = [];
}

bob_keys :
    derive_keys devices bob bob (record { client = new_client client_id; conn = none; vault = [] })
    ≡ (ok tt, bob_anew)
unfolding derive_keys ◌>>=◌ encode_text Text.encode_char
bob_keys = refl

bob_laid_out : (plain : Bytes) × (serialize_plaintext (entry ∷ []) ≡ ok plain)
unfolding serialize_plaintext write_entries write_entry Writer.raw Writer.u32 Writer.u64
    Writer.lpstr Writer.lpbytes Writer.u16 pack to_le encode_text Text.encode_char
bob_laid_out = (_, refl)

abbrev bob_cached : Cached
bob_cached = record {
  login = bob;
  vault_id = vault_id;
  version = 4;
  blob = replicate 12 6 ++ (bob_laid_out.0 ++ tag bob_key);
}

bob_sealed : encrypt devices.seal bob_key (replicate 12 6) (entry ∷ []) ≡ ok bob_cached.blob
unfolding encrypt
bob_sealed = rw bob_laid_out.1 refl

bob_opened : decrypt devices.unseal bob_cached.blob bob_key ≡ ok (entry ∷ [])
bob_opened =
    decrypt-encrypt devices.seal devices.unseal bob_key (replicate 12 6)
      (unseal-seal bob_key (replicate 12 6)) (length-seal bob_key (replicate 12 6)) (entry ∷ [])
      refl bob_sealed

bob_saved : (file : Bytes) × (save_cache bob_cached ≡ ok file)
unfolding save_cache Writer.lpstr Writer.raw Writer.u16 Writer.u32 Writer.u64 Writer.lpblob pack
    to_le encode_text Text.encode_char bob_laid_out
bob_saved = (_, refl)

main_offline_example :
    let begin : App = record {
      world = record bob_anew { vault = entry ∷ [] };
      dirty = false;
      online = false;
      cache = some bob_saved.0;
    } in
    let end = main devices setting (bob ∷ bob ∷ typed) (some bob_saved.0) in
    (a : App) × (n : ℕ) × (shown : List Shown) × (how : Ending) × Ran devices
      (λ i. around)
      0
      typed
      begin
      n
      a
      shown
      how
    × (((how ≡ left_loop) × (end ≡ status 0 (some a))) ⊎ ((how ≡ eof_error) × (end ≡ eof a)))
    × (a.world.conn ≡ none)
    × (a.cache ≡ some bob_saved.0)
main_offline_example =
    main_offline devices setting 98 (111 ∷ 98 ∷ []) bob typed (some bob_saved.0) refl bob_keys
      (load_cache-save_cache bob_cached refl bob_saved.1) bob_opened

-- `ls`, a new entry, what is printed of it, and a command that there is not.
printed :
    (console devices (λ i. around) typed app).shown
    ≡ listed (codes "1") (codes "ab") bob
      ∷ added
      ∷ id_line (codes "0101010101010101")
      ∷ service_line (codes "mail")
      ∷ login_line (codes "bob")
      ∷ password_line (codes "pw")
      ∷ unknown_command (codes "look")
      ∷ []
unfolding console loop take_turn perform_line perform ask ls list_entries get print_entry find
    find_by_service find_by_id split_line parts_of first_word strip lstrip rstrip is_space bytes_eq
    to_hex run add add_typed read_new read_line read_password
printed = refl

-- A library whose ciphertexts begin with a zero and end with a tag of fifteen nines.
abbrev tail : Bytes
tail = replicate 15 9

abbrev gcm_decrypt : Bytes → Bytes → Bytes → Option Bytes → Option Bytes
gcm_decrypt k n [] aad = none
gcm_decrypt k n (b ∷ ct) aad = if b == 0 then some (take (length ct - 15) ct) else none

abbrev abc_bytes : Bytes
abc_bytes =
    186 ∷ 120 ∷ 22 ∷ 191 ∷ 143 ∷ 1 ∷ 207 ∷ 234 ∷ 65 ∷ 65 ∷ 64 ∷ 222 ∷ 93 ∷ 174 ∷ 34 ∷ 35 ∷ 176 ∷ 3
    ∷ 97 ∷ 163 ∷ 150 ∷ 23 ∷ 122 ∷ 156 ∷ 180 ∷ 16 ∷ 255 ∷ 97 ∷ 242 ∷ 0 ∷ 21 ∷ 173 ∷ []

abbrev hi_there_bytes : Bytes
hi_there_bytes =
    176 ∷ 52 ∷ 76 ∷ 97 ∷ 216 ∷ 219 ∷ 56 ∷ 83 ∷ 92 ∷ 168 ∷ 175 ∷ 206 ∷ 175 ∷ 11 ∷ 241 ∷ 43 ∷ 136 ∷ 29
    ∷ 194 ∷ 0 ∷ 201 ∷ 131 ∷ 61 ∷ 167 ∷ 38 ∷ 233 ∷ 55 ∷ 108 ∷ 46 ∷ 50 ∷ 207 ∷ 247 ∷ []

abbrev library : Library
library = record {
  sha256_digest = λ b. abc_bytes;
  hmac_digest = λ k m. hi_there_bytes;
  pbkdf2_hmac = λ p s iters dklen. replicate dklen ((sum p + sum s) % 256);
  hkdf_derive = λ length salt info ikm. replicate length (sum info % 256);
  gcm_encrypt = λ k n p aad. 0 ∷ (p ++ tail);
  gcm_decrypt = gcm_decrypt;
}

abc_right : to_hex abc_bytes ≡ abc_digest
unfolding to_hex
abc_right = refl

hi_there_right : to_hex hi_there_bytes ≡ hi_there_mac
unfolding to_hex
hi_there_right = refl

opens : (n p : Bytes) → gcm_decrypt token n (0 ∷ (p ++ tail)) none ≡ some p
opens n p =
    let size = length-append p tail in
    let n : length (p ++ tail) - 15 ≡ length p = omega arith in
    rw (n, take-append (length p) p tail refl) refl

tagged : (n p : Bytes) → length (0 ∷ (p ++ tail)) ≡ length p + 16
tagged n p = omega (arith, length-append p tail)

tampered :
    (p bad : Bytes)
    → tamper (0 ∷ (p ++ tail)) ≡ ok bad
    → gcm_decrypt token (replicate 12 1) bad none ≡ none
unfolding tamper
tampered p bad h = let e : bad ≡ 1 ∷ (p ++ tail) = cc in rw e refl

apart : (k : Bytes) → replicate 32 (sum (codes "x") % 256) ≢ replicate 32 (sum (codes "y") % 256)
apart k e = ground arith

sample_laid_out :
    (plain : Bytes) × (serialize_plaintext (sample_vault (replicate 8 1) 7) ≡ ok plain)
unfolding serialize_plaintext write_entries write_entry sample_vault add to_hex Writer.raw
    Writer.u32 Writer.u64 Writer.lpstr Writer.lpbytes Writer.u16 pack to_le encode_text
    Text.encode_char
sample_laid_out = (_, refl)

selftest_lem_example :
    (IsRight library (replicate 12 1)
      × (selftest library token (replicate 12 1) (replicate 8 1) (replicate 12 4) 7 ≡ ok 0))
    ⊎ ((¬ IsRight library (replicate 12 1))
        × (selftest library token (replicate 12 1) (replicate 8 1) (replicate 12 4) 7 ≡ ok 1))
selftest_lem_example =
    selftest_lem library token (replicate 12 1) (replicate 8 1) (replicate 12 4) 7 opens tagged
      tampered refl sample_laid_out.1

library-IsRight : IsRight library (replicate 12 1)
library-IsRight = (abc_right, hi_there_right, apart (replicate 32 0))
