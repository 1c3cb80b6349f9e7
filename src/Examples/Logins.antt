-- ===== src/Examples/Logins.antt =====
-- Bob's login: the payloads, the frames of both sides, and the session that comes of it.
use pus_proj.Common.{
  ℕ, ◌≡◌, refl, sym, ap, false, none, some, [], ◌∷◌, ◌++◌, length, replicate, append-nil, arith,
}
use pus_proj.Common.Results.{ok}
use pus_proj.Bytes.{Bytes, to_le, pack}
use pus_proj.Bytes.Header.{pack_header}
use pus_proj.Text
use pus_proj.Text.{encode_text}
use pus_proj.Server.Protocol.{MsgType, Frame, to_code, encode, header_of}
use pus_proj.Server.Payloads.{build_auth_ok}
use pus_proj.Server.Connection.{outgoing}
use pus_proj.Client.Writer
use pus_proj.Client.Framing.{serialize, trailer}
use pus_proj.Client.Codes.{dummy_mac_key}
use pus_proj.Client.Requests.{hello_payload, login_payload, totp_part, refresh_payload}
use pus_proj.Client.Act.{◌>>=◌, World, dialled}
use pus_proj.Client.Session.{next_seq}
use pus_proj.Client.Session.Talk.{frame_of}
use pus_proj.Client.Login.{response_message, default_vault_id, login, mac_info}
use pus_proj.Client.Upkeep.{Outside, is_alive, connected, ensure_session}
use pus_proj.Client.Upkeep.Recovery.{ensure_session_lem}
use pus_proj.Client.Login.Completes.{login_lem}
use pus_proj.Examples.Samples.{crypto, checksum, length-checksum, bob, client_id, token}
use pus_proj.Examples.Devices.{devices, keyed, talking, zeros}

abbrev pub nonce_c : Bytes
nonce_c = replicate 32 3

abbrev nonce_s : Bytes
nonce_s = replicate 32 8

abbrev stamp : Bytes
stamp = 1 ∷ 0 ∷ 0 ∷ 0 ∷ 0 ∷ 0 ∷ 0 ∷ 0 ∷ []

abbrev pub hello_bytes : Bytes
hello_bytes = (nonce_c ++ client_id) ++ (232 ∷ 3 ∷ 0 ∷ 0 ∷ 0 ∷ 0 ∷ 0 ∷ 0 ∷ [])

pub hello_made : hello_payload nonce_c client_id 1000 ≡ ok hello_bytes
unfolding hello_payload Writer.raw Writer.u64 pack to_le
hello_made = refl

abbrev pub response : Bytes
response = checksum (replicate 32 2) (response_message nonce_c nonce_s bob)

abbrev pub auth_bytes : Bytes
auth_bytes = ((3 ∷ bob) ++ response) ++ (0 ∷ [])

pub auth_made : login_payload bob response none ≡ ok auth_bytes
unfolding login_payload totp_part Writer.raw Writer.u8
auth_made = refl

pub encoded : encode_text bob ≡ ok bob
unfolding encode_text Text.encode_char
encoded = refl

abbrev challenge_frame : Frame
challenge_frame = outgoing MsgType.challenge (nonce_s ++ stamp) 0 0

abbrev auth_ok_bytes : Bytes
auth_ok_bytes = (32 ∷ 0 ∷ []) ++ (token ++ ((9 ∷ 0 ∷ 0 ∷ 0 ∷ 0 ∷ 0 ∷ 0 ∷ 0 ∷ []) ++ replicate 8 0))

auth_ok_made : build_auth_ok token 9 0 ≡ ok auth_ok_bytes
unfolding build_auth_ok pack to_le
auth_ok_made = refl

abbrev ok_frame : Frame
ok_frame = outgoing MsgType.auth_ok auth_ok_bytes 1 0

-- The bytes of a frame with the number `seq`, below 256, under the key of zeros.
abbrev pub numbered : ℕ → ℕ → Bytes → Bytes
numbered type seq payload =
    let body = 1 ∷ type ∷ 0 ∷ seq ∷ 0 ∷ 0 ∷ 0 ∷ length payload ∷ 0 ∷ 0 ∷ 0 ∷ payload in
    body ++ checksum zeros body

challenge_encoded :
    encode checksum challenge_frame dummy_mac_key ≡ ok (numbered 2 0 (nonce_s ++ stamp))
unfolding encode header_of to_code pack_header pack to_le
challenge_encoded = refl

ok_encoded : encode checksum ok_frame dummy_mac_key ≡ ok (numbered 4 1 auth_ok_bytes)
unfolding encode header_of to_code pack_header pack to_le
ok_encoded = refl

pub hello_sent :
    serialize checksum (frame_of 1 0 hello_bytes keyed) (some dummy_mac_key)
    ≡ ok (numbered 1 0 hello_bytes)
unfolding serialize trailer pack_header pack to_le
hello_sent = refl

pub auth_sent :
    serialize checksum (frame_of 3 0 auth_bytes (next_seq keyed)) (some dummy_mac_key)
    ≡ ok (numbered 3 1 auth_bytes)
unfolding serialize trailer pack_header pack to_le
auth_sent = refl

abbrev pub own_id : Bytes
own_id = replicate 16 233

pub own_id_made : default_vault_id devices bob ≡ ok own_id
unfolding default_vault_id encode_text Text.encode_char
own_id_made = refl

abbrev x : World
x = talking keyed (numbered 2 0 (nonce_s ++ stamp) ++ (numbered 4 1 auth_ok_bytes ++ (7 ∷ [])))

login_lem_example : login devices nonce_c 1000 none x ≡ (
  ok tt,
  record x {
    client = record x.client {
      nonce_c = nonce_c;
      session_token = token;
      token_expiry = 9;
      vault_version = 0;
      vault_id = own_id;
      k_mac = some (crypto.hkdf token nonce_c mac_info);
      seq = 2;
    };
    conn = some (record {
      incoming = 7 ∷ [];
      writes_left = 1_999_998;
      sent = numbered 1 0 hello_bytes ∷ numbered 3 1 auth_bytes ∷ [];
    });
  },
)
login_lem_example =
    login_lem devices length-checksum nonce_c 1000 none x
      (dialled (numbered 2 0 (nonce_s ++ stamp) ++ (numbered 4 1 auth_ok_bytes ++ (7 ∷ [])))
        2_000_000)
      challenge_frame ok_frame nonce_s stamp token 9 0 bob own_id (7 ∷ []) refl refl refl hello_made
      hello_sent challenge_encoded refl (unfold to_code in refl) refl refl refl encoded
      (omega arith) auth_made auth_sent ok_encoded refl (unfold to_code in refl) refl auth_ok_made
      own_id_made

-- A client whose connection is gone.
abbrev gone : World
gone = record (talking (record keyed { session_token = token }) []) { conn = none }

abbrev refresh_bytes : Bytes
refresh_bytes = (((3 ∷ bob) ++ zeros) ++ (1 ∷ [])) ++ token

refresh_made : refresh_payload bob token ≡ ok refresh_bytes
unfolding refresh_payload Writer.raw Writer.u8
refresh_made = refl

refresh_sent :
    serialize checksum (frame_of 3 0 refresh_bytes (next_seq gone.client)) (some dummy_mac_key)
    ≡ ok (numbered 3 1 refresh_bytes)
unfolding serialize trailer pack_header pack to_le
refresh_sent = refl

abbrev answers : Bytes
answers = numbered 2 0 (nonce_s ++ stamp) ++ numbered 4 1 auth_ok_bytes

abbrev outside : Outside
outside = record {
  ping_ms = 5;
  answer = ok (dialled answers 2);
  refresh_nonce = nonce_c;
  refresh_ms = 1000;
  login_nonce = [];
  login_ms = 0;
}

not_alive : is_alive devices 5 gone ≡ (ok false, gone)
unfolding is_alive connected ◌>>=◌
not_alive = refl

ensure_session_lem_example :
    (z : World) × (ensure_session devices outside gone ≡ (ok tt, z))
    × (z.client.session_token ≡ token)
    × (z.client.token_expiry ≡ 9)
    × (z.client.k_mac ≡ some (crypto.hkdf token nonce_c mac_info))
    × (z.conn
        ≡ some (record {
          incoming = [];
          writes_left = 0;
          sent = numbered 1 0 hello_bytes ∷ numbered 3 1 refresh_bytes ∷ [];
        }))
ensure_session_lem_example =
    ensure_session_lem devices length-checksum outside gone gone (dialled answers 2) challenge_frame
      ok_frame nonce_s stamp token 9 0 bob own_id [] not_alive refl refl
      (ap (λ b. numbered 2 0 (nonce_s ++ stamp) ++ b)
        (sym (append-nil (numbered 4 1 auth_ok_bytes))))
      hello_made hello_sent challenge_encoded refl (unfold to_code in refl) refl refl refl encoded
      (omega arith) refl refresh_made refresh_sent ok_encoded refl (unfold to_code in refl) refl
      auth_ok_made own_id_made
