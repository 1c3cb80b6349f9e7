-- ===== src/Examples/Clients.antt =====
-- Frames between the Python client and the server.
use pus_proj.Common.{◌≡◌, refl, some, [], ◌∷◌, ◌++◌, replicate}
use pus_proj.Common.Results.{ok}
use pus_proj.Bytes.{Bytes, to_le, pack}
use pus_proj.Bytes.Header.{pack_header}
use pus_proj.Server.Protocol.{MsgType, of_code, to_code, encode}
use pus_proj.Server.Protocol.RoundTrip.{signed_part}
use pus_proj.Server.Wire.{read_frame}
use pus_proj.Client.Framing.{
  ClientFrame, serialize, as_server, serialize-encode, read_frame-serialize,
}
use pus_proj.Examples.Samples.{checksum, length-checksum, ping}

abbrev key : Bytes
key = replicate 32 0

abbrev raw : Bytes
raw = 1 ∷ 0x20 ∷ 0 ∷ 0 ∷ 0 ∷ 0 ∷ 0 ∷ 8 ∷ 0 ∷ 0 ∷ 0 ∷ (replicate 8 1 ++ replicate 32 169)

abbrev sent : ClientFrame
sent = record { version = 1; type = 0x20; flags = 0; seq = 0; payload = replicate 8 1 }

known : of_code sent.type ≡ some MsgType.ping
unfolding of_code
known = refl

serialize-sent : serialize checksum sent (some key) ≡ ok raw
unfolding serialize pack_header pack to_le
serialize-sent = refl

serialize-encode_example : encode checksum (as_server MsgType.ping sent) key ≡ ok raw
serialize-encode_example = serialize-encode checksum sent key known refl serialize-sent

read_frame-serialize_example :
    read_frame checksum (raw ++ (5 ∷ [])) key
    ≡ ok (
      record (as_server MsgType.ping sent) {
        hmac = checksum key (signed_part (as_server MsgType.ping sent));
      },
      5 ∷ [],
    )
read_frame-serialize_example =
    read_frame-serialize checksum length-checksum sent key (5 ∷ []) known refl serialize-sent

encode-ping : encode checksum ping key ≡ ok raw
unfolding encode to_code pack_header pack to_le
encode-ping = refl
