-- ===== src/Examples/Sessions.antt =====
-- Connections.
use pus_proj.Common.{ℕ, ◌≡◌, refl, some}
use pus_proj.Common.Results.{ok}
use pus_proj.Bytes.{bytes_eq, to_le, pack}
use pus_proj.Bytes.Header.{pack_header}
use pus_proj.Text.{decode_text}
use pus_proj.Server.Protocol.{MsgType, to_code, encode}
use pus_proj.Server.Database.{
  get_user_by_username, get_session, fetch_one, create_session, has_user,
}
use pus_proj.Server.Payloads.{parse_auth, build_auth_ok, index}
use pus_proj.Server.Connection.{established, ◌>>=◌, send_next}
use pus_proj.Server.Handler.Environment.{again}
use pus_proj.Server.Handler.Login.{
  mac_info, on_auth, login_with, authenticate, refresh_row, refresh_check, answer_login, establish,
}
use pus_proj.Server.Handler.Access.{Admitted, on_auth-Admitted}
use pus_proj.Examples.Samples.{crypto, env, challenged, refresh_frame}

goes_on : (on_auth crypto env refresh_frame challenged).0 ≡ ok again
unfolding on_auth login_with authenticate refresh_row refresh_check answer_login establish ◌>>=◌
    parse_auth index decode_text get_user_by_username get_session fetch_one bytes_eq create_session
    has_user build_auth_ok pack to_le send_next encode pack_header to_code
goes_on = refl

on_auth-Admitted_example :
    (refresh_frame.msg_type ≡ MsgType.auth)
    × ((uid : ℕ) × (w : Admitted crypto env refresh_frame challenged uid) × ((on_auth crypto env
            refresh_frame challenged).1.session.authenticated_user_id
          ≡ some uid)
        × ((on_auth crypto env refresh_frame challenged).1.session.phase ≡ established)
        × ((on_auth crypto env refresh_frame challenged).1.session.session_mac_key
            ≡ some (crypto.hkdf env.urandom w.nonce_c mac_info)))
on_auth-Admitted_example = on_auth-Admitted crypto env refresh_frame challenged goes_on
