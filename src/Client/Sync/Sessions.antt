-- ===== src/Client/Sync/Sessions.antt =====
-- That the methods of client-py/svpclient.py leave the vault in memory, the login and the keys alone.
use pus_proj.Common.{ℕ, zero, suc, Option, none, some, [], ◌∷◌}
use pus_proj.Common.Results.{Result, Error, protocol_error}
use pus_proj.Bytes.{Bytes}
use pus_proj.Client.Framing.{ClientFrame}
use pus_proj.Client.Act.{ClientCrypto, Link}
use pus_proj.Client.Session.{bytes_ahead}
use pus_proj.Client.Login.{
  do_challenge, compute_kmac, keep_vault_id, parse_auth_ok, connect, authenticate_with, login,
  register_account, refresh_session,
}
use pus_proj.Client.Exchange.{
  not_found, check_fragment, gather, gather_all, take_vault, fetch_vault, put_chunks, send_put,
  put_vault,
}
use pus_proj.Client.Upkeep.{Outside, ping, say_bye, bye, is_alive, log_in_again, ensure_session}
use pus_proj.Client.Sync.Keeps.{Keeps, keeps_rules, session_rules, Keeps-pure, Keeps-raise}

module _ (c : ClientCrypto) where
  Keeps-do_challenge : (nonce : Bytes) (now_ms : ℕ) → Keeps (do_challenge c nonce now_ms)
  unfolding do_challenge
  Keeps-do_challenge nonce now_ms = search session_rules depth 20

  Keeps-keep_vault_id : (vault_id : Bytes) → Keeps (keep_vault_id c vault_id)
  unfolding keep_vault_id
  Keeps-keep_vault_id [] = search session_rules depth 20
  Keeps-keep_vault_id (b ∷ bs) = Keeps-pure tt

  Keeps-parse_auth_ok : (payload : Bytes) → Keeps (parse_auth_ok c payload)
  unfolding parse_auth_ok
  Keeps-parse_auth_ok payload = search (session_rules, Keeps-keep_vault_id) depth 30

  Keeps-authenticate_with : (payload : Bytes) → Keeps (authenticate_with c payload)
  unfolding authenticate_with compute_kmac
  Keeps-authenticate_with payload = search (session_rules, Keeps-parse_auth_ok) depth 20

  Keeps-login : (nonce : Bytes) (now_ms : ℕ) (totp : Option ℕ) → Keeps (login c nonce now_ms totp)
  unfolding login
  Keeps-login nonce now_ms totp =
      search (session_rules, Keeps-do_challenge, Keeps-authenticate_with) depth 20

  Keeps-refresh_session : (nonce : Bytes) (now_ms : ℕ) → Keeps (refresh_session c nonce now_ms)
  unfolding refresh_session
  Keeps-refresh_session nonce now_ms =
      search (session_rules, Keeps-do_challenge, Keeps-authenticate_with) depth 20

  Keeps-register_account : Keeps (register_account c)
  unfolding register_account
  Keeps-register_account = search session_rules depth 20

  Keeps-connect : (answer : Result Link) → Keeps (connect answer)
  unfolding connect
  Keeps-connect answer = search session_rules depth 20

  Keeps-not_found : (e : Error) → Keeps (not_found e)
  unfolding not_found
  Keeps-not_found (protocol_error code) = search keeps_rules
  Keeps-not_found e = search keeps_rules

  Keeps-check_fragment : (frag : ClientFrame) → Keeps (check_fragment frag)
  unfolding check_fragment
  Keeps-check_fragment frag = search keeps_rules

  Keeps-gather : (n flags : ℕ) (payload : Bytes) → Keeps (gather c n flags payload)
  unfolding gather
  Keeps-gather zero flags payload = Keeps-raise _
  Keeps-gather (suc n) flags payload =
      search (session_rules, Keeps-check_fragment, Keeps-gather n) depth 20

  Keeps-gather_all : (flags : ℕ) (payload : Bytes) → Keeps (gather_all c flags payload)
  unfolding gather_all
  Keeps-gather_all flags payload = record {
    kept = λ x. (Keeps-gather (suc (bytes_ahead x)) flags payload).kept x;
  }

  Keeps-take_vault : (o : Option ClientFrame) → Keeps (take_vault c o)
  unfolding take_vault
  Keeps-take_vault none = Keeps-pure none
  Keeps-take_vault (some f) = search (session_rules, Keeps-gather_all) depth 20

  pub Keeps-fetch_vault : Keeps (fetch_vault c)
  unfolding fetch_vault
  Keeps-fetch_vault = search (session_rules, Keeps-not_found, Keeps-take_vault) depth 20

  Keeps-put_chunks : (n offset : ℕ) (payload : Bytes) → Keeps (put_chunks c n offset payload)
  unfolding put_chunks
  Keeps-put_chunks zero offset payload = Keeps-pure tt
  Keeps-put_chunks (suc n) offset payload = search (session_rules, Keeps-put_chunks n) depth 10

  Keeps-send_put : (payload : Bytes) → Keeps (send_put c payload)
  unfolding send_put
  Keeps-send_put payload = search (session_rules, Keeps-put_chunks)

  pub Keeps-put_vault : (blob : Bytes) (base_version : ℕ) → Keeps (put_vault c blob base_version)
  unfolding put_vault
  Keeps-put_vault blob base_version = search (session_rules, Keeps-send_put) depth 20

  Keeps-ping : (ts : ℕ) → Keeps (ping c ts)
  unfolding ping
  Keeps-ping ts = search session_rules depth 20

  Keeps-bye : (reason : ℕ) → Keeps (bye c reason)
  unfolding bye say_bye
  Keeps-bye reason = search session_rules depth 20

  Keeps-is_alive : (ts : ℕ) → Keeps (is_alive c ts)
  unfolding is_alive
  Keeps-is_alive ts = search (session_rules, Keeps-ping) depth 20

  Keeps-log_in_again : (o : Outside) (e : Error) → Keeps (log_in_again c o e)
  unfolding log_in_again
  Keeps-log_in_again o (protocol_error code) = search (session_rules, Keeps-login) depth 20
  Keeps-log_in_again o e = search session_rules

  -- ensure_session, however it goes, leaves the vault in memory, the keys of the master password and
  -- the login alone.
  pub Keeps-ensure_session : (o : Outside) → Keeps (ensure_session c o)
  unfolding ensure_session
  Keeps-ensure_session o =
      search
        (session_rules, Keeps-is_alive, Keeps-connect, Keeps-refresh_session, Keeps-log_in_again)
        depth 20
