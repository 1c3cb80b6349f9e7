-- ===== src/Client/Exchange/Ends.antt =====
-- The loop over the fragments of a VAULT_DATA in fetch_vault of client-py/svpclient.py ends.
use pus_proj.Bytes.{Bytes}
