-- ===== src/Persistence/Repository/Renewal.antt =====
-- src/pinterest_mcp/persistence/repository.py: optimistic concurrency of the token renewal, and
-- isolation between owners.
use pinterest_mcp_docker.Common.{ℕ, ◌≡◌, ◌≢◌, String, Option, some, arith, nat_eq, string_eq}
use pinterest_mcp_docker.Common.Rows.{select}
use pinterest_mcp_docker.Persistence.Models.{PinterestConnection, Store, connection_status_eq}
use pinterest_mcp_docker.Persistence.Cipher.{Cipher}
use pinterest_mcp_docker.Persistence.Session.{Result, err, concurrent_modification, owned_by}
use pinterest_mcp_docker.Persistence.Repository.{
  Credentials, Account, get_decrypted_tokens, update_tokens_versioned, save_initial_connection,
  disconnect_connection,
}
use pinterest_mcp_docker.Persistence.Repository.Writes.{
  save-Writes, update_tokens-Writes, disconnect-Writes, select-Writes,
}

module _ (C : Cipher) where
  -- A renewal with a version that is not the stored one changes nothing.
  pub update_tokens-stale :
      (owner version : ℕ) (t : Credentials) (c : PinterestConnection) (s : Store)
      → select (owned_by owner) s.connections ≡ some c
      → c.credential_version ≢ version
      → update_tokens_versioned C owner version t s ≡ (err concurrent_modification, s)
  unfolding update_tokens_versioned
  update_tokens-stale owner version t c s found stale = ground arith

  tokens_same :
      (other : ℕ) (s t : Store)
      → select (owned_by other) t.connections ≡ select (owned_by other) s.connections
      → (get_decrypted_tokens C other t).0 ≡ (get_decrypted_tokens C other s).0
  unfolding get_decrypted_tokens
  tokens_same other s t same = ground arith

  -- What one owner saves, renews or disconnects, whether it succeeds or fails, the tokens of
  -- another owner read as before.
  pub owners_isolated :
      (uuid4 : ℕ → ℕ) (owner other version : ℕ) (account : String) (t : Credentials) (a : Account)
      (s : Store)
      → owner ≢ other
      → let tokens : Store → Result (String × Option String) =
          λ u. (get_decrypted_tokens C other u).0 in
        (tokens (save_initial_connection C uuid4 owner account t a s).1 ≡ tokens s)
        × (tokens (update_tokens_versioned C owner version t s).1 ≡ tokens s)
        × (tokens (disconnect_connection owner s).1 ≡ tokens s)
  owners_isolated uuid4 owner other version account t a s ne = (
    tokens_same other s _
        (select-Writes owner other account _ _ ne (save-Writes C uuid4 owner account t a s)),
    tokens_same other s _ (
        select-Writes owner other account _ _ ne
          (update_tokens-Writes C owner version account t s)),
    tokens_same other s _
        (select-Writes owner other account _ _ ne (disconnect-Writes owner account s)),
  )
