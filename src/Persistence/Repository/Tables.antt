-- ===== src/Persistence/Repository/Tables.antt =====
-- src/pinterest_mcp/persistence/repository.py: the tables that each method leaves alone, on every
-- branch.
use pinterest_mcp_docker.Common.{ℕ, ◌≡◌, String, Option, none, some, arith}
use pinterest_mcp_docker.Persistence.Models.{Store}
use pinterest_mcp_docker.Persistence.Cipher.{Cipher, OwnerId}
use pinterest_mcp_docker.Persistence.Session.{add_user, add_connection}
use pinterest_mcp_docker.Persistence.Repository.{
  Credentials, Account, create_user, encrypt_some, encrypt_pair, reconnect_connection,
  save_initial_connection, update_tokens_versioned,
}

-- The tables outside the connections.
pub record KeepsOthers (s t : Store) : Type 0 where
  pub users : t.users ≡ s.users
  pub receipts : t.receipts ≡ s.receipts
  pub operations : t.operations ≡ s.operations
  pub pendings : t.pendings ≡ s.pendings

pub record KeepsTables (s t : Store) : Type 0 where
  pub others : KeepsOthers s t
  pub connections : t.connections ≡ s.connections

module _ (C : Cipher) where
  encrypt_some-KeepsTables :
      (token : Option String) (o : OwnerId) (account : String) (s : Store)
      → KeepsTables s (encrypt_some C token o account s).1
  unfolding encrypt_some
  encrypt_some-KeepsTables none o account s = ground arith
  encrypt_some-KeepsTables (some t) o account s = ground arith

  pub encrypt_pair-KeepsTables :
      (t : Credentials) (owner : ℕ) (account : String) (s : Store)
      → KeepsTables s (encrypt_pair C t owner account s).1
  unfolding encrypt_pair
  encrypt_pair-KeepsTables t owner account s = grind (arith, encrypt_some-KeepsTables)

  pub reconnect-KeepsOthers :
      (owner : ℕ) (account : String) (t : Credentials) (a : Account) (s : Store)
      → KeepsOthers s (reconnect_connection C owner account t a s).1
  unfolding reconnect_connection
  reconnect-KeepsOthers owner account t a s =
      ground (arith, encrypt_pair-KeepsTables t owner account s)

  pub save-KeepsOthers :
      (uuid4 : ℕ → ℕ) (owner : ℕ) (account : String) (t : Credentials) (a : Account) (s : Store)
      → KeepsOthers s (save_initial_connection C uuid4 owner account t a s).1
  unfolding save_initial_connection add_connection
  save-KeepsOthers uuid4 owner account t a s =
      ground (
        arith,
        encrypt_pair-KeepsTables t owner account s,
        reconnect-KeepsOthers owner account t a s,
      )

  pub update_tokens-KeepsOthers :
      (owner version : ℕ) (t : Credentials) (s : Store)
      → KeepsOthers s (update_tokens_versioned C owner version t s).1
  unfolding update_tokens_versioned
  update_tokens-KeepsOthers owner version t s = grind (arith, encrypt_pair-KeepsTables)

-- A new user changes the users alone.
pub record KeepsAllButUsers (s t : Store) : Type 0 where
  pub connections : t.connections ≡ s.connections
  pub receipts : t.receipts ≡ s.receipts
  pub operations : t.operations ≡ s.operations
  pub pendings : t.pendings ≡ s.pendings

pub create_user-KeepsAllButUsers :
    (uuid4 : ℕ → ℕ) (issuer subject account status : String) (s : Store)
    → KeepsAllButUsers s (create_user uuid4 issuer subject account status s).1
unfolding create_user add_user
create_user-KeepsAllButUsers uuid4 issuer subject account status s = ground arith
