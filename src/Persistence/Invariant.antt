-- ===== src/Persistence/Invariant.antt =====
-- The invariant of the database that src/pinterest_mcp/persistence maintains.
pub mod Accounts
pub mod Handoff
pub mod Methods
pub mod Operations
pub mod Requests
use pinterest_mcp_docker.Common.{
  ℕ, ◌≡◌, ◌≢◌, String, Bool, Option, none, some, List, All, ◌==◌, string_eq, nat_eq,
}
use pinterest_mcp_docker.Common.Rows.{select}
use pinterest_mcp_docker.Common.Distinct.{Distinct}
use pinterest_mcp_docker.Persistence.Models.{
  User, PinterestConnection, OAuthCompletionReceipt, ImmediateOperation, PendingCredential,
  PendingStatus, Store,
}
use pinterest_mcp_docker.Persistence.Session.{
  has_id, has_identity, has_account, owned_by, pending_of, receipt_of, operation_of,
}

abbrev pub same_id : User → User → Bool
same_id u v = has_id u.id v

abbrev pub same_identity : User → User → Bool
same_identity u v = has_identity u.issuer u.subject v

abbrev pub same_account : User → User → Bool
same_account u v = has_account u.provider_account_id v

abbrev pub same_owner : PinterestConnection → PinterestConnection → Bool
same_owner c d = owned_by c.owner_id d

abbrev pub same_transaction : PendingCredential → PendingCredential → Bool
same_transaction r q = pending_of r.transaction_id q

-- An identifier, an identity and an account belong to one user each.
pub record UsersOk (users : List User) : Type 0 where
  pub ids : Distinct same_id users
  pub identities : Distinct same_identity users
  pub accounts : Distinct same_account users

abbrev pub account_of : Option User → Option String
account_of none = none
account_of (some u) = some u.provider_account_id

-- The owner exists, and its account is the one given.
abbrev pub Owns : List User → ℕ → String → Type 0
Owns users owner account = account_of (select (has_id owner) users) ≡ some account

-- An owner has one connection, and it is to the owner's own account.
pub record ConnectionsOk (users : List User) (connections : List PinterestConnection) : Type 0 where
  pub owners : Distinct same_owner connections
  pub linked : All (λ c. Owns users c.owner_id c.provider_account_id) connections

abbrev pub ReceiptsOk : List User → List OAuthCompletionReceipt → Type 0
ReceiptsOk users = All (λ r. Owns users r.owner_id r.provider_account_id)

abbrev pub same_receipt : OAuthCompletionReceipt → OAuthCompletionReceipt → Bool
same_receipt r q = receipt_of r.transaction_id q

abbrev pub same_operation : ImmediateOperation → ImmediateOperation → Bool
same_operation o p = operation_of o.operation_key p

-- Ciphertext is held exactly while the row is pending.
pub record IsSealed (r : PendingCredential) : Type 0 where
  pub held : r.status ≡ PendingStatus.pending → r.encrypted_payload ≢ none
  pub erased : r.status ≢ PendingStatus.pending → r.encrypted_payload ≡ none

pub record PendingsOk (pendings : List PendingCredential) : Type 0 where
  pub transactions : Distinct same_transaction pendings
  pub sealed : All IsSealed pendings

pub record IsValid (s : Store) : Type 0 where
  pub users : UsersOk s.users
  pub connections : ConnectionsOk s.users s.connections
  pub receipts : ReceiptsOk s.users s.receipts
  pub pendings : PendingsOk s.pendings
  pub transactions : Distinct same_receipt s.receipts
  pub operations : Distinct same_operation s.operations
