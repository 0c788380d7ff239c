-- ===== src/Persistence/Models.antt =====
-- src/pinterest_mcp/persistence/models.py: the tables as records of rows, with the constraints
-- that the schema declares checked on every insert. A UUID is a number; a `Float` time stamp is a
-- whole number of microseconds since the epoch. The audit columns `created_at` and `updated_at`,
-- which no code reads, are left out.
use pinterest_mcp_docker.Common.{ℕ, String, Option, List}
use pinterest_mcp_docker.Common.{Eq}

-- One second, in microseconds.
abbrev pub second : ℕ
second = 1000000

pub record User : Type 0 where
  pub id : ℕ
  pub issuer : String
  pub subject : String
  pub provider_account_id : String
  pub lifecycle_status : String

pub data ConnectionStatus : Type 0 where
  active disconnected reconnect_required expired : ConnectionStatus

pub record PinterestConnection : Type 0 where
  pub id : ℕ
  pub owner_id : ℕ
  pub provider_account_id : String
  pub account_username : Option String
  pub account_type : Option String
  pub encrypted_access_token : String
  pub encrypted_refresh_token : Option String
  pub access_token_expires_at : ℕ
  pub refresh_token_expires_at : Option ℕ
  pub scopes : String
  pub key_id : String
  pub credential_version : ℕ
  pub status : ConnectionStatus

-- `status` is always "completed".
pub record OAuthCompletionReceipt : Type 0 where
  pub transaction_id : String
  pub owner_id : ℕ
  pub provider_account_id : String
  pub payload_hash : String
  pub expires_at : ℕ

pub record ImmediateOperation : Type 0 where
  pub operation_key : String
  pub owner_id : ℕ
  pub tool_name : String
  pub payload_hash : String
  pub dispatch_state : String
  pub response_payload : Option String
  pub error_message : Option String

pub data PendingStatus : Type 0 where
  pending completed cancelled expired : PendingStatus

pub record PendingCredential : Type 0 where
  pub transaction_id : String
  pub issuer : String
  pub binding : String
  pub provider_account_id : String
  pub payload_hash : String
  pub encrypted_payload : Option String
  pub expires_at : ℕ
  pub received_at : ℕ
  pub expected_version : ℕ
  pub status : PendingStatus
  pub completed_subject : Option String

ConnectionStatus-discrete : Discrete ConnectionStatus
ConnectionStatus-discrete = hlevel

PendingStatus-discrete : Discrete PendingStatus
PendingStatus-discrete = hlevel

instance unfoldable pub connection_status_eq : Eq ConnectionStatus
unfolding ConnectionStatus-discrete
connection_status_eq = record { dec = ConnectionStatus-discrete }

instance unfoldable pub pending_status_eq : Eq PendingStatus
unfolding PendingStatus-discrete
pending_status_eq = record { dec = PendingStatus-discrete }

-- The database, and how many random values (UUIDs and nonces) have been drawn.
pub record Store : Type 0 where
  pub users : List User
  pub connections : List PinterestConnection
  pub receipts : List OAuthCompletionReceipt
  pub operations : List ImmediateOperation
  pub pendings : List PendingCredential
  pub draws : ℕ
