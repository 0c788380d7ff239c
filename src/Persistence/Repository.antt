-- ===== src/Persistence/Repository.antt =====
-- src/pinterest_mcp/persistence/repository.py: the owner-filtered repositories. Each method is a
-- session; `uuid4` gives the identifier of a random draw, and the cipher is a parameter.
pub mod Stored
pub mod Tables
pub mod Writes
pub mod Renewal
pub mod Operations
mod Examples
use pinterest_mcp_docker.Common.{
  ℕ, suc, ◌+◌, String, Bool, true, false, not, Option, none, some, List, [], ◌∷◌, ◌==◌, contains,
  string_eq, nat_eq, if◌then◌else◌, ◌&&◌,
}
use pinterest_mcp_docker.Common.Rows.{select, modify_row, update}
use pinterest_mcp_docker.Persistence.Models.{
  User, PinterestConnection, ConnectionStatus, ImmediateOperation, PendingCredential, PendingStatus,
  Store, connection_status_eq, pending_status_eq,
}
use pinterest_mcp_docker.Persistence.Cipher.{Cipher, OwnerId, uuid}
use pinterest_mcp_docker.Persistence.Session.{
  Error, inactive_connection, repository, concurrent_modification, foreign_account, Session, pure,
  raise, lift, gets, write, raise_if, draw, ◌>>=◌, ◌>>◌, has_id, has_identity, has_account,
  owned_by, operation_of, add_user, add_connection, add_operation,
}

-- Python's truth of an optional text.
abbrev pub is_truthy : Option String → Bool
is_truthy none = false
is_truthy (some t) = not (t == "")

-- `UserRepository`
unfoldable pub get_by_id : ℕ → Session (Option User)
get_by_id user_id = gets λ s. select (has_id user_id) s.users

unfoldable pub get_by_issuer_subject : String → String → Session (Option User)
get_by_issuer_subject issuer subject = gets λ s. select (has_identity issuer subject) s.users

unfoldable pub get_by_provider_account : String → Session (Option User)
get_by_provider_account account = gets λ s. select (has_account account) s.users

unfoldable pub create_user : (ℕ → ℕ) → String → String → String → String → Session User
create_user uuid4 issuer subject provider_account_id lifecycle_status = do
  n ← draw
  let user : User = record {
    id = uuid4 n;
    issuer = issuer;
    subject = subject;
    provider_account_id = provider_account_id;
    lifecycle_status = lifecycle_status;
  }
  add_user user
  pure user

-- `ConnectionRepository`
unfoldable pub get_for_owner : ℕ → Session (Option PinterestConnection)
get_for_owner owner_id = gets λ s. select (owned_by owner_id) s.connections

-- An attribute write on the connection that `get_for_owner` returned, and its flush.
unfoldable pub write_connection :
    ℕ → (PinterestConnection → PinterestConnection) → Session (Unit {0})
write_connection owner_id f =
    write λ s. record s { connections = modify_row (owned_by owner_id) f s.connections }

abbrev pub or_raise : {A : Type 0} → Option A → Error → Session A
or_raise none e = raise e
or_raise (some a) e = pure a

-- The new credentials of a connection.
pub record Credentials : Type 0 where
  pub access_token : String
  pub refresh_token : Option String
  pub access_token_expires_at : ℕ
  pub refresh_token_expires_at : Option ℕ

pub record Account : Type 0 where
  pub scopes : String
  pub account_username : Option String
  pub account_type : Option String

abbrev pub reconnected :
    PinterestConnection → String → Option String → Credentials → Account → PinterestConnection
reconnected c access refresh t a = record c {
  encrypted_access_token = access;
  encrypted_refresh_token = refresh;
  access_token_expires_at = t.access_token_expires_at;
  refresh_token_expires_at = t.refresh_token_expires_at;
  scopes = a.scopes;
  account_username =
      if is_truthy a.account_username then a.account_username else c.account_username;
  account_type = if is_truthy a.account_type then a.account_type else c.account_type;
  status = ConnectionStatus.active;
  credential_version = c.credential_version + 1;
}

abbrev pub renewed :
    ℕ → PinterestConnection → String → Option String → Credentials → PinterestConnection
renewed version c access refresh t = record c {
  encrypted_access_token = access;
  encrypted_refresh_token = refresh;
  access_token_expires_at = t.access_token_expires_at;
  refresh_token_expires_at = t.refresh_token_expires_at;
  credential_version = version + 1;
  status = ConnectionStatus.active;
}

abbrev pub initial :
    (ℕ → ℕ)
    → String
    → ℕ
    → ℕ
    → String
    → String
    → Option String
    → Credentials
    → Account
    → PinterestConnection
initial uuid4 key_id n owner_id account access refresh t a = record {
  id = uuid4 n;
  owner_id = owner_id;
  provider_account_id = account;
  account_username = a.account_username;
  account_type = a.account_type;
  encrypted_access_token = access;
  encrypted_refresh_token = refresh;
  access_token_expires_at = t.access_token_expires_at;
  refresh_token_expires_at = t.refresh_token_expires_at;
  scopes = a.scopes;
  key_id = key_id;
  credential_version = 1;
  status = ConnectionStatus.active;
}

module _ (C : Cipher) where
  unfoldable pub encrypt_some : Option String → OwnerId → String → Session (Option String)
  encrypt_some none owner account = pure none
  encrypt_some (some token) owner account =
      if token == ""
      then pure none
      else do n ← draw; sealed ← lift (C.encrypt n token owner account); pure (some sealed)

  -- The access token is encrypted, then the refresh token if there is one.
  unfoldable pub encrypt_pair : Credentials → ℕ → String → Session (String × Option String)
  unfolding encrypt_some
  encrypt_pair t owner_id account = do
    n ← draw
    access ← lift (C.encrypt n t.access_token (uuid owner_id) account)
    refresh ← encrypt_some t.refresh_token (uuid owner_id) account
    pure (access, refresh)

  unfoldable pub decrypt_some : Option String → OwnerId → String → Session (Option String)
  decrypt_some none owner account = pure none
  decrypt_some (some sealed) owner account =
      if sealed == ""
      then pure none
      else do token ← lift (C.decrypt sealed owner account); pure (some token)

  unfoldable pub get_decrypted_tokens : ℕ → Session (String × Option String)
  unfolding get_for_owner decrypt_some
  get_decrypted_tokens owner_id = do
    found ← get_for_owner owner_id
    conn ← or_raise found (inactive_connection "No connection found for owner")
    raise_if (not (conn.status == ConnectionStatus.active))
        (inactive_connection "Connection is not active")
    access ← lift (C.decrypt conn.encrypted_access_token (uuid owner_id) conn.provider_account_id)
    refresh ← decrypt_some conn.encrypted_refresh_token (uuid owner_id) conn.provider_account_id
    pure (access, refresh)

  unfoldable pub reconnect_connection :
      ℕ → String → Credentials → Account → Session PinterestConnection
  unfolding get_for_owner write_connection encrypt_pair
  reconnect_connection owner_id account t a = do
    found ← get_for_owner owner_id
    conn ← or_raise found (inactive_connection "Connection not found")
    raise_if (not (conn.provider_account_id == account)) foreign_account
    (access, refresh) ← encrypt_pair t owner_id account
    write_connection owner_id (λ c. reconnected c access refresh t a)
    pure (reconnected conn access refresh t a)

  -- The first connection of an owner; an existing one is checked and reconnected.
  unfoldable pub save_initial_connection :
      (ℕ → ℕ) → ℕ → String → Credentials → Account → Session PinterestConnection
  unfolding get_for_owner
  save_initial_connection uuid4 owner_id account t a = do
    existing ← get_for_owner owner_id
    elim existing [
      | some c ↦ do
        raise_if (not (c.provider_account_id == account)) foreign_account
        reconnect_connection owner_id account t a
      | none ↦ do
        (access, refresh) ← encrypt_pair t owner_id account
        n ← draw
        let conn = initial uuid4 C.primary_key_id n owner_id account access refresh t a
        add_connection conn
        pure conn
    ]

  unfoldable pub update_tokens_versioned : ℕ → ℕ → Credentials → Session PinterestConnection
  unfolding get_for_owner write_connection encrypt_pair
  update_tokens_versioned owner_id expected t = do
    found ← get_for_owner owner_id
    conn ← or_raise found (inactive_connection "Connection not found")
    raise_if (not (conn.credential_version == expected)) concurrent_modification
    (access, refresh) ← encrypt_pair t owner_id conn.provider_account_id
    write_connection owner_id (λ c. renewed expected c access refresh t)
    pure (renewed expected conn access refresh t)

-- The tombstone that replaces the ciphertext of a disconnected account.
abbrev pub tombstone : String
tombstone = "REVOKED_AND_DISCONNECTED"

abbrev pub revoked : PinterestConnection → PinterestConnection
revoked c = record c {
  encrypted_access_token = tombstone;
  encrypted_refresh_token = none;
  status = ConnectionStatus.disconnected;
  credential_version = c.credential_version + 1;
}

-- The staged credentials of an account: `WHERE provider_account_id = … AND status = 'pending'`.
abbrev pub staged_for : String → PendingCredential → Bool
staged_for account r = r.provider_account_id == account && r.status == PendingStatus.pending

abbrev pub cancelled_row : PendingCredential → PendingCredential
cancelled_row r = record r { encrypted_payload = none; status = PendingStatus.cancelled }

unfoldable pub cancel_staged : String → Session (Unit {0})
cancel_staged account =
    write λ s. record s { pendings = update (staged_for account) cancelled_row s.pendings }

unfoldable pub disconnect_connection : ℕ → Session PinterestConnection
unfolding get_for_owner write_connection cancel_staged
disconnect_connection owner_id = do
  found ← get_for_owner owner_id
  conn ← or_raise found (inactive_connection "Connection not found")
  cancel_staged conn.provider_account_id
  write_connection owner_id revoked
  pure (revoked conn)
