-- ===== src/Persistence/Pending/Complete.antt =====
-- src/pinterest_mcp/persistence/pending.py: the cancel and complete actions.
use pinterest_mcp_docker.Common.{
  ℕ, ◌+◌, String, Bool, true, false, not, ◌||◌, Option, none, some, ◌==◌, string_eq, nat_eq,
  option_eq, if◌then◌else◌, leb,
}
use pinterest_mcp_docker.Common.Rows.{select}
use pinterest_mcp_docker.Persistence.Models.{
  User, ConnectionStatus, PendingCredential, PendingStatus, connection_status_eq, pending_status_eq,
}
use pinterest_mcp_docker.Persistence.Cipher.{Cipher}
use pinterest_mcp_docker.Persistence.Session.{
  Error, ingress_security, value_error, Result, ok, err, Session, pure, raise, lift, gets, raise_if,
  ◌>>=◌, ◌>>◌, receipt_of, add_receipt,
}
use pinterest_mcp_docker.Persistence.Json.{Json, null, text, Fields, dict, get}
use pinterest_mcp_docker.Persistence.Pending.Validation.{
  Binding, required_text, as_dict, as_text, as_seconds, index,
}
use pinterest_mcp_docker.Persistence.Repository.{
  Credentials, Account, cancelled_row, get_by_issuer_subject, get_by_provider_account,
  get_for_owner, create_user, save_initial_connection,
}
use pinterest_mcp_docker.Persistence.Pending.Rows.{
  Library, envelope_aad, Reply, reply, version_of, write_pending,
}

-- `action == "cancel"`.
unfoldable pub cancel : Binding → PendingCredential → Session Reply
unfolding write_pending
cancel b row =
    if row.status == PendingStatus.pending
    then (do write_pending b.transaction cancelled_row; pure (reply "cancelled" b.transaction))
    else pure (reply "cancelled" b.transaction)

abbrev pub unavailable : Error
unavailable = ingress_security "Pending transaction unavailable"

-- Another user than the one that logs in.
abbrev pub is_other : Option User → User → Bool
is_other none owner = true
is_other (some user) owner = not (owner.id == user.id)

-- The owner of the account must be the user that logs in, and that user's account must be the one.
abbrev pub check_owner : String → Option User → Option User → Session (Unit {0})
check_owner account user account_owner = do
  raise_if (elim user [ none ↦ false | some u ↦ not (u.lifecycle_status == "active") ])
      (ingress_security "Account unavailable")
  raise_if
      (elim user [ none ↦ false | some u ↦ not (u.provider_account_id == account) ]
        || elim account_owner [ none ↦ false | some o ↦ is_other user o ])
      (ingress_security "Account owner mismatch")

abbrev pub completed_row : String → PendingCredential → PendingCredential
completed_row subject r = record r {
  status = PendingStatus.completed;
  completed_subject = some subject;
  encrypted_payload = none;
}

-- `envelope.get(…)` of an optional text column; the database refuses a value of another type.
column_text : Json → Result (Option String)
column_text null = ok none
column_text (text t) = ok (some t)
column_text _ = err value_error

-- What the envelope holds: the credentials, their lifetimes in microseconds, and the account names.
pub record Envelope : Type 0 where
  pub access_token : String
  pub refresh_token : String
  pub expires_in : ℕ
  pub refresh_token_expires_in : ℕ
  pub account : Account

module _ (L : Library) (C : Cipher) where
  -- A retry of a completed transaction, which writes nothing.
  unfoldable pub complete_again : Binding → Fields → String → PendingCredential → Session Reply
  unfolding get_for_owner
  complete_again b payload subject row = do
    raise_if (not (row.completed_subject == some subject))
        (ingress_security "Completed transaction owner mismatch")
    found ← gets λ s. select (receipt_of b.transaction) s.receipts
    elim found [
      | none ↦ raise (ingress_security "Completed transaction payload mismatch")
      | some receipt ↦ do
        raise_if (not (receipt.payload_hash == L.sha256 (L.dumps_sorted (dict payload))))
            (ingress_security "Completed transaction payload mismatch")
        conn ← get_for_owner receipt.owner_id
        raise_if (elim conn [ none ↦ true | some c ↦ not (c.status == ConnectionStatus.active) ])
            (ingress_security "Completed connection unavailable")
        pure (reply "completed" b.transaction)
    ]

  -- Decrypt and read the staged envelope.
  unfoldable pub open_envelope : PendingCredential → String → String → Session Envelope
  unfolding as_dict as_text as_seconds index column_text get
  open_envelope row account sealed = do
    plain ← lift (C.decrypt sealed (envelope_aad row) account)
    parsed ← elim (L.loads plain) [ none ↦ raise value_error | some j ↦ pure j ]
    envelope ← lift (as_dict parsed)
    tokens ← lift (index "tokens" envelope)
    tokens ← lift (as_dict tokens)
    lifetime ← lift (index "expires_in" tokens)
    expires_in ← lift (as_seconds lifetime)
    access ← lift (index "access_token" tokens)
    access ← lift (as_text access)
    refresh ← lift (index "refresh_token" tokens)
    refresh ← lift (as_text refresh)
    lifetime ← lift (index "refresh_token_expires_in" tokens)
    refresh_expires_in ← lift (as_seconds lifetime)
    scope ← lift (index "scope" tokens)
    scopes ← lift (as_text scope)
    username ← lift (column_text (get "account_username" envelope))
    kind ← lift (column_text (get "account_type" envelope))
    pure (record {
      access_token = access;
      refresh_token = refresh;
      expires_in = expires_in;
      refresh_token_expires_in = refresh_expires_in;
      account = record { scopes = scopes; account_username = username; account_type = kind };
    })

  abbrev pub credentials_of : PendingCredential → Envelope → Credentials
  credentials_of row e = record {
    access_token = e.access_token;
    refresh_token = some e.refresh_token;
    access_token_expires_at = row.received_at + e.expires_in;
    refresh_token_expires_at = some (row.received_at + e.refresh_token_expires_in);
  }

  -- The user that logs in, created on the first login.
  abbrev pub user_or_new : (ℕ → ℕ) → Binding → String → Option User → Session User
  user_or_new uuid4 b subject (some u) = pure u
  user_or_new uuid4 b subject none = create_user uuid4 b.issuer subject b.account "active"

  -- Provision: the user, the connection, the receipt, and the erased row.
  unfoldable pub provision :
      (ℕ → ℕ)
      → Binding
      → Fields
      → String
      → PendingCredential
      → Option User
      → Envelope
      → Session Reply
  unfolding write_pending
  provision uuid4 b payload subject row user e = do
    owner ← user_or_new uuid4 b subject user
    save_initial_connection C uuid4 owner.id b.account (credentials_of row e) e.account
    add_receipt (record {
      transaction_id = b.transaction;
      owner_id = owner.id;
      provider_account_id = b.account;
      payload_hash = L.sha256 (L.dumps_sorted (dict payload));
      expires_at = row.expires_at;
    })
    write_pending b.transaction (completed_row subject)
    pure (reply "completed" b.transaction)

  unfoldable pub complete_first :
      (ℕ → ℕ) → ℕ → Binding → Fields → String → PendingCredential → Session Reply
  unfolding get_by_issuer_subject get_by_provider_account get_for_owner provision
  complete_first uuid4 now b payload subject row = do
    user ← get_by_issuer_subject b.issuer subject
    account_owner ← get_by_provider_account b.account
    check_owner b.account user account_owner
    conn ← elim user [ none ↦ pure none | some u ↦ get_for_owner u.id ]
    raise_if (not (version_of conn == row.expected_version))
        (ingress_security "Connection changed during login")
    elim row.encrypted_payload [
      | none ↦ raise (ingress_security "Pending credentials unavailable")
      | some sealed ↦ do
        e ← open_envelope row b.account sealed
        raise_if (leb (row.received_at + e.expires_in) now)
            (ingress_security "Pending provider credentials expired")
        provision uuid4 b payload subject row user e
    ]

  -- `action == "complete"`.
  unfoldable pub complete : (ℕ → ℕ) → ℕ → Binding → Fields → PendingCredential → Session Reply
  unfolding complete_again complete_first
  complete uuid4 now b payload row = do
    raise_if
        (leb row.expires_at now
          || not (row.status == PendingStatus.pending || row.status == PendingStatus.completed))
        unavailable
    subject ← lift (required_text payload "subject" 256)
    if row.status == PendingStatus.completed
        then complete_again b payload subject row
        else complete_first uuid4 now b payload subject row
