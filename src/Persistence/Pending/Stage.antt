-- ===== src/Persistence/Pending/Stage.antt =====
-- src/pinterest_mcp/persistence/pending.py: the stage action.
use pinterest_mcp_docker.Common.{
  ℕ, String, not, ◌||◌, Option, none, some, ◌==◌, string_eq, nat_eq, option_eq, leb,
}
use pinterest_mcp_docker.Common.Rows.{select}
use pinterest_mcp_docker.Persistence.Models.{
  PendingCredential, PendingStatus, connection_status_eq, pending_status_eq,
}
use pinterest_mcp_docker.Persistence.Cipher.{Cipher}
use pinterest_mcp_docker.Persistence.Session.{
  ingress_security, Session, pure, lift, gets, raise_if, draw, ◌>>=◌, ◌>>◌, add_pending,
}
use pinterest_mcp_docker.Persistence.Json.{Fields, dict, get}
use pinterest_mcp_docker.Persistence.Pending.Validation.{Binding, validate_tokens, check_deadline}
use pinterest_mcp_docker.Persistence.Pending.Rows.{
  Library, envelope_aad, Reply, reply, version_of, of_account,
}

module _ (L : Library) (C : Cipher) where
  -- `action == "stage"`, on a transaction that has a row already, and on a new one.
  unfoldable pub stage_again : ℕ → Binding → String → PendingCredential → Session Reply
  stage_again now b digest row = do
    raise_if
        (not (row.status == PendingStatus.pending)
          || leb row.expires_at now
          || not (row.payload_hash == digest))
        (ingress_security "Pending transaction cannot be reused")
    pure (reply "staged" b.transaction)

  abbrev pub staged_row : ℕ → Binding → String → ℕ → ℕ → PendingCredential
  staged_row now b digest deadline version = record {
    transaction_id = b.transaction;
    issuer = b.issuer;
    binding = b.binding;
    provider_account_id = b.account;
    payload_hash = digest;
    encrypted_payload = none;
    expires_at = deadline;
    received_at = now;
    expected_version = version;
    status = PendingStatus.pending;
    completed_subject = none;
  }

  unfoldable pub stage_new : ℕ → Binding → Fields → String → ℕ → Session Reply
  stage_new now b payload digest deadline = do
    conn ← gets λ s. select (of_account b.account) s.connections
    let row = staged_row now b digest deadline (version_of conn)
    n ← draw
    sealed ← lift (C.encrypt n (L.dumps_compact (dict payload)) (envelope_aad row) b.account)
    add_pending (record row { encrypted_payload = some sealed })
    pure (reply "staged" b.transaction)

  unfoldable pub stage : ℕ → Binding → Fields → Option PendingCredential → Session Reply
  unfolding stage_again stage_new
  stage now b payload row = do
    lift (validate_tokens payload)
    deadline ← lift (check_deadline now (get "expires_at" payload))
    let digest = L.sha256 (L.dumps_sorted_compact (dict payload))
    elim row [
      | some r ↦ stage_again now b digest r
      | none ↦ stage_new now b payload digest deadline
    ]
