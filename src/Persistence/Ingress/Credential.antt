-- ===== src/Persistence/Ingress/Credential.antt =====
-- src/pinterest_mcp/persistence/ingress.py: process_credential_ingress, the handoff in one stage,
-- after the payload has been read. `now` and `at` are the clock at the expiry times and at the
-- receipt.
use pinterest_mcp_docker.Common.{
  ℕ, ◌+◌, ◌*◌, String, not, Option, none, some, List, ◌==◌, string_eq, if◌then◌else◌,
}
use pinterest_mcp_docker.Common.Rows.{select}
use pinterest_mcp_docker.Persistence.Models.{second, User, OAuthCompletionReceipt, Store}
use pinterest_mcp_docker.Persistence.Cipher.{Cipher}
use pinterest_mcp_docker.Persistence.Session.{
  ingress_security, Result, ok, err, Session, pure, raise, lift, gets, raise_if, ◌>>=◌, ◌>>◌,
  receipt_of, is_some, add_receipt,
}
use pinterest_mcp_docker.Persistence.Json.{Json, truthy}
use pinterest_mcp_docker.Persistence.Repository.{
  get_by_issuer_subject, get_by_provider_account, create_user, save_initial_connection,
}
use pinterest_mcp_docker.Persistence.Ingress.Nonces.{Nonces}
use pinterest_mcp_docker.Persistence.Ingress.Signature.{
  Hashing, Request, compute_body_digest, authenticate_ingress,
}
use pinterest_mcp_docker.Persistence.Ingress.Payload.{Python, Handoff, parse_handoff}

pub data Persisted : Type 0 where
  idempotent_duplicate : ℕ → String → Persisted
  persisted : ℕ → ℕ → String → Persisted

abbrev pub refresh_expiry : Python → ℕ → Json → Result (Option ℕ)
refresh_expiry py now lifetime =
    if truthy lifetime
    then elim (py.float lifetime) [ ok n ↦ ok (some (now + n)) | err e ↦ err e ]
    else ok none

-- Step 5: the user of the login must own the account; on a first login nobody may own it.
unfoldable pub resolve_owner : (ℕ → ℕ) → Handoff → Option User → Session User
unfolding get_by_provider_account
resolve_owner uuid4 h (some user) = do
  raise_if (not (user.provider_account_id == h.provider_account_id))
      (ingress_security "Subject is bound to another provider account")
  pure user
resolve_owner uuid4 h none = do
  other ← get_by_provider_account h.provider_account_id
  raise_if (is_some other) (ingress_security "Provider account is already bound to another owner")
  create_user uuid4 h.issuer h.subject h.provider_account_id "active"

abbrev pub receipt_of_handoff : Handoff → ℕ → String → ℕ → OAuthCompletionReceipt
receipt_of_handoff h owner hash at = record {
  transaction_id = h.transaction_id;
  owner_id = owner;
  provider_account_id = h.provider_account_id;
  payload_hash = hash;
  expires_at = at + 300 * second;
}

module _ (C : Cipher) (py : Python) (uuid4 : ℕ → ℕ) where
  -- Steps 5 to 7: the owner, the connection and the receipt.
  unfoldable pub persist_new : ℕ → ℕ → String → Handoff → Session Persisted
  unfolding get_by_issuer_subject resolve_owner
  persist_new now at hash h = do
    lifetime ← lift (py.float h.expires_in)
    refresh_expires_at ← lift (refresh_expiry py now h.refresh_expires_in)
    user ← get_by_issuer_subject h.issuer h.subject
    owner ← resolve_owner uuid4 h user
    conn ←
        save_initial_connection C uuid4 owner.id h.provider_account_id
          (record {
            access_token = h.access_token;
            refresh_token = h.refresh_token;
            access_token_expires_at = now + lifetime;
            refresh_token_expires_at = refresh_expires_at;
          })
          h.account
    add_receipt (receipt_of_handoff h owner.id hash at)
    pure (persisted owner.id conn.credential_version h.transaction_id)

  -- Steps 3 to 7: a transaction that has a receipt is answered from it.
  unfoldable pub persist : ℕ → ℕ → String → Handoff → Session Persisted
  unfolding persist_new
  persist now at hash h = do
    existing ← gets λ s. select (receipt_of h.transaction_id) s.receipts
    elim existing [
      | some receipt ↦ do
        raise_if (not (receipt.payload_hash == hash))
            (ingress_security "Transaction ID already exists with mismatched payload")
        pure (idempotent_duplicate receipt.owner_id h.transaction_id)
      | none ↦ persist_new now at hash h
    ]

  -- Step 2: a body that is not JSON is refused.
  abbrev pub read_payload : List ℕ → Result Handoff
  read_payload body = elim (py.loads body) [
    | none ↦ err (ingress_security "Malformed JSON payload")
    | some json ↦ parse_handoff py json
  ]

  abbrev pub after_authentication : Hashing → ℕ → ℕ → List ℕ → Result (Unit {0}) → Session Persisted
  after_authentication H now at body (err e) = raise e
  after_authentication H now at body (ok u) = do
    h ← lift (read_payload body)
    persist now at (compute_body_digest H body) h

  -- `fresh` and `used` are the clock at the freshness check and at the nonce store.
  unfoldable pub process_credential_ingress :
      Hashing
      → String
      → ℕ
      → ℕ
      → ℕ
      → ℕ
      → Request
      → Nonces
      → Store
      → (Result Persisted × Store) × Nonces
  unfolding persist parse_handoff
  process_credential_ingress H secret fresh used now at req nonces s =
      let authenticated = authenticate_ingress H secret req fresh used nonces in
      (after_authentication H now at req.body authenticated.0 s, authenticated.1)
