-- ===== src/Persistence/Completion.antt =====
-- What a successful completion leaves in the database (src/pinterest_mcp/persistence/pending.py
-- over repository.py).
pub mod Retry
use pinterest_mcp_docker.Common.{
  ℕ, ◌<◌, ◌≡◌, refl, String, true, false, not, Option, none, some, List, [], ◌∷◌, ◌++◌, ◌==◌, leb,
  arith, ap, sym, ◌∙◌, Option-cases, Bool-cases, inl, inr, string_eq, nat_eq, ==_self,
}
use pinterest_mcp_docker.Common.Rows.{
  select, modify_row, select-append, select-modify_row_self, select_sound,
}
use pinterest_mcp_docker.Persistence.Models.{
  User, PinterestConnection, OAuthCompletionReceipt, PendingCredential, PendingStatus, Store,
  pending_status_eq,
}
use pinterest_mcp_docker.Persistence.Cipher.{Cipher, IsLawful}
use pinterest_mcp_docker.Persistence.Json.{Fields, dict}
use pinterest_mcp_docker.Persistence.Session.{
  Result, ok, err, Error, Run-cases, Result-cases, continue-eq-ok, has_identity, receipt_of,
  pending_of, add_receipt, add_user,
}
use pinterest_mcp_docker.Persistence.Session.Inserts.{add_receipt-eq-ok}
use pinterest_mcp_docker.Persistence.Repository.{
  create_user, get_decrypted_tokens, save_initial_connection,
}
use pinterest_mcp_docker.Persistence.Repository.Tables.{
  save-KeepsOthers, create_user-KeepsAllButUsers,
}
use pinterest_mcp_docker.Persistence.Repository.Stored.{kept, get_decrypted_tokens-save}
use pinterest_mcp_docker.Persistence.Pending.Validation.{Binding, required_text}
use pinterest_mcp_docker.Persistence.Pending.Rows.{Library, Reply, reply, write_pending}
use pinterest_mcp_docker.Persistence.Pending.Complete.{
  Envelope, user_or_new, credentials_of, completed_row, provision, complete_first, complete,
}
use pinterest_mcp_docker.Persistence.Pending.Lifecycle.{user_or_new-pendings}
use pinterest_mcp_docker.Persistence.Pending.Provisioning.{MayProvision, complete_first-cases}

module _ (L : Library) (C : Cipher) (uuid4 : ℕ → ℕ) where
  abbrev pub receipt_for : Binding → Fields → PendingCredential → User → OAuthCompletionReceipt
  receipt_for b payload row owner = record {
    transaction_id = b.transaction;
    owner_id = owner.id;
    provider_account_id = b.account;
    payload_hash = L.sha256 (L.dumps_sorted (dict payload));
    expires_at = row.expires_at;
  }

  -- The state in which a completion ends.
  pub record Provisioned (b : Binding) (payload : Fields) (subject : String)
      (row : PendingCredential) (e : Envelope) (s' : Store) : Type 0 where
    pub owner : User
    pub user : select (has_identity b.issuer subject) s'.users ≡ some owner
    pub tokens :
        (get_decrypted_tokens C owner.id s').0 ≡ ok (e.access_token, kept (some e.refresh_token))
    pub receipt :
        select (receipt_of b.transaction) s'.receipts ≡ some (receipt_for b payload row owner)
    pub erased : select (pending_of b.transaction) s'.pendings ≡ some (completed_row subject row)

  user_or_new-found :
      (b : Binding) (subject : String) (user : Option User) (s t : Store) (owner : User)
      → select (has_identity b.issuer subject) s.users ≡ user
      → user_or_new L C uuid4 b subject user s ≡ (ok owner, t)
      → select (has_identity b.issuer subject) t.users ≡ some owner
  unfolding create_user add_user
  user_or_new-found b subject none s t owner found ran =
      ground (arith, select-append (has_identity b.issuer subject) s.users owner)
  user_or_new-found b subject (some u) s t owner found ran = ground arith

  -- Reading tokens depends on the connections alone.
  tokens-connections :
      (owner : ℕ) (s t : Store)
      → t.connections ≡ s.connections
      → (get_decrypted_tokens C owner t).0 ≡ (get_decrypted_tokens C owner s).0
  unfolding get_decrypted_tokens
  tokens-connections owner s t same = ground arith

  provision-Provisioned :
      (lawful : IsLawful C) (b : Binding) (payload : Fields) (subject : String)
      (row : PendingCredential) (user : Option User) (e : Envelope) (s s' : Store) (r : Reply)
      → select (has_identity b.issuer subject) s.users ≡ user
      → select (pending_of b.transaction) s.pendings ≡ some row
      → provision L C uuid4 b payload subject row user e s ≡ (ok r, s')
      → (r ≡ reply "completed" b.transaction) × Provisioned b payload subject row e s'
  unfolding provision write_pending
  provision-Provisioned lawful b payload subject row user e s s' r known found ran =
      let (owner, t, made, ran1) =
        continue-eq-ok (user_or_new L C uuid4 b subject user s) _ r s' ran in
      let (conn, t', saved, ran2) =
        continue-eq-ok
          (save_initial_connection C uuid4 owner.id b.account (credentials_of L C row e) e.account
            t)
          _ r s' ran1 in
      let (_, t'', added, ran3) =
        continue-eq-ok (add_receipt (receipt_for b payload row owner) t') _ r s' ran2 in
      let (stored, fresh) = add_receipt-eq-ok (receipt_for b payload row owner) t' t'' added in
      let last : record t'' {
        pendings = modify_row (pending_of b.transaction) (completed_row subject) t''.pendings;
      }
          ≡ s' =
        ap (λ p. p.1) ran3 in
      let k : (t'.users ≡ t.users) × (t'.pendings ≡ t.pendings) =
        let k =
          save-KeepsOthers C uuid4 owner.id b.account (credentials_of L C row e) e.account t in
        (rw saved at k.users, rw saved at k.pendings) in
      let rows : t.pendings ≡ s.pendings =
        rw made at (user_or_new-pendings L C uuid4 b subject user s) in
      let here : select (pending_of b.transaction) t''.pendings ≡ some row =
        rw stored (rw (k.1) (rw rows found)) in
      (
        cc,
        rw (← last) (record {
          owner = owner;
          user = rw stored (rw k.0 (user_or_new-found b subject user s t owner known made));
          tokens =
              tokens-connections owner.id t' _ (ap (λ (u : Store). u.connections) stored)
              ∙ ap (λ (p : Result (String × Option String) × Store). p.0)
                  (get_decrypted_tokens-save C lawful uuid4 owner.id b.account
                    (credentials_of L C row e) e.account t t' conn saved);
          receipt = rw stored (rw select-append (rw fresh (rw ==_self refl)));
          erased =
              select-modify_row_self (pending_of b.transaction) (completed_row subject) t''.pendings
                row here (select_sound (pending_of b.transaction) t''.pendings row here);
        }),
      )

  complete-first :
      (now : ℕ) (b : Binding) (payload : Fields) (row : PendingCredential) (s s' : Store)
      (r : Reply)
      → row.status ≡ PendingStatus.pending
      → complete L C uuid4 now b payload row s ≡ (ok r, s')
      → (now < row.expires_at)
        × (subject : String) × (required_text payload "subject" 256 ≡ ok subject)
        × (complete_first L C uuid4 now b payload subject row s ≡ (ok r, s'))
  unfolding complete
  complete-first now b payload row s s' r live ran = elim (Bool-cases (leb row.expires_at now)) [
    | inl late ↦ ground arith
    | inr early ↦ elim (Result-cases (required_text payload "subject" 256)) [
      | inr (e, bad) ↦ ground arith
      | inl (subject, named) ↦ (ground arith, subject, named, ground arith)
    ]
  ]

  first-Provisioned :
      (lawful : IsLawful C) (now : ℕ) (b : Binding) (payload : Fields) (subject : String)
      (row : PendingCredential) (s s' : Store) (r : Reply)
      → select (pending_of b.transaction) s.pendings ≡ some row
      → complete_first L C uuid4 now b payload subject row s ≡ (ok r, s')
      → (r ≡ reply "completed" b.transaction)
        × (e : Envelope) × MayProvision L C uuid4 now b subject row s e
        × Provisioned b payload subject row e s'
  first-Provisioned lawful now b payload subject row s s' r found ran =
      elim (complete_first-cases L C uuid4 now b payload subject row s) [
        | inl (e, refused) ↦ cc
        | inr (e, may, done) ↦
            let (answer, end) =
              provision-Provisioned lawful b payload subject row _ e s s' r refl found
                (sym done ∙ ran) in
            (answer, e, may, end)
      ]

  pub complete-Provisioned :
      (lawful : IsLawful C) (now : ℕ) (b : Binding) (payload : Fields) (row : PendingCredential)
      (s s' : Store) (r : Reply)
      → select (pending_of b.transaction) s.pendings ≡ some row
      → row.status ≡ PendingStatus.pending
      → complete L C uuid4 now b payload row s ≡ (ok r, s')
      → (r ≡ reply "completed" b.transaction)
        × (now < row.expires_at)
        × (subject : String) × (required_text payload "subject" 256 ≡ ok subject)
        × (e : Envelope) × MayProvision L C uuid4 now b subject row s e
        × Provisioned b payload subject row e s'
  complete-Provisioned lawful now b payload row s s' r found live ran =
      let (ahead, subject, named, first) = complete-first now b payload row s s' r live ran in
      let (answer, e, may, end) =
        first-Provisioned lawful now b payload subject row s s' r found first in
      (answer, ahead, subject, named, e, may, end)
