-- ===== src/Persistence/Invariant/Handoff.antt =====
-- The invariant under the pending handoff (src/pinterest_mcp/persistence/pending.py).
use pinterest_mcp_docker.Common.{
  ℕ, ◌≡◌, refl, String, Bool, Option, none, some, List, string_eq, nat_eq, arith, inl, inr,
}
use pinterest_mcp_docker.Common.Rows.{modify_row, update, All-append, All-modify_row, All-update}
use pinterest_mcp_docker.Common.Distinct.{Distinct-append, Distinct-modify_row, Distinct-update}
use pinterest_mcp_docker.Persistence.Models.{User, OAuthCompletionReceipt, PendingCredential, Store}
use pinterest_mcp_docker.Persistence.Cipher.{Cipher}
use pinterest_mcp_docker.Persistence.Json.{Fields}
use pinterest_mcp_docker.Persistence.Session.{ok, Run-cases, pending_of, add_receipt}
use pinterest_mcp_docker.Persistence.Session.Holds.{bind-Holds}
use pinterest_mcp_docker.Persistence.Session.Inserts.{add_receipt-eq-ok, add_receipt-eq-err}
use pinterest_mcp_docker.Persistence.Repository.{
  Credentials, Account, save_initial_connection, cancelled_row,
}
use pinterest_mcp_docker.Persistence.Repository.Tables.{save-KeepsOthers}
use pinterest_mcp_docker.Persistence.Repository.Writes.{save-Writes}
use pinterest_mcp_docker.Persistence.Pending.Validation.{Binding}
use pinterest_mcp_docker.Persistence.Pending.Rows.{Library, write_pending, expired_row}
use pinterest_mcp_docker.Persistence.Pending.Complete.{
  Envelope, completed_row, user_or_new, credentials_of, provision,
}
use pinterest_mcp_docker.Persistence.Invariant.{
  same_receipt, same_transaction, Owns, IsSealed, PendingsOk, IsValid,
}
use pinterest_mcp_docker.Persistence.Invariant.Accounts.{
  Writes-ConnectionsOk, create_user-IsValid, create_user-Owns,
}

module _ (C : Cipher) where
  pub save-IsValid :
      (uuid4 : ℕ → ℕ) (owner : ℕ) (account : String) (t : Credentials) (a : Account) (s : Store)
      → Owns s.users owner account
      → IsValid s
      → IsValid (save_initial_connection C uuid4 owner account t a s).1
  save-IsValid uuid4 owner account t a s owns v =
      let k = save-KeepsOthers C uuid4 owner account t a s in
      let w = save-Writes C uuid4 owner account t a s in
      record {
        users = rw k.users v.users;
        connections =
            rw k.users
              (Writes-ConnectionsOk s.users owner account s.connections _ owns v.connections w);
        receipts = rw k.users (rw k.receipts v.receipts);
        pendings = rw k.pendings v.pendings;
        transactions = rw k.receipts v.transactions;
        operations = rw k.operations v.operations;
      }

pub add_receipt-IsValid :
    (r : OAuthCompletionReceipt) (s : Store)
    → Owns s.users r.owner_id r.provider_account_id
    → IsValid s
    → IsValid (add_receipt r s).1
add_receipt-IsValid r s owns v = elim (Run-cases (add_receipt r s)) [
  | inr (e, t, failed) ↦ rw failed (rw (add_receipt-eq-err r s t e failed) v)
  | inl (x, t, ran) ↦ rw ran (
      rw (add_receipt-eq-ok r s t ran).0 (record {
        users = v.users;
        connections = v.connections;
        receipts = All-append _ s.receipts r v.receipts owns;
        pendings = v.pendings;
        transactions =
            Distinct-append same_receipt (λ x y. ground arith) s.receipts r v.transactions
              (add_receipt-eq-ok r s t ran).1;
        operations = v.operations;
      }))
]

-- A rewritten row that keeps its key and is sealed.
pub modify-PendingsOk :
    (p : PendingCredential → Bool) (f : PendingCredential → PendingCredential)
    (rows : List PendingCredential)
    → ((r : PendingCredential) → (f r).transaction_id ≡ r.transaction_id)
    → ((r : PendingCredential) → IsSealed (f r))
    → PendingsOk rows
    → PendingsOk (modify_row p f rows)
modify-PendingsOk p f rows same seal v = record {
  transactions =
      Distinct-modify_row same_transaction p f (λ x y. ground (arith, same x))
        (λ x y. ground (arith, same y)) rows v.transactions;
  sealed = All-modify_row IsSealed p f rows (λ r _ _. seal r) v.sealed;
}

pub update-PendingsOk :
    (p : PendingCredential → Bool) (f : PendingCredential → PendingCredential)
    (rows : List PendingCredential)
    → ((r : PendingCredential) → (f r).transaction_id ≡ r.transaction_id)
    → ((r : PendingCredential) → IsSealed (f r))
    → PendingsOk rows
    → PendingsOk (update p f rows)
update-PendingsOk p f rows same seal v = record {
  transactions =
      Distinct-update same_transaction p f (λ x y. ground (arith, same x))
        (λ x y. ground (arith, same y)) rows v.transactions;
  sealed = All-update IsSealed p f rows (λ r _ _. seal r) v.sealed;
}

pub cancelled_row-IsSealed : (r : PendingCredential) → IsSealed (cancelled_row r)
cancelled_row-IsSealed r = record { held = λ h. cc; erased = λ h. refl }

pub expired_row-IsSealed : (r : PendingCredential) → IsSealed (expired_row r)
expired_row-IsSealed r = record { held = λ h. cc; erased = λ h. refl }

completed_row-IsSealed :
    (subject : String) (r : PendingCredential) → IsSealed (completed_row subject r)
completed_row-IsSealed subject r = record { held = λ h. cc; erased = λ h. refl }

pub IsValid-rows :
    (rows : List PendingCredential) (n : ℕ) (s : Store)
    → PendingsOk rows
    → IsValid s
    → IsValid (record s { pendings = rows; draws = n })
IsValid-rows rows n s p v = record {
  users = v.users;
  connections = v.connections;
  receipts = v.receipts;
  pendings = p;
  transactions = v.transactions;
  operations = v.operations;
}

pub write_pending-IsValid :
    (transaction : String) (f : PendingCredential → PendingCredential) (s : Store)
    → ((r : PendingCredential) → (f r).transaction_id ≡ r.transaction_id)
    → ((r : PendingCredential) → IsSealed (f r))
    → IsValid s
    → IsValid (write_pending transaction f s).1
unfolding write_pending
write_pending-IsValid transaction f s same seal v =
    IsValid-rows _ s.draws s
      (modify-PendingsOk (pending_of transaction) f s.pendings same seal v.pendings) v

module _ (L : Library) (C : Cipher) (uuid4 : ℕ → ℕ) where
  user_or_new-IsValid :
      (b : Binding) (subject : String) (user : Option User) (s : Store)
      → IsValid s
      → IsValid (user_or_new L C uuid4 b subject user s).1
  user_or_new-IsValid b subject none s v =
      create_user-IsValid uuid4 b.issuer subject b.account "active" s v
  user_or_new-IsValid b subject (some u) s v = v

  user_or_new-Owns :
      (b : Binding) (subject : String) (user : Option User) (s t : Store) (owner : User)
      → ((u : User) → user ≡ some u → Owns s.users u.id b.account)
      → user_or_new L C uuid4 b subject user s ≡ (ok owner, t)
      → Owns t.users owner.id b.account
  user_or_new-Owns b subject none s t owner known ran =
      create_user-Owns uuid4 b.issuer subject b.account "active" s t owner ran
  user_or_new-Owns b subject (some u) s t owner known ran =
      let same : u ≡ owner = cc in let here : s ≡ t = cc in rw (← same) (rw (← here) (known u refl))

  pub provision-IsValid :
      (b : Binding) (payload : Fields) (subject : String) (row : PendingCredential)
      (user : Option User) (e : Envelope) (s : Store)
      → ((u : User) → user ≡ some u → Owns s.users u.id b.account)
      → IsValid s
      → IsValid (provision L C uuid4 b payload subject row user e s).1
  unfolding provision
  provision-IsValid b payload subject row user e s known v =
      bind-Holds IsValid (user_or_new L C uuid4 b subject user) _ s
        (user_or_new-IsValid b subject user s v)
        (λ owner t ran v1.
          let owns = user_or_new-Owns b subject user s t owner known ran in
          let k =
            save-KeepsOthers C uuid4 owner.id b.account (credentials_of L C row e) e.account t in
          bind-Holds IsValid
            (save_initial_connection C uuid4 owner.id b.account (credentials_of L C row e)
              e.account)
            _ t
            (save-IsValid C uuid4 owner.id b.account (credentials_of L C row e) e.account t owns v1)
            (λ conn t' saved v2.
              let owns' : Owns t'.users owner.id b.account = rw (rw saved at k.users) owns in
              bind-Holds IsValid (add_receipt _) _ t' (add_receipt-IsValid _ t' owns' v2)
                (λ u t'' added v3.
                  write_pending-IsValid b.transaction (completed_row subject) t'' (λ r. refl)
                    (completed_row-IsSealed subject) v3)))
