-- ===== src/Persistence/Invariant/Methods.antt =====
-- The invariant under the other sessions: the expiry of src/pinterest_mcp/persistence/pending.py
-- and the methods of src/pinterest_mcp/persistence/repository.py that the server calls.
use pinterest_mcp_docker.Common.{ℕ, ◌≡◌, refl, none, some, arith, Option-cases, inl, inr, nat_eq}
use pinterest_mcp_docker.Common.Rows.{select, modify_row, update, select-All, select_sound}
use pinterest_mcp_docker.Persistence.Models.{PinterestConnection, Store}
use pinterest_mcp_docker.Persistence.Cipher.{Cipher}
use pinterest_mcp_docker.Persistence.Session.{ok, Run-cases, Session, owned_by, transact}
use pinterest_mcp_docker.Persistence.Repository.{
  Credentials, disconnect_connection, update_tokens_versioned, revoked, staged_for, cancelled_row,
}
use pinterest_mcp_docker.Persistence.Repository.Tables.{update_tokens-KeepsOthers}
use pinterest_mcp_docker.Persistence.Repository.Writes.{update_tokens-Writes}
use pinterest_mcp_docker.Persistence.Pending.Rows.{expire_pending, expired_row, is_overdue}
use pinterest_mcp_docker.Persistence.Invariant.{IsValid, ConnectionsOk, Owns}
use pinterest_mcp_docker.Persistence.Invariant.Accounts.{rewrite-IsValid, Writes-ConnectionsOk}
use pinterest_mcp_docker.Persistence.Invariant.Handoff.{
  IsValid-rows, update-PendingsOk, cancelled_row-IsSealed, expired_row-IsSealed,
}

pub expire_pending-IsValid : (now : ℕ) (s : Store) → IsValid s → IsValid (expire_pending now s).1
unfolding expire_pending
expire_pending-IsValid now s v =
    IsValid-rows _ s.draws s
      (update-PendingsOk (is_overdue now) expired_row s.pendings (λ r. refl) expired_row-IsSealed
        v.pendings)
      v

-- A disconnection erases the tokens of the connection, and the staged credentials of its account.
pub disconnect-found :
    (owner : ℕ) (s : Store) (c : PinterestConnection)
    → select (owned_by owner) s.connections ≡ some c
    → disconnect_connection owner s ≡ (
      ok (revoked c),
      record s {
        connections = modify_row (owned_by owner) revoked s.connections;
        pendings = update (staged_for c.provider_account_id) cancelled_row s.pendings;
      },
    )
unfolding disconnect_connection
disconnect-found owner s c found = ground arith

pub disconnect-absent :
    (owner : ℕ) (s : Store)
    → select (owned_by owner) s.connections ≡ none
    → (disconnect_connection owner s).1 ≡ s
unfolding disconnect_connection
disconnect-absent owner s absent = ground arith

pub disconnect-IsValid :
    (owner : ℕ) (s : Store) → IsValid s → IsValid (disconnect_connection owner s).1
disconnect-IsValid owner s v = elim (Option-cases (select (owned_by owner) s.connections)) [
  | inl absent ↦ rw (disconnect-absent owner s absent) v
  | inr (c, found) ↦ rw (disconnect-found owner s c found) (
      rewrite-IsValid owner revoked
        (record s { pendings = update (staged_for c.provider_account_id) cancelled_row s.pendings })
        (λ d. refl) (λ d. refl)
        (IsValid-rows _ s.draws s
          (update-PendingsOk (staged_for c.provider_account_id) cancelled_row s.pendings (λ r. refl)
            cancelled_row-IsSealed v.pendings)
          v))
]

-- The owner of a stored connection has its account.
pub linked-Owns :
    (owner : ℕ) (c : PinterestConnection) (s : Store)
    → ConnectionsOk s.users s.connections
    → select (owned_by owner) s.connections ≡ some c
    → Owns s.users owner c.provider_account_id
linked-Owns owner c s v found =
    let here : c.owner_id ≡ owner =
      ground (arith, select_sound (owned_by owner) s.connections c found) in
    rw here at (
      select-All (λ (d : PinterestConnection). Owns s.users d.owner_id d.provider_account_id)
        (owned_by owner) s.connections c found v.linked)

update_tokens-absent :
    (C : Cipher) (owner version : ℕ) (t : Credentials) (s : Store)
    → select (owned_by owner) s.connections ≡ none
    → (update_tokens_versioned C owner version t s).1 ≡ s
unfolding update_tokens_versioned
update_tokens-absent C owner version t s absent = ground arith

pub update_tokens-IsValid :
    (C : Cipher) (owner version : ℕ) (t : Credentials) (s : Store)
    → IsValid s
    → IsValid (update_tokens_versioned C owner version t s).1
update_tokens-IsValid C owner version t s v =
    elim (Option-cases (select (owned_by owner) s.connections)) [
      | inl absent ↦ rw (update_tokens-absent C owner version t s absent) v
      | inr (c, found) ↦
          let k = update_tokens-KeepsOthers C owner version t s in
          record {
            users = rw k.users v.users;
            connections = rw k.users (
                Writes-ConnectionsOk s.users owner c.provider_account_id s.connections _
                  (linked-Owns owner c s v.connections found) v.connections
                  (update_tokens-Writes C owner version c.provider_account_id t s));
            receipts = rw k.users (rw k.receipts v.receipts);
            pendings = rw k.pendings v.pendings;
            transactions = rw k.receipts v.transactions;
            operations = rw k.operations v.operations;
          }
    ]

-- Committed or rolled back.
pub transact-IsValid :
    {A : Type 0} (m : Session A) (s : Store)
    → IsValid s
    → IsValid (m s).1
    → IsValid (transact m s).1
unfolding transact
transact-IsValid m s v w = elim (Run-cases (m s)) [
  | inl (a, t, ran) ↦ rw ran (rw ran at w)
  | inr (e, t, failed) ↦ rw failed (IsValid-rows s.pendings t.draws s v.pendings v)
]
