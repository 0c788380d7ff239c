-- ===== src/Persistence/Session/Inserts.antt =====
-- What a successful insert did (the flush after `session.add` in src/pinterest_mcp/persistence).
use pinterest_mcp_docker.Common.{◌≡◌, none, [], ◌∷◌, ◌++◌, ◌==◌, nat_eq, arith}
use pinterest_mcp_docker.Common.Rows.{select}
use pinterest_mcp_docker.Persistence.Models.{
  User, PinterestConnection, OAuthCompletionReceipt, PendingCredential, Store,
}
use pinterest_mcp_docker.Persistence.Session.{
  ok, err, Error, has_id, has_identity, has_account, owned_by, receipt_of, pending_of, add_user,
  add_connection, add_receipt, add_pending,
}

pub add_user-eq-ok :
    (u : User) (s s' : Store)
    → add_user u s ≡ (ok tt, s')
    → (s' ≡ record s { users = s.users ++ u ∷ [] })
      × (select (has_id u.id) s.users ≡ none)
      × (select (has_identity u.issuer u.subject) s.users ≡ none)
      × (select (has_account u.provider_account_id) s.users ≡ none)
unfolding add_user
add_user-eq-ok u s s' h = ground arith

pub add_connection-eq-ok :
    (c : PinterestConnection) (s s' : Store)
    → add_connection c s ≡ (ok tt, s')
    → (s' ≡ record s { connections = s.connections ++ c ∷ [] })
      × (select (λ d. d.id == c.id) s.connections ≡ none)
      × (select (owned_by c.owner_id) s.connections ≡ none)
unfolding add_connection
add_connection-eq-ok c s s' h = ground arith

pub add_receipt-eq-ok :
    (r : OAuthCompletionReceipt) (s s' : Store)
    → add_receipt r s ≡ (ok tt, s')
    → (s' ≡ record s { receipts = s.receipts ++ r ∷ [] })
      × (select (receipt_of r.transaction_id) s.receipts ≡ none)
unfolding add_receipt
add_receipt-eq-ok r s s' h = ground arith

pub add_pending-eq-ok :
    (r : PendingCredential) (s s' : Store)
    → add_pending r s ≡ (ok tt, s')
    → (s' ≡ record s { pendings = s.pendings ++ r ∷ [] })
      × (select (pending_of r.transaction_id) s.pendings ≡ none)
unfolding add_pending
add_pending-eq-ok r s s' h = ground arith

pub add_user-eq-err : (u : User) (s s' : Store) (e : Error) → add_user u s ≡ (err e, s') → s' ≡ s
unfolding add_user
add_user-eq-err u s s' e h = ground arith

pub add_connection-eq-err :
    (c : PinterestConnection) (s s' : Store) (e : Error) → add_connection c s ≡ (err e, s') → s' ≡ s
unfolding add_connection
add_connection-eq-err c s s' e h = ground arith

pub add_receipt-eq-err :
    (r : OAuthCompletionReceipt) (s s' : Store) (e : Error) → add_receipt r s ≡ (err e, s') → s' ≡ s
unfolding add_receipt
add_receipt-eq-err r s s' e h = ground arith

pub add_pending-eq-err :
    (r : PendingCredential) (s s' : Store) (e : Error) → add_pending r s ≡ (err e, s') → s' ≡ s
unfolding add_pending
add_pending-eq-err r s s' e h = ground arith
