-- ===== src/Persistence/History/Final.antt =====
-- The pending rows over a history (src/pinterest_mcp/persistence): each moves at most once, to one
-- of three endings.
use pinterest_mcp_docker.Common.{
  ℕ, ◌≡◌, ◌≢◌, refl, String, Option, none, some, Option-cases, inl, inr, arith, ==_self, string_eq,
  ap,
}
use pinterest_mcp_docker.Common.Rows.{select, select-update}
use pinterest_mcp_docker.Persistence.Models.{
  PinterestConnection, PendingCredential, PendingStatus, pending_status_eq, Store,
}
use pinterest_mcp_docker.Persistence.Cipher.{Cipher}
use pinterest_mcp_docker.Persistence.Session.{
  ok, err, Error, Session, Run-cases, pending_of, owned_by, transact,
}
use pinterest_mcp_docker.Persistence.Repository.{
  disconnect_connection, update_tokens_versioned, staged_for, cancelled_row,
}
use pinterest_mcp_docker.Persistence.Repository.Tables.{update_tokens-KeepsOthers}
use pinterest_mcp_docker.Persistence.Pending.Rows.{Library, expire_pending, is_overdue, expired_row}
use pinterest_mcp_docker.Persistence.Pending.Transitions.{
  Later, expires, cancels, Follows-final, Later-refl, Later-trans, update-Later,
}
use pinterest_mcp_docker.Persistence.Pending.Lifecycle.{process_pending-Later}
use pinterest_mcp_docker.Persistence.Json.{Fields, get}
use pinterest_mcp_docker.Persistence.Pending.Validation.{Binding, binding_fields}
use pinterest_mcp_docker.Persistence.Pending.{process_pending, parse_action, completing}
use pinterest_mcp_docker.Persistence.Completion.Retry.{process_pending-refused}
use pinterest_mcp_docker.Persistence.Invariant.Operations.{
  create_operation-pendings, complete_operation-pendings,
}
use pinterest_mcp_docker.Persistence.Repository.Operations.{create_operation, complete_operation}
use pinterest_mcp_docker.Persistence.Ingress.Credential.{persist}
use pinterest_mcp_docker.Persistence.Ingress.Persisted.{persist-pendings}
use pinterest_mcp_docker.Persistence.Invariant.Methods.{disconnect-found, disconnect-absent}
use pinterest_mcp_docker.Persistence.History.{
  Step, request, expire, disconnect, renew, hand_over, operate, finish, History, done, then,
}

-- The row of a transaction in a store.
abbrev pub row_of : String → Store → Option PendingCredential
row_of t s = select (pending_of t) s.pendings

module _ (t : String) where
  transact-Later :
      {A : Type 0} (m : Session A) (s : Store)
      → Later (row_of t s) (row_of t (m s).1)
      → Later (row_of t s) (row_of t (transact m s).1)
  unfolding transact
  transact-Later m s later = elim (Run-cases (m s)) [
    | inl (a, u, ran) ↦ rw ran (rw ran at later)
    | inr (e, u, failed) ↦ rw failed (Later-refl _)
  ]

  expire-Later : (now : ℕ) (s : Store) → Later (row_of t s) (row_of t (expire_pending now s).1)
  unfolding expire_pending
  expire-Later now s =
      update-Later t (is_overdue now) expired_row s.pendings (λ r. refl)
        (λ r due. expires (ground arith) refl)

  disconnect-Later :
      (owner : ℕ) (s : Store) → Later (row_of t s) (row_of t (disconnect_connection owner s).1)
  disconnect-Later owner s = elim (Option-cases (select (owned_by owner) s.connections)) [
    | inl absent ↦ rw (disconnect-absent owner s absent) (Later-refl _)
    | inr (c, found) ↦ rw (disconnect-found owner s c found) (
        update-Later t (staged_for c.provider_account_id) cancelled_row s.pendings (λ r. refl)
          (λ r due. cancels (ground arith) refl))
  ]

  module _ (L : Library) (C : Cipher) (uuid4 : ℕ → ℕ) where
    Step-Later : (s u : Store) → Step L C uuid4 s u → Later (row_of t s) (row_of t u)
    Step-Later s _ (request now payload) =
        transact-Later (process_pending L C uuid4 now payload) s
          (process_pending-Later L C uuid4 t now payload s)
    Step-Later s _ (expire now) = transact-Later (expire_pending now) s (expire-Later now s)
    Step-Later s _ (disconnect owner) =
        transact-Later (disconnect_connection owner) s (disconnect-Later owner s)
    Step-Later s _ (renew owner version c) =
        transact-Later (update_tokens_versioned C owner version c) s
          (rw (update_tokens-KeepsOthers C owner version c s).pendings (Later-refl _))
    Step-Later s _ (hand_over py now at hash h) =
        transact-Later (persist C py uuid4 now at hash h) s
          (rw (persist-pendings C py uuid4 now at hash h s) (Later-refl _))
    Step-Later s _ (operate owner key tool hash state) =
        transact-Later (create_operation owner key tool hash state) s
          (rw (create_operation-pendings owner key tool hash state s) (Later-refl _))
    Step-Later s _ (finish owner key state response error) =
        transact-Later (complete_operation owner key state response error) s
          (rw (complete_operation-pendings owner key state response error s) (Later-refl _))

    History-Later : (s u : Store) → History L C uuid4 s u → Later (row_of t s) (row_of t u)
    History-Later s u done = Later-refl _
    History-Later s u (then {t = v} h step) =
        Later-trans (row_of t s) (row_of t v) (row_of t u) (History-Later s v h)
          (Step-Later v u step)

    Later-closed :
        (row : PendingCredential) (o : Option PendingCredential)
        → row.status ≢ PendingStatus.pending
        → Later (some row) o
        → o ≡ some row
    Later-closed row none closed h = absurd h
    Later-closed row (some r) closed h = ap some (Follows-final row r closed h)

    -- A transaction that has been completed, cancelled or expired is final: after every later
    -- history its row is still there and still the same.
    pub closed_is_final :
        (s u : Store) (row : PendingCredential)
        → History L C uuid4 s u
        → row_of t s ≡ some row
        → row.status ≢ PendingStatus.pending
        → row_of t u ≡ some row
    closed_is_final s u row h found closed =
        Later-closed row (row_of t u) closed (rw found at (History-Later s u h))

    -- A transaction that has been cancelled or has expired is never completed: after every later
    -- history a request to complete it is refused and changes nothing.
    pub never_completed :
        (s u : Store) (row : PendingCredential) (now : ℕ) (payload : Fields) (b : Binding)
        → History L C uuid4 s u
        → row_of t s ≡ some row
        → row.status ≢ PendingStatus.pending
        → row.status ≢ PendingStatus.completed
        → binding_fields payload ≡ ok b
        → b.transaction ≡ t
        → parse_action (get "action" payload) ≡ ok completing
        → (e : Error) × (process_pending L C uuid4 now payload u ≡ (err e, u))
    never_completed s u row now payload b h found closed undone bound names action =
        process_pending-refused L C uuid4 now payload b row u bound action
          (rw names (closed_is_final s u row h found closed)) (inr (closed, undone))

  -- A disconnection closes every staged transaction of the account that was connected.
  disconnect-closes :
      (owner : ℕ) (s : Store) (c : PinterestConnection) (row : PendingCredential)
      → select (owned_by owner) s.connections ≡ some c
      → row_of t s ≡ some row
      → row.provider_account_id ≡ c.provider_account_id
      → row.status ≡ PendingStatus.pending
      → row_of t (disconnect_connection owner s).1 ≡ some (cancelled_row row)
  unfolding pending_status_eq
  disconnect-closes owner s c row found held same live = rw (disconnect-found owner s c found) (
      rw
        (select-update (staged_for c.provider_account_id) (pending_of t) cancelled_row s.pendings
          (λ r. refl))
        (rw held (rw same (rw ==_self (rw live refl)))))

  module _ (L : Library) (C : Cipher) (uuid4 : ℕ → ℕ) where
    -- Credentials staged for an account before its owner disconnects it are never provisioned
    -- afterwards: whatever happens in between, completing the transaction is refused and changes
    -- nothing.
    pub disconnected_never_completes :
        (owner : ℕ) (s u : Store) (c : PinterestConnection) (row : PendingCredential) (now : ℕ)
        (payload : Fields) (b : Binding)
        → select (owned_by owner) s.connections ≡ some c
        → row_of t s ≡ some row
        → row.provider_account_id ≡ c.provider_account_id
        → row.status ≡ PendingStatus.pending
        → History L C uuid4 (disconnect_connection owner s).1 u
        → binding_fields payload ≡ ok b
        → b.transaction ≡ t
        → parse_action (get "action" payload) ≡ ok completing
        → (e : Error) × (process_pending L C uuid4 now payload u ≡ (err e, u))
    disconnected_never_completes owner s u c row now payload b found held same live h bound names
          action =
        never_completed L C uuid4 (disconnect_connection owner s).1 u (cancelled_row row) now
          payload b h (disconnect-closes owner s c row found held same live) (λ p. cc) (λ p. cc)
          bound names action
