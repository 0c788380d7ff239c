-- ===== src/Persistence/Completion/Retry.antt =====
-- Completing again, and completing too late (src/pinterest_mcp/persistence/pending.py).
use pinterest_mcp_docker.Common.{
  ℕ, ◌<◌, ◌≤◌, ◌≡◌, ◌≢◌, refl, String, Option, some, ◌==◌, arith, ap, sym, ◌∙◌, Option-cases,
  Bool-cases, inl, inr, ◌⊎◌, string_eq, nat_eq,
}
use pinterest_mcp_docker.Common.Rows.{select}
use pinterest_mcp_docker.Persistence.Models.{
  PinterestConnection, ConnectionStatus, PendingCredential, PendingStatus, Store, pending_status_eq,
  connection_status_eq,
}
use pinterest_mcp_docker.Persistence.Cipher.{Cipher, IsLawful}
use pinterest_mcp_docker.Persistence.Json.{Fields, get}
use pinterest_mcp_docker.Persistence.Session.{
  ok, err, Error, ingress_security, owned_by, pending_of,
}
use pinterest_mcp_docker.Persistence.Repository.{get_decrypted_tokens}
use pinterest_mcp_docker.Persistence.Pending.Validation.{Binding, binding_fields, required_text}
use pinterest_mcp_docker.Persistence.Pending.Rows.{Library, Reply, reply, check_row}
use pinterest_mcp_docker.Persistence.Pending.Complete.{
  Envelope, completed_row, complete, complete_again, unavailable,
}
use pinterest_mcp_docker.Persistence.Pending.{completing, parse_action, dispatch, process_pending}
use pinterest_mcp_docker.Persistence.Pending.Requests.{check_row-cases}
use pinterest_mcp_docker.Persistence.Completion.{Provisioned, complete-Provisioned}

module _ (L : Library) (C : Cipher) (uuid4 : ℕ → ℕ) where
  -- A transaction past its deadline, or cancelled, or expired, cannot be completed.
  pub complete_refused :
      (now : ℕ) (b : Binding) (payload : Fields) (row : PendingCredential) (s : Store)
      → (row.expires_at ≤ now)
        ⊎ ((row.status ≢ PendingStatus.pending) × (row.status ≢ PendingStatus.completed))
      → complete L C uuid4 now b payload row s ≡ (err unavailable, s)
  unfolding complete
  complete_refused now b payload row s (inl late) = ground arith
  complete_refused now b payload row s (inr closed) = ground arith

  process_completing :
      (now : ℕ) (payload : Fields) (b : Binding) (row : PendingCredential) (s : Store)
      → binding_fields payload ≡ ok b
      → parse_action (get "action" payload) ≡ ok completing
      → select (pending_of b.transaction) s.pendings ≡ some row
      → check_row b (some row) s ≡ (ok tt, s)
      → process_pending L C uuid4 now payload s ≡ complete L C uuid4 now b payload row s
  unfolding process_pending dispatch
  process_completing now payload b row s bound action found fits =
      rw bound (rw action (rw found (rw fits refl)))

  -- The tokens of a connection can be read only while it is active.
  tokens-active :
      (owner : ℕ) (s : Store) (pair : String × Option String)
      → (get_decrypted_tokens C owner s).0 ≡ ok pair
      → (c : PinterestConnection) × (select (owned_by owner) s.connections ≡ some c)
        × (c.status ≡ ConnectionStatus.active)
  unfolding get_decrypted_tokens
  tokens-active owner s pair read = elim (Option-cases (select (owned_by owner) s.connections)) [
    | inl absent ↦ ground arith
    | inr (c, found) ↦ elim (Bool-cases (c.status == ConnectionStatus.active)) [
      | inl live ↦ (c, found, ground arith)
      | inr closed ↦ ground arith
    ]
  ]

  complete_again_lem :
      (b : Binding) (payload : Fields) (subject : String) (row : PendingCredential) (e : Envelope)
      (s' : Store)
      → Provisioned L C uuid4 b payload subject row e s'
      → complete_again L C b payload subject (completed_row subject row) s'
        ≡ (ok (reply "completed" b.transaction), s')
  unfolding complete_again
  complete_again_lem b payload subject row e s' p =
      let (c, found, live) = tokens-active p.owner.id s' _ p.tokens in ground (arith, p.receipt)

  complete_completed :
      (now : ℕ) (b : Binding) (payload : Fields) (subject : String) (row : PendingCredential)
      (s : Store)
      → now < row.expires_at
      → required_text payload "subject" 256 ≡ ok subject
      → complete L C uuid4 now b payload (completed_row subject row) s
        ≡ complete_again L C b payload subject (completed_row subject row) s
  unfolding complete
  complete_completed now b payload subject row s ahead named = ground arith

  check_row-fits :
      (b : Binding) (row row' : PendingCredential) (s s' : Store)
      → row'.issuer ≡ row.issuer
      → row'.binding ≡ row.binding
      → row'.provider_account_id ≡ row.provider_account_id
      → check_row b (some row) s ≡ (ok tt, s)
      → check_row b (some row') s' ≡ (ok tt, s')
  check_row-fits b row row' s s' i j k fits = ground arith

  completing_runs :
      (now : ℕ) (payload : Fields) (b : Binding) (row : PendingCredential) (s s' : Store)
      (r : Reply)
      → binding_fields payload ≡ ok b
      → parse_action (get "action" payload) ≡ ok completing
      → select (pending_of b.transaction) s.pendings ≡ some row
      → process_pending L C uuid4 now payload s ≡ (ok r, s')
      → (check_row b (some row) s ≡ (ok tt, s))
        × (complete L C uuid4 now b payload row s ≡ (ok r, s'))
  unfolding process_pending dispatch
  completing_runs now payload b row s s' r bound action found ran = ground arith

  -- A completion that succeeded, sent again with the same payload before the deadline of its
  -- transaction, gets the same answer and changes nothing: nothing is provisioned twice.
  pub complete_retry :
      (lawful : IsLawful C) (now now' : ℕ) (payload : Fields) (b : Binding)
      (row : PendingCredential) (s s' : Store) (r : Reply)
      → binding_fields payload ≡ ok b
      → parse_action (get "action" payload) ≡ ok completing
      → select (pending_of b.transaction) s.pendings ≡ some row
      → row.status ≡ PendingStatus.pending
      → process_pending L C uuid4 now payload s ≡ (ok r, s')
      → now' < row.expires_at
      → process_pending L C uuid4 now' payload s' ≡ (ok r, s')
  complete_retry lawful now now' payload b row s s' r bound action found live ran ahead =
      let (fits, run) = completing_runs now payload b row s s' r bound action found ran in
      let (answer, _, subject, named, e, may, end) =
        complete-Provisioned L C uuid4 lawful now b payload row s s' r found live run in
      process_completing now' payload b (completed_row subject row) s' bound action end.erased
        (check_row-fits b row (completed_row subject row) s s' refl refl refl fits)
      ∙ complete_completed now' b payload subject row s' ahead named
      ∙ complete_again_lem b payload subject row e s' end
      ∙ ap (λ (a : Reply). (ok a, s')) (sym answer)

  -- A completion of a transaction that is past its deadline, cancelled or expired is refused, and
  -- the database does not change.
  pub process_pending-refused :
      (now : ℕ) (payload : Fields) (b : Binding) (row : PendingCredential) (s : Store)
      → binding_fields payload ≡ ok b
      → parse_action (get "action" payload) ≡ ok completing
      → select (pending_of b.transaction) s.pendings ≡ some row
      → (row.expires_at ≤ now)
        ⊎ ((row.status ≢ PendingStatus.pending) × (row.status ≢ PendingStatus.completed))
      → (e : Error) × (process_pending L C uuid4 now payload s ≡ (err e, s))
  unfolding process_pending dispatch
  process_pending-refused now payload b row s bound action found late =
      let refused = complete_refused now b payload row s late in
      elim (check_row-cases b (some row) s) [
        | inl other ↦ (
          ingress_security "Transaction binding mismatch",
          rw bound (rw action (rw found (rw other refl))),
        )
        | inr fits ↦
            (unavailable, process_completing now payload b row s bound action found fits ∙ refused)
      ]
