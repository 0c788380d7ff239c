-- ===== src/Persistence/Pending/Lifecycle.antt =====
-- The pending rows as a state machine (src/pinterest_mcp/persistence/pending.py): what each action
-- does to them.
use pinterest_mcp_docker.Common.{
  ℕ, ◌≡◌, ◌≢◌, refl, String, Option, none, some, [], ◌∷◌, ◌++◌, leb, string_eq, nat_eq, arith,
  Bool-cases, inl, inr, ap, ◌⊎◌,
}
use pinterest_mcp_docker.Common.Rows.{select, modify_row}
use pinterest_mcp_docker.Persistence.Models.{
  User, PendingCredential, PendingStatus, Store, pending_status_eq,
}
use pinterest_mcp_docker.Persistence.Cipher.{Cipher}
use pinterest_mcp_docker.Persistence.Session.{
  ok, err, Error, Result-cases, Run-cases, pending_of, add_pending, add_receipt,
}
use pinterest_mcp_docker.Persistence.Json.{Fields}
use pinterest_mcp_docker.Persistence.Pending.Validation.{Binding, required_text}
use pinterest_mcp_docker.Persistence.Repository.{cancelled_row}
use pinterest_mcp_docker.Persistence.Repository.Tables.{
  save-KeepsOthers, create_user-KeepsAllButUsers,
}
use pinterest_mcp_docker.Persistence.Pending.Rows.{Library, reply}
use pinterest_mcp_docker.Persistence.Pending.{
  Action, staging, completing, cancelling, dispatch, process_pending,
}
use pinterest_mcp_docker.Persistence.Pending.Requests.{process_pending-cases}
use pinterest_mcp_docker.Persistence.Pending.Stage.{stage}
use pinterest_mcp_docker.Persistence.Pending.Staging.{stage_existing, stage_fresh, sealed_row}
use pinterest_mcp_docker.Persistence.Pending.Transitions.{
  Later, completes, cancels, Later-refl, modify_row-Later, append-Later,
}
use pinterest_mcp_docker.Persistence.Pending.Complete.{
  Envelope, open_envelope, user_or_new, completed_row, cancel, provision, complete_again,
  complete_first, complete,
}

pub row_is :
    (row : PendingCredential)
    → (row.status ≡ PendingStatus.pending) ⊎ (row.status ≢ PendingStatus.pending)
row_is row = elim (pending_status_eq.dec row.status PendingStatus.pending) [
  | yes live ↦ inl live
  | no closed ↦ inr closed
]

pub cancel_live :
    (b : Binding) (row : PendingCredential) (s : Store)
    → row.status ≡ PendingStatus.pending
    → cancel b row s ≡ (
      ok (reply "cancelled" b.transaction),
      record s { pendings = modify_row (pending_of b.transaction) cancelled_row s.pendings },
    )
unfolding cancel
cancel_live b row s live = ground arith

pub cancel_closed :
    (b : Binding) (row : PendingCredential) (s : Store)
    → row.status ≢ PendingStatus.pending
    → cancel b row s ≡ (ok (reply "cancelled" b.transaction), s)
unfolding cancel
cancel_closed b row s closed = ground arith

pub stage_raises :
    (L : Library) (C : Cipher) (now : ℕ) (b : Binding) (payload : Fields) (s t : Store) (e : Error)
    → stage L C now b payload none s ≡ (err e, t)
    → t.pendings ≡ s.pendings
unfolding stage add_pending
stage_raises L C now b payload s t e raised = ground arith

-- A stage request leaves the rows alone or appends one.
stage-rows :
    (L : Library) (C : Cipher) (now : ℕ) (b : Binding) (payload : Fields)
    (row : Option PendingCredential) (s : Store)
    → let t = (stage L C now b payload row s).1 in
      (t.pendings ≡ s.pendings) ⊎ ((r : PendingCredential) × (t.pendings ≡ s.pendings ++ r ∷ []))
stage-rows L C now b payload (some row) s =
    inl (ap (λ (t : Store). t.pendings) (stage_existing L C (λ n. n) now b payload row s))
stage-rows L C now b payload none s = elim (Run-cases (stage L C now b payload none s)) [
  | inl (r, t, ran) ↦
      let (deadline, sealed, _, _, _, _, stored) =
        stage_fresh L C (λ n. n) now b payload s t r ran in
      inr (sealed_row L C (λ n. n) now b payload deadline s sealed, rw ran (rw stored refl))
  | inr (e, t, raised) ↦ inl (rw raised (stage_raises L C now b payload s t e raised))
]

module _ (L : Library) (C : Cipher) (uuid4 : ℕ → ℕ) where
  pub open_envelope-state :
      (row : PendingCredential) (account sealed : String) (s : Store)
      → (open_envelope L C row account sealed s).1 ≡ s
  unfolding open_envelope
  open_envelope-state row account sealed s = ground arith

  pub user_or_new-pendings :
      (b : Binding) (subject : String) (user : Option User) (s : Store)
      → (user_or_new L C uuid4 b subject user s).1.pendings ≡ s.pendings
  user_or_new-pendings b subject none s =
      ground (arith, create_user-KeepsAllButUsers uuid4 b.issuer subject b.account "active" s)
  user_or_new-pendings b subject (some u) s = refl

  -- Either nothing is written to the rows, or the row of the transaction is completed.
  abbrev Completes : Binding → String → Store → Store → Type 0
  Completes b subject s t =
      (t.pendings ≡ s.pendings)
      ⊎ (t.pendings ≡ modify_row (pending_of b.transaction) (completed_row subject) s.pendings)

  provision-Completes :
      (b : Binding) (payload : Fields) (subject : String) (row : PendingCredential)
      (user : Option User) (e : Envelope) (s : Store)
      → Completes b subject s (provision L C uuid4 b payload subject row user e s).1
  unfolding provision add_receipt
  provision-Completes b payload subject row user e s =
      grind (arith, user_or_new-pendings b subject user s, save-KeepsOthers)

  complete_first-Completes :
      (now : ℕ) (b : Binding) (payload : Fields) (subject : String) (row : PendingCredential)
      (s : Store)
      → Completes b subject s (complete_first L C uuid4 now b payload subject row s).1
  unfolding complete_first
  complete_first-Completes now b payload subject row s =
      grind (arith, open_envelope-state, provision-Completes)

  pub complete_again-state :
      (b : Binding) (payload : Fields) (subject : String) (row : PendingCredential) (s : Store)
      → (complete_again L C b payload subject row s).1 ≡ s
  unfolding complete_again
  complete_again-state b payload subject row s = ground arith

  -- Only a pending row is completed.
  abbrev Completed : Binding → PendingCredential → Store → Store → Type 0
  Completed b row s t =
      (t.pendings ≡ s.pendings)
      ⊎ ((subject : String) × (row.status ≡ PendingStatus.pending)
          × (t.pendings ≡ modify_row (pending_of b.transaction) (completed_row subject) s.pendings))

  complete-Completed :
      (now : ℕ) (b : Binding) (payload : Fields) (row : PendingCredential) (s : Store)
      → Completed b row s (complete L C uuid4 now b payload row s).1
  unfolding complete
  complete-Completed now b payload row s =
      elim (Result-cases (required_text payload "subject" 256)) [
        | inr (e, bad) ↦ inl (ground arith)
        | inl (subject, named) ↦ elim (complete_first-Completes now b payload subject row s) [
          | inl same ↦ inl (ground (arith, complete_again-state b payload subject row s))
          | inr done ↦ elim (row_is row) [
            | inl live ↦ elim (Bool-cases (leb row.expires_at now)) [
              | inl late ↦ inl (ground arith)
              | inr early ↦ inr (subject, live, ground arith)
            ]
            | inr closed ↦ inl (ground (arith, complete_again-state b payload subject row s))
          ]
        ]
      ]

  module _ (t : String) where
    complete-Later :
        (now : ℕ) (b : Binding) (payload : Fields) (row : PendingCredential) (s : Store)
        → select (pending_of b.transaction) s.pendings ≡ some row
        → Later
            (select (pending_of t) s.pendings)
            (select (pending_of t) (complete L C uuid4 now b payload row s).1.pendings)
    complete-Later now b payload row s found = elim (complete-Completed now b payload row s) [
      | inl same ↦ rw same (Later-refl _)
      | inr (subject, live, done) ↦ rw done (
          modify_row-Later t b.transaction (completed_row subject) row s.pendings found (λ r. refl)
            (completes subject live refl))
    ]

    cancel-Later :
        (b : Binding) (row : PendingCredential) (s : Store)
        → select (pending_of b.transaction) s.pendings ≡ some row
        → Later
            (select (pending_of t) s.pendings)
            (select (pending_of t) (cancel b row s).1.pendings)
    cancel-Later b row s found = elim (row_is row) [
      | inl live ↦ rw (cancel_live b row s live) (
          modify_row-Later t b.transaction cancelled_row row s.pendings found (λ r. refl)
            (cancels live refl))
      | inr closed ↦ rw (cancel_closed b row s closed) (Later-refl _)
    ]

    stage-Later :
        (now : ℕ) (b : Binding) (payload : Fields) (row : Option PendingCredential) (s : Store)
        → Later
            (select (pending_of t) s.pendings)
            (select (pending_of t) (stage L C now b payload row s).1.pendings)
    stage-Later now b payload row s = elim (stage-rows L C now b payload row s) [
      | inl same ↦ rw same (Later-refl _)
      | inr (r, grown) ↦ rw grown (append-Later t s.pendings r)
    ]

    dispatch-Later :
        (now : ℕ) (action : Action) (b : Binding) (payload : Fields)
        (row : Option PendingCredential) (s : Store)
        → select (pending_of b.transaction) s.pendings ≡ row
        → Later
            (select (pending_of t) s.pendings)
            (select (pending_of t) (dispatch L C uuid4 now action b payload row s).1.pendings)
    unfolding dispatch
    dispatch-Later now staging b payload row s found = stage-Later now b payload row s
    dispatch-Later now cancelling b payload none s found = Later-refl _
    dispatch-Later now cancelling b payload (some row) s found = cancel-Later b row s found
    dispatch-Later now completing b payload none s found = Later-refl _
    dispatch-Later now completing b payload (some row) s found =
        complete-Later now b payload row s found

    -- A request, whatever it asks and however it ends, keeps the row of every transaction or, if it
    -- is pending, ends it: as expired, cancelled or completed, with the ciphertext erased, a subject
    -- recorded if it is completed, and the rest of the row kept.
    pub process_pending-Later :
        (now : ℕ) (payload : Fields) (s : Store)
        → Later
            (select (pending_of t) s.pendings)
            (select (pending_of t) (process_pending L C uuid4 now payload s).1.pendings)
    process_pending-Later now payload s = elim (process_pending-cases L C uuid4 now payload s) [
      | inl (e, refused) ↦ rw refused (Later-refl _)
      | inr (b, action, _, _, _, ran) ↦ rw ran (dispatch-Later now action b payload _ s refl)
    ]
