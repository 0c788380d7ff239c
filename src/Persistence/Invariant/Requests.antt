-- ===== src/Persistence/Invariant/Requests.antt =====
-- The invariant under a whole handoff request (src/pinterest_mcp/persistence/pending.py).
use pinterest_mcp_docker.Common.{
  ℕ, ◌≡◌, refl, String, Option, none, some, List, [], ◌∷◌, ◌++◌, arith, inl, inr, string_eq, nat_eq,
}
use pinterest_mcp_docker.Common.Rows.{select, All-append}
use pinterest_mcp_docker.Common.Distinct.{Distinct-append}
use pinterest_mcp_docker.Persistence.Models.{User, PendingCredential, Store, pending_status_eq}
use pinterest_mcp_docker.Persistence.Cipher.{Cipher}
use pinterest_mcp_docker.Persistence.Json.{Fields}
use pinterest_mcp_docker.Persistence.Session.{
  ok, err, Error, Run-cases, Result-cases, pending_of, add_pending, has_identity,
}
use pinterest_mcp_docker.Persistence.Repository.{cancelled_row}
use pinterest_mcp_docker.Persistence.Pending.Validation.{Binding, required_text}
use pinterest_mcp_docker.Persistence.Pending.Rows.{Library}
use pinterest_mcp_docker.Persistence.Pending.Stage.{stage}
use pinterest_mcp_docker.Persistence.Pending.Staging.{stage_existing, stage_fresh, sealed_row}
use pinterest_mcp_docker.Persistence.Pending.Complete.{
  cancel, complete, complete_first, check_owner, complete_again,
}
use pinterest_mcp_docker.Persistence.Pending.Lifecycle.{
  row_is, cancel_live, cancel_closed, complete_again-state,
}
use pinterest_mcp_docker.Persistence.Pending.Provisioning.{complete_first-cases}
use pinterest_mcp_docker.Persistence.Pending.Requests.{process_pending-cases}
use pinterest_mcp_docker.Persistence.Pending.{
  Action, staging, completing, cancelling, dispatch, process_pending,
}
use pinterest_mcp_docker.Persistence.Invariant.{IsSealed, PendingsOk, IsValid, same_transaction}
use pinterest_mcp_docker.Persistence.Invariant.Accounts.{select-Owns}
use pinterest_mcp_docker.Persistence.Invariant.Handoff.{
  IsValid-rows, modify-PendingsOk, cancelled_row-IsSealed, provision-IsValid,
}

-- A user that passes the owner check has the account of the request.
check_owner-account :
    (account : String) (user owner : Option User) (u : User) (s : Store)
    → user ≡ some u
    → check_owner account user owner s ≡ (ok tt, s)
    → u.provider_account_id ≡ account
check_owner-account account user owner u s found passed = ground arith

cancel-IsValid :
    (b : Binding) (row : PendingCredential) (s : Store) → IsValid s → IsValid (cancel b row s).1
cancel-IsValid b row s v = elim (row_is row) [
  | inl live ↦ rw (cancel_live b row s live) (
      IsValid-rows _ s.draws s
        (modify-PendingsOk (pending_of b.transaction) cancelled_row s.pendings (λ r. refl)
          cancelled_row-IsSealed v.pendings)
        v)
  | inr closed ↦ rw (cancel_closed b row s closed) v
]

append-PendingsOk :
    (rows : List PendingCredential) (r : PendingCredential)
    → select (pending_of r.transaction_id) rows ≡ none
    → IsSealed r
    → PendingsOk rows
    → PendingsOk (rows ++ r ∷ [])
append-PendingsOk rows r fresh seal v = record {
  transactions = Distinct-append same_transaction (λ x y. ground arith) rows r v.transactions fresh;
  sealed = All-append IsSealed rows r v.sealed seal;
}

module _ (L : Library) (C : Cipher) (uuid4 : ℕ → ℕ) where
  stage_error :
      (now : ℕ) (b : Binding) (payload : Fields) (s t : Store) (e : Error)
      → stage L C now b payload none s ≡ (err e, t)
      → t ≡ record s { draws = t.draws }
  unfolding stage add_pending
  stage_error now b payload s t e raised = ground arith

  stage-IsValid :
      (now : ℕ) (b : Binding) (payload : Fields) (row : Option PendingCredential) (s : Store)
      → IsValid s
      → IsValid (stage L C now b payload row s).1
  stage-IsValid now b payload (some row) s v = rw (stage_existing L C uuid4 now b payload row s) v
  stage-IsValid now b payload none s v = elim (Run-cases (stage L C now b payload none s)) [
    | inl (r, t, ran) ↦
        let (deadline, sealed, _, _, _, fresh, stored) =
          stage_fresh L C uuid4 now b payload s t r ran in
        rw ran (
          rw stored (
            IsValid-rows _ _ s
              (append-PendingsOk s.pendings (sealed_row L C uuid4 now b payload deadline s sealed)
                fresh (record { held = λ _. λ h. cc; erased = λ h. absurd (h refl) }) v.pendings)
              v))
    | inr (e, t, raised) ↦ rw raised (
        rw (stage_error now b payload s t e raised)
          (IsValid-rows s.pendings t.draws s v.pendings v))
  ]

  complete_first-IsValid :
      (now : ℕ) (b : Binding) (payload : Fields) (subject : String) (row : PendingCredential)
      (s : Store)
      → IsValid s
      → IsValid (complete_first L C uuid4 now b payload subject row s).1
  complete_first-IsValid now b payload subject row s v =
      elim (complete_first-cases L C uuid4 now b payload subject row s) [
        | inl (e, refused) ↦ rw refused v
        | inr (e, may, ran) ↦ rw ran (
            provision-IsValid L C uuid4 b payload subject row _ e s
              (λ u found.
                rw (check_owner-account b.account _ _ u s found may.owner) at
                  (select-Owns s.users (has_identity b.issuer subject) u v.users found))
              v)
      ]

  complete-IsValid :
      (now : ℕ) (b : Binding) (payload : Fields) (row : PendingCredential) (s : Store)
      → IsValid s
      → IsValid (complete L C uuid4 now b payload row s).1
  unfolding complete
  complete-IsValid now b payload row s v =
      elim (Result-cases (required_text payload "subject" 256)) [
        | inr (e, bad) ↦ ground arith
        | inl (subject, named) ↦
            let first = complete_first-IsValid now b payload subject row s v in
            let again : IsValid (complete_again L C b payload subject row s).1 =
              rw (complete_again-state L C uuid4 b payload subject row s) v in
            ground arith
      ]

  dispatch-IsValid :
      (now : ℕ) (action : Action) (b : Binding) (payload : Fields) (row : Option PendingCredential)
      (s : Store)
      → IsValid s
      → IsValid (dispatch L C uuid4 now action b payload row s).1
  unfolding dispatch
  dispatch-IsValid now staging b payload row s v = stage-IsValid now b payload row s v
  dispatch-IsValid now cancelling b payload none s v = v
  dispatch-IsValid now cancelling b payload (some row) s v = cancel-IsValid b row s v
  dispatch-IsValid now completing b payload none s v = v
  dispatch-IsValid now completing b payload (some row) s v = complete-IsValid now b payload row s v

  -- Whatever a request asks and however it ends, even before its rollback, the database stays
  -- valid: an account has one user and one connection, each connection and receipt is to the
  -- account of its owner, and ciphertext is staged exactly for the pending transactions.
  pub process_pending-IsValid :
      (now : ℕ) (payload : Fields) (s : Store)
      → IsValid s
      → IsValid (process_pending L C uuid4 now payload s).1
  process_pending-IsValid now payload s v = elim (process_pending-cases L C uuid4 now payload s) [
    | inl (e, refused) ↦ rw refused v
    | inr (b, action, _, _, _, ran) ↦ rw ran (dispatch-IsValid now action b payload _ s v)
  ]
