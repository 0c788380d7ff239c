-- ===== src/Persistence/Pending/Staging.antt =====
-- The stage action (src/pinterest_mcp/persistence/pending.py): it provisions nothing, and a retry
-- is answered without a write.
use pinterest_mcp_docker.Common.{
  ℕ, ◌<◌, ◌≡◌, refl, String, Option, none, some, [], ◌∷◌, ◌++◌, suc, string_eq, nat_eq, arith, inl,
  inr, ◌∙◌, sym, ap, ==_self,
}
use pinterest_mcp_docker.Common.Rows.{select, select-append}
use pinterest_mcp_docker.Persistence.Models.{PendingCredential, PendingStatus, Store}
use pinterest_mcp_docker.Persistence.Cipher.{Cipher}
use pinterest_mcp_docker.Persistence.Session.{ok, Result-cases, pending_of, add_pending}
use pinterest_mcp_docker.Persistence.Json.{
  Json, null, non_finite, bool, int, float, text, arr, dict, Fields, get,
}
use pinterest_mcp_docker.Persistence.Pending.Validation.{
  Binding, binding_fields, check_deadline, validate_tokens,
}
use pinterest_mcp_docker.Persistence.Pending.Rows.{
  check_row, envelope_aad, version_of, of_account, Library, Reply, reply,
}
use pinterest_mcp_docker.Persistence.Pending.{staging, parse_action, dispatch, process_pending}
use pinterest_mcp_docker.Common.Int.{pos, negsuc}
use pinterest_mcp_docker.Persistence.Pending.Stage.{staged_row, stage}

-- The only tables that a session may write are the pending rows.
pub record ProvisionsNothing (s t : Store) : Type 0 where
  pub users : t.users ≡ s.users
  pub connections : t.connections ≡ s.connections
  pub receipts : t.receipts ≡ s.receipts
  pub operations : t.operations ≡ s.operations

module _ (L : Library) (C : Cipher) (uuid4 : ℕ → ℕ) where
  -- Whatever a stage request returns or raises, no user, connection, receipt or operation changes.
  pub stage-ProvisionsNothing :
      (now : ℕ) (payload : Fields) (s : Store)
      → parse_action (get "action" payload) ≡ ok staging
      → ProvisionsNothing s (process_pending L C uuid4 now payload s).1
  unfolding process_pending stage add_pending
  stage-ProvisionsNothing now payload s h = ground (arith)

  -- An existing transaction is never written by a stage request.
  pub stage_existing :
      (now : ℕ) (b : Binding) (payload : Fields) (row : PendingCredential) (s : Store)
      → (stage L C now b payload (some row) s).1 ≡ s
  unfolding stage
  stage_existing now b payload row s = ground arith

  check_deadline-same :
      (now now' : ℕ) (j : Json) (d d' : ℕ)
      → check_deadline now j ≡ ok d
      → check_deadline now' j ≡ ok d'
      → (d ≡ d') × (now' < d')
  unfolding check_deadline
  check_deadline-same now now' (int (pos n)) d d' p q = ground arith
  check_deadline-same now now' (int (negsuc n)) d d' p q = ground arith
  check_deadline-same now now' (float (pos n)) d d' p q = ground arith
  check_deadline-same now now' (float (negsuc n)) d d' p q = ground arith
  check_deadline-same now now' null d d' p q = cc
  check_deadline-same now now' non_finite d d' p q = cc
  check_deadline-same now now' (bool x) d d' p q = cc
  check_deadline-same now now' (text x) d d' p q = cc
  check_deadline-same now now' (arr x) d d' p q = cc
  check_deadline-same now now' (dict x) d d' p q = cc

  -- The row that a first stage request stores.
  abbrev pub sealed_row : ℕ → Binding → Fields → ℕ → Store → String → PendingCredential
  sealed_row now b payload deadline s sealed =
      record (staged_row L C now b (L.sha256 (L.dumps_sorted_compact (dict payload))) deadline
        (version_of (select (of_account b.account) s.connections))) {
          encrypted_payload = some sealed;
        }

  pub stage_fresh :
      (now : ℕ) (b : Binding) (payload : Fields) (s s' : Store) (r : Reply)
      → stage L C now b payload none s ≡ (ok r, s')
      → (deadline : ℕ) × (sealed : String) × (check_deadline now (get "expires_at" payload)
          ≡ ok deadline)
        × (validate_tokens payload ≡ ok tt)
        × (r ≡ reply "staged" b.transaction)
        × (select (pending_of b.transaction) s.pendings ≡ none)
        × (s' ≡ record s {
          draws = suc s.draws;
          pendings = s.pendings ++ sealed_row now b payload deadline s sealed ∷ [];
        })
  unfolding stage add_pending
  stage_fresh now b payload s s' r h =
      let conn = select (of_account b.account) s.connections in
      let row : ℕ → PendingCredential = λ deadline.
        staged_row L C now b (L.sha256 (L.dumps_sorted_compact (dict payload))) deadline
          (version_of conn) in
      elim (Result-cases (check_deadline now (get "expires_at" payload))) [
        | inr (e, late) ↦ ground arith
        | inl (deadline, due) ↦
            elim (Result-cases (
              C.encrypt s.draws (L.dumps_compact (dict payload)) (envelope_aad (row deadline))
                b.account)) [
                  | inr (e, failed) ↦ ground arith
                  | inl (sealed, done) ↦ (
                    deadline,
                    sealed,
                    ground arith,
                    ground arith,
                    ground arith,
                    ground arith,
                    ground arith,
                  )
                ]
      ]

  process_staging :
      (now : ℕ) (payload : Fields) (b : Binding) (row : Option PendingCredential) (s : Store)
      → binding_fields payload ≡ ok b
      → parse_action (get "action" payload) ≡ ok staging
      → select (pending_of b.transaction) s.pendings ≡ row
      → check_row b row s ≡ (ok tt, s)
      → process_pending L C uuid4 now payload s ≡ stage L C now b payload row s
  unfolding process_pending dispatch
  process_staging now payload b row s bound action found fits =
      rw bound (rw action (rw found (rw fits refl)))

  -- The same request, before the deadline of its pending row.
  stage_same :
      (now : ℕ) (b : Binding) (payload : Fields) (row : PendingCredential) (s : Store) (d : ℕ)
      → validate_tokens payload ≡ ok tt
      → check_deadline now (get "expires_at" payload) ≡ ok d
      → row.status ≡ PendingStatus.pending
      → now < row.expires_at
      → row.payload_hash ≡ L.sha256 (L.dumps_sorted_compact (dict payload))
      → stage L C now b payload (some row) s ≡ (ok (reply "staged" b.transaction), s)
  unfolding stage
  stage_same now b payload row s d valid due live ahead hash = ground arith

  stage_twice :
      (now now' : ℕ) (payload : Fields) (b : Binding) (s s' : Store) (r : Reply) (d : ℕ)
      → binding_fields payload ≡ ok b
      → parse_action (get "action" payload) ≡ ok staging
      → select (pending_of b.transaction) s.pendings ≡ none
      → stage L C now b payload none s ≡ (ok r, s')
      → check_deadline now' (get "expires_at" payload) ≡ ok d
      → process_pending L C uuid4 now' payload s' ≡ (ok r, s')
  stage_twice now now' payload b s s' r d bound action absent ran due =
      let (deadline, sealed, due0, valid, answer, _, stored) =
        stage_fresh now b payload s s' r ran in
      let row = sealed_row now b payload deadline s sealed in
      let (same, ahead) =
        check_deadline-same now now' (get "expires_at" payload) deadline d due0 due in
      let found : select (pending_of b.transaction) s'.pendings ≡ some row =
        rw stored (rw select-append (rw absent (rw ==_self refl))) in
      let fits : check_row b (some row) s' ≡ (ok tt, s') = ground arith in
      process_staging now' payload b (some row) s' bound action found fits
      ∙ stage_same now' b payload row s' d valid due refl (omega arith) refl
      ∙ ap (λ (a : Reply). (ok a, s')) (sym answer)

  -- A stage request that opened a transaction, sent again while its deadline is still ahead, gets
  -- the same answer and changes nothing, so the deadline is not extended.
  pub stage_retry :
      (now now' : ℕ) (payload : Fields) (b : Binding) (s s' : Store) (r : Reply) (d : ℕ)
      → binding_fields payload ≡ ok b
      → parse_action (get "action" payload) ≡ ok staging
      → select (pending_of b.transaction) s.pendings ≡ none
      → process_pending L C uuid4 now payload s ≡ (ok r, s')
      → check_deadline now' (get "expires_at" payload) ≡ ok d
      → process_pending L C uuid4 now' payload s' ≡ (ok r, s')
  stage_retry now now' payload b s s' r d bound action absent ran due =
      stage_twice now now' payload b s s' r d bound action absent
        (sym (process_staging now payload b none s bound action absent refl) ∙ ran) due
