-- ===== src/Persistence/Pending/Requests.antt =====
-- The common part of `process_pending` (src/pinterest_mcp/persistence/pending.py): a request is
-- refused with nothing written, or its action runs on the row of its transaction.
use pinterest_mcp_docker.Common.{ℕ, ◌≡◌, refl, Option, none, some, Bool-cases, inl, inr, ◌⊎◌}
use pinterest_mcp_docker.Common.Rows.{select}
use pinterest_mcp_docker.Persistence.Models.{PendingCredential, Store}
use pinterest_mcp_docker.Persistence.Cipher.{Cipher}
use pinterest_mcp_docker.Persistence.Session.{
  ok, err, Error, Result-cases, pending_of, ingress_security,
}
use pinterest_mcp_docker.Persistence.Json.{Fields, get}
use pinterest_mcp_docker.Persistence.Pending.Validation.{Binding, binding_fields}
use pinterest_mcp_docker.Persistence.Pending.Rows.{Library, is_bound, check_row}
use pinterest_mcp_docker.Persistence.Pending.{Action, parse_action, dispatch, process_pending}

pub check_row-cases :
    (b : Binding) (row : Option PendingCredential) (s : Store)
    → (check_row b row s ≡ (err (ingress_security "Transaction binding mismatch"), s))
      ⊎ (check_row b row s ≡ (ok tt, s))
check_row-cases b none s = inr refl
check_row-cases b (some row) s = elim (Bool-cases (is_bound b row)) [
  | inl fits ↦ inr (rw fits refl)
  | inr differs ↦ inl (rw differs refl)
]

module _ (L : Library) (C : Cipher) (uuid4 : ℕ → ℕ) (now : ℕ) (payload : Fields) (s : Store) where
  pub process_pending-cases :
      ((e : Error) × (process_pending L C uuid4 now payload s ≡ (err e, s)))
      ⊎ ((b : Binding) × (action : Action) × (binding_fields payload ≡ ok b)
          × (parse_action (get "action" payload) ≡ ok action)
          × (check_row b (select (pending_of b.transaction) s.pendings) s ≡ (ok tt, s))
          × (process_pending L C uuid4 now payload s
              ≡ dispatch L C uuid4 now action b payload
                  (select (pending_of b.transaction) s.pendings)
                  s))
  unfolding process_pending
  process_pending-cases = elim (Result-cases (binding_fields payload)) [
    | inr (e, bad) ↦ inl (e, rw bad refl)
    | inl (b, bound) ↦ elim (Result-cases (parse_action (get "action" payload))) [
      | inr (e, bad) ↦ inl (e, rw bound (rw bad refl))
      | inl (action, asked) ↦
          elim (check_row-cases b (select (pending_of b.transaction) s.pendings) s) [
            | inl differs ↦ inl (
              ingress_security "Transaction binding mismatch",
              rw bound (rw asked (rw differs refl)),
            )
            | inr fits ↦ inr (b, action, bound, asked, fits, rw bound (rw asked (rw fits refl)))
          ]
    ]
  ]
