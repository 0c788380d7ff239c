-- ===== src/Persistence/Invariant/Operations.antt =====
-- The immediate operations of src/pinterest_mcp/persistence/repository.py keep the database valid.
use pinterest_mcp_docker.Common.{
  ℕ, ◌≡◌, ◌⊎◌, inl, inr, refl, String, Option, none, List, [], ◌∷◌, ◌++◌, nat_eq, string_eq, arith,
  Option-cases,
}
use pinterest_mcp_docker.Common.Rows.{select, modify_row}
use pinterest_mcp_docker.Common.Distinct.{Distinct, Distinct-append, Distinct-modify_row}
use pinterest_mcp_docker.Persistence.Models.{ImmediateOperation, Store}
use pinterest_mcp_docker.Persistence.Session.{operation_of, has_id, add_operation}
use pinterest_mcp_docker.Persistence.Repository.Operations.{
  operation_for, create_operation, complete_operation,
}
use pinterest_mcp_docker.Persistence.Invariant.{IsValid, same_operation}

operations-IsValid :
    (rows : List ImmediateOperation) (s : Store)
    → Distinct same_operation rows
    → IsValid s
    → IsValid (record s { operations = rows })
operations-IsValid rows s d v = record {
  users = v.users;
  connections = v.connections;
  receipts = v.receipts;
  pendings = v.pendings;
  transactions = v.transactions;
  operations = d;
}

abbrev new_operation : ℕ → String → String → String → String → ImmediateOperation
new_operation owner key tool hash state = record {
  operation_key = key;
  owner_id = owner;
  tool_name = tool;
  payload_hash = hash;
  dispatch_state = state;
  response_payload = none;
  error_message = none;
}

-- An operation is added under a key that is free, or nothing changes.
create_operation-state :
    (owner : ℕ) (key tool hash state : String) (s : Store)
    → ((create_operation owner key tool hash state s).1 ≡ s)
      ⊎ ((select (operation_of key) s.operations ≡ none)
          × ((create_operation owner key tool hash state s).1 ≡ record s {
            operations = s.operations ++ new_operation owner key tool hash state ∷ [];
          }))
unfolding create_operation add_operation
create_operation-state owner key tool hash state s =
    elim (Option-cases (select (operation_of key) s.operations)) [
      | inl free ↦ elim (Option-cases (select (has_id owner) s.users)) [
        | inl unknown ↦ inl (rw free (rw unknown refl))
        | inr (_, known) ↦ inr (free, rw free (rw known refl))
      ]
      | inr (_, taken) ↦ inl (rw taken refl)
    ]

pub create_operation-IsValid :
    (owner : ℕ) (key tool hash state : String) (s : Store)
    → IsValid s
    → IsValid (create_operation owner key tool hash state s).1
create_operation-IsValid owner key tool hash state s v =
    elim (create_operation-state owner key tool hash state s) [
      | inl same ↦ rw same v
      | inr (free, grown) ↦ rw grown (
          operations-IsValid (s.operations ++ new_operation owner key tool hash state ∷ []) s
            (Distinct-append same_operation (λ x y. ground arith) s.operations
              (new_operation owner key tool hash state) v.operations free)
            v)
    ]

complete_operation-state :
    (owner : ℕ) (key state : String) (response error : Option String) (s : Store)
    → ((complete_operation owner key state response error s).1 ≡ s)
      ⊎ ((complete_operation owner key state response error s).1 ≡ record s {
        operations =
            modify_row
              (operation_for owner key)
              (λ o. record o {
                dispatch_state = state;
                response_payload = response;
                error_message = error;
              })
              s.operations;
      })
unfolding complete_operation
complete_operation-state owner key state response error s = ground arith

pub complete_operation-IsValid :
    (owner : ℕ) (key state : String) (response error : Option String) (s : Store)
    → IsValid s
    → IsValid (complete_operation owner key state response error s).1
complete_operation-IsValid owner key state response error s v =
    elim (complete_operation-state owner key state response error s) [
      | inl same ↦ rw same v
      | inr finished ↦ rw finished (
          operations-IsValid _ s
            (Distinct-modify_row same_operation (operation_for owner key) _ (λ x y. refl)
              (λ x y. refl) s.operations v.operations)
            v)
    ]

pub create_operation-pendings :
    (owner : ℕ) (key tool hash state : String) (s : Store)
    → (create_operation owner key tool hash state s).1.pendings ≡ s.pendings
create_operation-pendings owner key tool hash state s =
    elim (create_operation-state owner key tool hash state s) [
      | inl same ↦ rw same refl
      | inr (free, grown) ↦ rw grown refl
    ]

pub complete_operation-pendings :
    (owner : ℕ) (key state : String) (response error : Option String) (s : Store)
    → (complete_operation owner key state response error s).1.pendings ≡ s.pendings
complete_operation-pendings owner key state response error s =
    elim (complete_operation-state owner key state response error s) [
      | inl same ↦ rw same refl
      | inr finished ↦ rw finished refl
    ]
