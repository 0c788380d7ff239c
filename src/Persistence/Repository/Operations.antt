-- ===== src/Persistence/Repository/Operations.antt =====
-- src/pinterest_mcp/persistence/repository.py: the repository of immediate operations.
use pinterest_mcp_docker.Common.{
  ℕ, String, Bool, ◌&&◌, Option, none, some, List, ◌==◌, ◌≡◌, ◌≢◌, refl, string_eq, nat_eq, arith,
  [], ◌∷◌, ◌++◌, ==_self,
}
use pinterest_mcp_docker.Common.Rows.{select, modify_row, select-append}
use pinterest_mcp_docker.Persistence.Models.{ImmediateOperation, Store}
use pinterest_mcp_docker.Persistence.Session.{
  ok, err, integrity, repository, Session, pure, gets, write, ◌>>=◌, ◌>>◌, add_operation,
  operation_of,
}
use pinterest_mcp_docker.Persistence.Repository.{or_raise}

-- `ImmediateOperationRepository`
abbrev pub operation_for : ℕ → String → ImmediateOperation → Bool
operation_for owner_id key o = o.owner_id == owner_id && o.operation_key == key

unfoldable pub get_operation : ℕ → String → Session (Option ImmediateOperation)
get_operation owner_id key = gets λ s. select (operation_for owner_id key) s.operations

unfoldable pub create_operation : ℕ → String → String → String → String → Session ImmediateOperation
unfolding add_operation
create_operation owner_id key tool_name payload_hash dispatch_state = do
  let op : ImmediateOperation = record {
    operation_key = key;
    owner_id = owner_id;
    tool_name = tool_name;
    payload_hash = payload_hash;
    dispatch_state = dispatch_state;
    response_payload = none;
    error_message = none;
  }
  add_operation op
  pure op

unfoldable pub complete_operation :
    ℕ → String → String → Option String → Option String → Session ImmediateOperation
unfolding get_operation
complete_operation owner_id key dispatch_state response error = do
  found ← get_operation owner_id key
  op ← or_raise found (repository "Operation not found for owner")
  let finish : ImmediateOperation → ImmediateOperation = λ o. record o {
    dispatch_state = dispatch_state;
    response_payload = response;
    error_message = error;
  }
  write λ s. record s { operations = modify_row (operation_for owner_id key) finish s.operations }
  pure (finish op)

absent_for :
    (owner : ℕ) (key : String) (os : List ImmediateOperation)
    → select (operation_of key) os ≡ none
    → select (operation_for owner key) os ≡ none
absent_for owner key [] h = refl
absent_for owner key (o ∷ os) h = ground (arith, absent_for owner key os)

inserted :
    (o : ImmediateOperation) (s s' : Store)
    → add_operation o s ≡ (ok tt, s')
    → (s' ≡ record s { operations = s.operations ++ o ∷ [] })
      × (select (operation_of o.operation_key) s.operations ≡ none)
unfolding add_operation
inserted o s s' h = ground arith

taken :
    (key : String) (o p : ImmediateOperation) (s : Store)
    → select (operation_of key) s.operations ≡ some p
    → o.operation_key ≡ key
    → add_operation o s ≡ (err integrity, s)
unfolding add_operation
taken key o p s found same = ground arith

create_inserted :
    (owner : ℕ) (key tool hash state : String) (s s' : Store) (op : ImmediateOperation)
    → create_operation owner key tool hash state s ≡ (ok op, s')
    → (op.operation_key ≡ key) × (op.owner_id ≡ owner) × (add_operation op s ≡ (ok tt, s'))
unfolding create_operation
create_inserted owner key tool hash state s s' op ran = ground arith

create_taken :
    (owner : ℕ) (key tool hash state : String) (p : ImmediateOperation) (s : Store)
    → select (operation_of key) s.operations ≡ some p
    → create_operation owner key tool hash state s ≡ (err integrity, s)
unfolding create_operation add_operation
create_taken owner key tool hash state p s found = ground arith

-- A new operation is found under its owner and key and under no other owner, and its key is taken
-- for every owner.
pub create_operation-found :
    (owner : ℕ) (key tool hash state : String) (s s' : Store) (op : ImmediateOperation)
    → create_operation owner key tool hash state s ≡ (ok op, s')
    → (get_operation owner key s' ≡ (ok (some op), s'))
      × ((other : ℕ) → owner ≢ other → get_operation other key s' ≡ (ok none, s'))
      × ((other : ℕ) → create_operation other key tool hash state s' ≡ (err integrity, s'))
unfolding get_operation
create_operation-found owner key tool hash state s s' op ran =
    let (k, o, added) = create_inserted owner key tool hash state s s' op ran in
    let (stored, fresh) = inserted op s s' added in
    let new : select (operation_of key) s.operations ≡ none = rw k at fresh in
    let here : select (operation_of key) s'.operations ≡ some op =
      rw stored (rw select-append (rw new (rw k (rw ==_self refl)))) in
    (
      rw stored (
          rw select-append (
            rw (absent_for owner key s.operations new)
              (rw k (rw o (rw ==_self (rw ==_self refl)))))),
      (λ other ne.
          rw stored (rw select-append (rw (absent_for other key s.operations new) (ground arith)))),
      (λ other. create_taken other key tool hash state op s' here),
    )
