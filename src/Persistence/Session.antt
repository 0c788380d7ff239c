-- ===== src/Persistence/Session.antt =====
-- A database session: an action on the store that returns or raises. What a session wrote before
-- it raised is still there for the session; `transact` is the `session_factory.begin()` block,
-- which rolls it back. The inserts are `session.add` with its flush, under the keys that
-- src/pinterest_mcp/persistence/models.py declares.
pub mod Inserts
pub mod Holds
pub mod Results
use pinterest_mcp_docker.Common.{
  ℕ, suc, ◌+◌, String, Bool, true, false, ◌&&◌, ◌||◌, Option, none, some, List, [], ◌∷◌, ◌++◌, ◌==◌,
  ◌≡◌, refl, ◌⊎◌, inl, inr, string_eq, nat_eq, if◌then◌else◌,
}
use pinterest_mcp_docker.Common.Rows.{select}
use pinterest_mcp_docker.Persistence.Models.{
  User, PinterestConnection, OAuthCompletionReceipt, ImmediateOperation, PendingCredential, Store,
}

-- The exceptions, with their messages where one class has several. `integrity` is the database's
-- refusal of a duplicate key or a missing owner; the last four are Python's own.
pub data Error : Type 0 where
  ingress_security inactive_connection repository decryption : String → Error
  concurrent_modification foreign_account key_not_found integrity : Error
  value_error type_error overflow_error key_error attribute_error : Error

pub data Result {ℓ} (A : Type ℓ) : Type ℓ where
  ok : A → Result A
  err : Error → Result A

pub Result-cases :
    {A : Type 0} (r : Result A) → ((a : A) × (r ≡ ok a)) ⊎ ((e : Error) × (r ≡ err e))
Result-cases (ok a) = inl (a, refl)
Result-cases (err e) = inr (e, refl)

abbrev pub Session : Type 0 → Type 0
Session A = Store → Result A × Store

module _ {A : Type 0} where
  pub Run-cases :
      (r : Result A × Store)
      → ((a : A) × (t : Store) × (r ≡ (ok a, t))) ⊎ ((e : Error) × (t : Store) × (r ≡ (err e, t)))
  Run-cases (ok a, t) = inl (a, t, refl)
  Run-cases (err e, t) = inr (e, t, refl)

  abbrev pub pure : A → Session A
  pure a s = (ok a, s)

  abbrev pub raise : Error → Session A
  raise e s = (err e, s)

  abbrev pub lift : Result A → Session A
  lift r s = (r, s)

  abbrev pub gets : (Store → A) → Session A
  gets f s = (ok (f s), s)

abbrev pub write : (Store → Store) → Session (Unit {0})
write f s = (ok tt, f s)

abbrev pub raise_if : Bool → Error → Session (Unit {0})
raise_if true e s = (err e, s)
raise_if false e s = (ok tt, s)

module _ {A B : Type 0} where
  abbrev pub continue : Result A × Store → (A → Session B) → Result B × Store
  continue (ok a, s) f = f a s
  continue (err e, s) f = (err e, s)

  -- Inversion of a successful sequence.
  pub continue-eq-ok :
      (r : Result A × Store) (f : A → Session B) (b : B) (s' : Store)
      → continue r f ≡ (ok b, s')
      → (a : A) × (t : Store) × (r ≡ (ok a, t)) × (f a t ≡ (ok b, s'))
  continue-eq-ok (ok a, t) f b s' h = (a, t, refl, h)
  continue-eq-ok (err e, t) f b s' h = cc

infixl 5 ◌>>=◌ ◌>>◌
abbrev pub ◌>>=◌ : {A B : Type 0} → Session A → (A → Session B) → Session B
◌>>=◌ m f s = continue (m s) f

abbrev pub ◌>>◌ : {A B : Type 0} → Session A → Session B → Session B
m >> k = m >>= λ _. k

-- One `secrets.token_bytes` or `uuid.uuid4`: the number of this draw.
abbrev pub draw : Session ℕ
draw s = (ok s.draws, record s { draws = suc s.draws })

-- Rows by key.
abbrev pub has_id : ℕ → User → Bool
has_id i u = u.id == i

abbrev pub has_identity : String → String → User → Bool
has_identity issuer subject u = u.issuer == issuer && u.subject == subject

abbrev pub has_account : String → User → Bool
has_account account u = u.provider_account_id == account

abbrev pub owned_by : ℕ → PinterestConnection → Bool
owned_by owner c = c.owner_id == owner

abbrev pub receipt_of : String → OAuthCompletionReceipt → Bool
receipt_of transaction r = r.transaction_id == transaction

abbrev pub pending_of : String → PendingCredential → Bool
pending_of transaction r = r.transaction_id == transaction

abbrev pub operation_of : String → ImmediateOperation → Bool
operation_of key o = o.operation_key == key

abbrev pub is_some : {A : Type 0} → Option A → Bool
is_some none = false
is_some (some _) = true

-- `session.add(user)`: the primary key, `uq_users_issuer_subject`, and the unique account.
unfoldable pub add_user : User → Session (Unit {0})
add_user u s =
    if is_some (select (has_id u.id) s.users)
      || (is_some (select (has_identity u.issuer u.subject) s.users)
          || is_some (select (has_account u.provider_account_id) s.users))
    then (err integrity, s)
    else (ok tt, record s { users = s.users ++ u ∷ [] })

-- A connection has an owner, and an owner has one connection.
unfoldable pub add_connection : PinterestConnection → Session (Unit {0})
add_connection c s =
    if is_some (select (λ d. d.id == c.id) s.connections)
      || is_some (select (owned_by c.owner_id) s.connections)
    then (err integrity, s)
    else elim (select (has_id c.owner_id) s.users) [
      | none ↦ (err integrity, s)
      | some _ ↦ (ok tt, record s { connections = s.connections ++ c ∷ [] })
    ]

unfoldable pub add_receipt : OAuthCompletionReceipt → Session (Unit {0})
add_receipt r s =
    if is_some (select (receipt_of r.transaction_id) s.receipts)
    then (err integrity, s)
    else elim (select (has_id r.owner_id) s.users) [
      | none ↦ (err integrity, s)
      | some _ ↦ (ok tt, record s { receipts = s.receipts ++ r ∷ [] })
    ]

unfoldable pub add_operation : ImmediateOperation → Session (Unit {0})
add_operation o s =
    if is_some (select (operation_of o.operation_key) s.operations)
    then (err integrity, s)
    else elim (select (has_id o.owner_id) s.users) [
      | none ↦ (err integrity, s)
      | some _ ↦ (ok tt, record s { operations = s.operations ++ o ∷ [] })
    ]

unfoldable pub add_pending : PendingCredential → Session (Unit {0})
add_pending r s =
    if is_some (select (pending_of r.transaction_id) s.pendings)
    then (err integrity, s)
    else (ok tt, record s { pendings = s.pendings ++ r ∷ [] })

-- Commit on return; on an exception nothing of the session stays but the draws.
module _ {A : Type 0} where
  abbrev pub settle : Result A × Store → Store → Result A × Store
  settle (ok a, s') s = (ok a, s')
  settle (err e, s') s = (err e, record s { draws = s'.draws })

  unfoldable pub transact : Session A → Session A
  transact m s = settle (m s) s
