-- ===== src/Persistence/Invariant/Accounts.antt =====
-- The invariant under the methods of src/pinterest_mcp/persistence/repository.py.
use pinterest_mcp_docker.Common.{
  ℕ, ◌≡◌, refl, String, Bool, none, some, List, [], ◌∷◌, ◌++◌, string_eq, nat_eq, arith, inl, inr,
  suc, ==_self,
}
use pinterest_mcp_docker.Common.Rows.{
  select, modify_row, select-append, All-append, All-imp, All-modify_row,
}
use pinterest_mcp_docker.Common.Distinct.{Distinct-append, Distinct-modify_row, select-Distinct}
use pinterest_mcp_docker.Persistence.Models.{User, PinterestConnection, Store}
use pinterest_mcp_docker.Persistence.Session.{
  ok, Run-cases, has_id, has_identity, has_account, owned_by, add_user,
}
use pinterest_mcp_docker.Persistence.Session.Inserts.{add_user-eq-ok, add_user-eq-err}
use pinterest_mcp_docker.Persistence.Repository.{create_user}
use pinterest_mcp_docker.Persistence.Repository.Writes.{Writes, nothing, rewrites, adds}
use pinterest_mcp_docker.Persistence.Invariant.{
  same_id, same_identity, same_account, same_owner, UsersOk, Owns, ConnectionsOk, IsValid,
}

-- A new user with a fresh key.
append-UsersOk :
    (users : List User) (u : User)
    → select (has_id u.id) users ≡ none
    → select (has_identity u.issuer u.subject) users ≡ none
    → select (has_account u.provider_account_id) users ≡ none
    → UsersOk users
    → UsersOk (users ++ u ∷ [])
append-UsersOk users u i j k v = record {
  ids = Distinct-append same_id (λ x y. ground arith) users u v.ids i;
  identities = Distinct-append same_identity (λ x y. ground arith) users u v.identities j;
  accounts = Distinct-append same_account (λ x y. ground arith) users u v.accounts k;
}

append-Owns :
    (users : List User) (u : User) (owner : ℕ) (account : String)
    → Owns users owner account
    → Owns (users ++ u ∷ []) owner account
append-Owns users u owner account h = ground (arith, select-append (has_id owner) users u)

pub add_user-IsValid : (u : User) (s : Store) → IsValid s → IsValid (add_user u s).1
add_user-IsValid u s v = elim (Run-cases (add_user u s)) [
  | inl (t, s', ran) ↦
      let (grown, i, j, k) = add_user-eq-ok u s s' ran in
      rw ran (
        rw grown (record {
          users = append-UsersOk s.users u i j k v.users;
          connections = record {
            owners = v.connections.owners;
            linked =
                All-imp _ _ s.connections
                  (λ c. append-Owns s.users u c.owner_id c.provider_account_id)
                  v.connections.linked;
          };
          receipts =
              All-imp _ _ s.receipts (λ r. append-Owns s.users u r.owner_id r.provider_account_id)
                v.receipts;
          pendings = v.pendings;
          transactions = v.transactions;
          operations = v.operations;
        }))
  | inr (e, s', failed) ↦ rw failed (rw (add_user-eq-err u s s' e failed) v)
]

-- A rewritten connection keeps its owner and its account.
pub modify-ConnectionsOk :
    (users : List User) (p : PinterestConnection → Bool)
    (f : PinterestConnection → PinterestConnection) (connections : List PinterestConnection)
    → ((c : PinterestConnection) → (f c).owner_id ≡ c.owner_id)
    → ((c : PinterestConnection) → (f c).provider_account_id ≡ c.provider_account_id)
    → ConnectionsOk users connections
    → ConnectionsOk users (modify_row p f connections)
modify-ConnectionsOk users p f cs o a v = record {
  owners =
      Distinct-modify_row same_owner p f (λ x y. ground (arith, o x)) (λ x y. ground (arith, o y))
        cs v.owners;
  linked = All-modify_row _ p f cs (λ c _ h. rw (o c) (rw (a c) h)) v.linked;
}

append-ConnectionsOk :
    (users : List User) (connections : List PinterestConnection) (c : PinterestConnection)
    → select (owned_by c.owner_id) connections ≡ none
    → Owns users c.owner_id c.provider_account_id
    → ConnectionsOk users connections
    → ConnectionsOk users (connections ++ c ∷ [])
append-ConnectionsOk users cs c fresh owns v = record {
  owners = Distinct-append same_owner (λ x y. ground arith) cs c v.owners fresh;
  linked = All-append _ cs c v.linked owns;
}

-- Every shape of write keeps the connections in order, given that the owner has the account.
pub Writes-ConnectionsOk :
    (users : List User) (owner : ℕ) (account : String) (old new : List PinterestConnection)
    → Owns users owner account
    → ConnectionsOk users old
    → Writes owner account old new
    → ConnectionsOk users new
Writes-ConnectionsOk users owner account old new owns v (nothing e) = rw e v
Writes-ConnectionsOk users owner account old new owns v (rewrites f o a e) =
    rw e (modify-ConnectionsOk users (owned_by owner) f old o a v)
Writes-ConnectionsOk users owner account old new owns v (adds c o a fresh e) =
    rw e (append-ConnectionsOk users old c (rw o fresh) (rw o (rw a owns)) v)

-- A write that adds no connection needs no owner.
pub rewrite-IsValid :
    (owner : ℕ) (f : PinterestConnection → PinterestConnection) (s : Store)
    → ((c : PinterestConnection) → (f c).owner_id ≡ c.owner_id)
    → ((c : PinterestConnection) → (f c).provider_account_id ≡ c.provider_account_id)
    → IsValid s
    → IsValid (record s { connections = modify_row (owned_by owner) f s.connections })
rewrite-IsValid owner f s o a v = record {
  users = v.users;
  connections = modify-ConnectionsOk s.users (owned_by owner) f s.connections o a v.connections;
  receipts = v.receipts;
  pendings = v.pendings;
  transactions = v.transactions;
  operations = v.operations;
}

-- Some user has the identifier and the account, if a query finds it.
pub select-Owns :
    (users : List User) (p : User → Bool) (u : User)
    → UsersOk users
    → select p users ≡ some u
    → Owns users u.id u.provider_account_id
select-Owns users p u v found =
    rw (select-Distinct same_id (λ x y. ground arith) (λ x. ==_self x.id) p users u v.ids found)
      refl

create_user-Run :
    (uuid4 : ℕ → ℕ) (issuer subject account status : String) (s t : Store) (u : User)
    → create_user uuid4 issuer subject account status s ≡ (ok u, t)
    → (t.users ≡ s.users ++ u ∷ [])
      × (u.provider_account_id ≡ account)
      × (select (has_id u.id) s.users ≡ none)
unfolding create_user add_user
create_user-Run uuid4 issuer subject account status s t u ran = ground arith

pub create_user-IsValid :
    (uuid4 : ℕ → ℕ) (issuer subject account status : String) (s : Store)
    → IsValid s
    → IsValid (create_user uuid4 issuer subject account status s).1
unfolding create_user
create_user-IsValid uuid4 issuer subject account status s v =
    let u : User = record {
      id = uuid4 s.draws;
      issuer = issuer;
      subject = subject;
      provider_account_id = account;
      lifecycle_status = status;
    } in
    let s1 : Store = record s { draws = suc s.draws } in
    let v1 : IsValid s1 = record {
      users = v.users;
      connections = v.connections;
      receipts = v.receipts;
      pendings = v.pendings;
      transactions = v.transactions;
      operations = v.operations;
    } in
    elim (Run-cases (add_user u s1)) [
      | inl (x, t, ran) ↦ rw ran (rw ran at (add_user-IsValid u s1 v1))
      | inr (e, t, failed) ↦ rw failed (rw failed at (add_user-IsValid u s1 v1))
    ]

-- The new user owns its account.
pub create_user-Owns :
    (uuid4 : ℕ → ℕ) (issuer subject account status : String) (s t : Store) (u : User)
    → create_user uuid4 issuer subject account status s ≡ (ok u, t)
    → Owns t.users u.id account
create_user-Owns uuid4 issuer subject account status s t u ran =
    let (grown, has, fresh) = create_user-Run uuid4 issuer subject account status s t u ran in
    rw grown (rw select-append (rw fresh (rw ==_self (rw has refl))))
