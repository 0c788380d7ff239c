-- ===== src/Persistence/Repository/Writes.antt =====
-- src/pinterest_mcp/persistence/repository.py: what each method may do to the connections, on
-- every branch, and that it reaches no connection of another owner.
use pinterest_mcp_docker.Common.{
  ℕ, suc, ◌≡◌, ◌≢◌, ◌⊎◌, refl, String, Option, none, some, List, [], ◌∷◌, ◌++◌, ◌==◌, string_eq,
  nat_eq, arith, Option-cases, Bool-cases, inl, inr, ap, ◌∙◌,
}
use pinterest_mcp_docker.Common.Rows.{select, modify_row, select-append, select-modify_row_ne}
use pinterest_mcp_docker.Persistence.Models.{PinterestConnection, Store}
use pinterest_mcp_docker.Persistence.Cipher.{Cipher}
use pinterest_mcp_docker.Persistence.Session.{ok, Run-cases, owned_by, add_connection}
use pinterest_mcp_docker.Persistence.Session.Inserts.{add_connection-eq-ok, add_connection-eq-err}
use pinterest_mcp_docker.Persistence.Repository.{
  Credentials, Account, encrypt_pair, reconnected, renewed, initial, revoked, reconnect_connection,
  save_initial_connection, update_tokens_versioned, disconnect_connection,
}
use pinterest_mcp_docker.Persistence.Repository.Tables.{encrypt_pair-KeepsTables}

-- No connection is written, or the owner's is rewritten by a function that keeps its owner and
-- account, or the owner gets its first one.
pub data Writes (owner : ℕ) (account : String) (old new : List PinterestConnection) : Type 0 where
  nothing : new ≡ old → Writes owner account old new
  rewrites :
      (f : PinterestConnection → PinterestConnection)
      → ((c : PinterestConnection) → (f c).owner_id ≡ c.owner_id)
      → ((c : PinterestConnection) → (f c).provider_account_id ≡ c.provider_account_id)
      → new ≡ modify_row (owned_by owner) f old
      → Writes owner account old new
  adds :
      (c : PinterestConnection)
      → c.owner_id ≡ owner
      → c.provider_account_id ≡ account
      → select (owned_by owner) old ≡ none
      → new ≡ old ++ c ∷ []
      → Writes owner account old new

module _ (C : Cipher) where
  pub reconnect-Writes :
      (owner : ℕ) (account : String) (t : Credentials) (a : Account) (s : Store)
      → Writes owner account s.connections
          (reconnect_connection C owner account t a s).1.connections
  unfolding reconnect_connection
  reconnect-Writes owner account t a s =
      elim (Option-cases (select (owned_by owner) s.connections)) [
        | inl absent ↦ nothing (ground arith)
        | inr (c, found) ↦ elim (Bool-cases (c.provider_account_id == account)) [
          | inr other ↦ nothing (ground arith)
          | inl same ↦ elim (Run-cases (encrypt_pair C t owner account s)) [
            | inl ((access, refresh), s', ran) ↦
                rewrites (λ d. reconnected d access refresh t a) (λ d. refl) (λ d. refl)
                  (ground (arith, encrypt_pair-KeepsTables C t owner account s))
            | inr (e, s', failed) ↦
                nothing (ground (arith, encrypt_pair-KeepsTables C t owner account s))
          ]
        ]
      ]

  pub update_tokens-Writes :
      (owner version : ℕ) (account : String) (t : Credentials) (s : Store)
      → Writes owner account s.connections
          (update_tokens_versioned C owner version t s).1.connections
  unfolding update_tokens_versioned
  update_tokens-Writes owner version account t s =
      elim (Option-cases (select (owned_by owner) s.connections)) [
        | inl absent ↦ nothing (ground arith)
        | inr (c, found) ↦ elim (Bool-cases (c.credential_version == version)) [
          | inr stale ↦ nothing (ground arith)
          | inl current ↦ elim (Run-cases (encrypt_pair C t owner c.provider_account_id s)) [
            | inl ((access, refresh), s', ran) ↦
                rewrites (λ d. renewed version d access refresh t) (λ d. refl) (λ d. refl)
                  (ground (arith, encrypt_pair-KeepsTables C t owner c.provider_account_id s))
            | inr (e, s', failed) ↦
                nothing (ground (arith, encrypt_pair-KeepsTables C t owner c.provider_account_id s))
          ]
        ]
      ]

  save_found :
      (uuid4 : ℕ → ℕ) (owner : ℕ) (account : String) (t : Credentials) (a : Account)
      (c : PinterestConnection) (s : Store)
      → select (owned_by owner) s.connections ≡ some c
      → ((save_initial_connection C uuid4 owner account t a s).1 ≡ s)
        ⊎ ((save_initial_connection C uuid4 owner account t a s).1
            ≡ (reconnect_connection C owner account t a s).1)
  unfolding save_initial_connection
  save_found uuid4 owner account t a c s found = ground arith

  -- The first connection, once its tokens are encrypted.
  save_new :
      (uuid4 : ℕ → ℕ) (owner : ℕ) (account : String) (t : Credentials) (a : Account) (s s' : Store)
      (access : String) (refresh : Option String)
      → select (owned_by owner) s.connections ≡ none
      → encrypt_pair C t owner account s ≡ (ok (access, refresh), s')
      → s'.connections ≡ s.connections
      → Writes owner account s.connections
          (save_initial_connection C uuid4 owner account t a s).1.connections
  unfolding save_initial_connection
  save_new uuid4 owner account t a s s' access refresh absent ran kept =
      let c = initial uuid4 C.primary_key_id s'.draws owner account access refresh t a in
      let s1 : Store = record s' { draws = suc s'.draws } in
      elim (Run-cases (add_connection c s1)) [
        | inr (e, s2, failed) ↦ nothing (
            rw absent (
              rw ran (
                rw failed (
                  ap (λ (r : Store). r.connections) (add_connection-eq-err c s1 s2 e failed)
                  ∙ kept))))
        | inl (u, s2, added) ↦ adds c refl refl absent (
            rw absent (
              rw ran (
                rw added (
                  ap (λ (r : Store). r.connections) (add_connection-eq-ok c s1 s2 added).0
                  ∙ ap (λ cs. cs ++ c ∷ []) kept))))
      ]

  pub save-Writes :
      (uuid4 : ℕ → ℕ) (owner : ℕ) (account : String) (t : Credentials) (a : Account) (s : Store)
      → Writes owner account s.connections
          (save_initial_connection C uuid4 owner account t a s).1.connections
  unfolding save_initial_connection
  save-Writes uuid4 owner account t a s =
      elim (Option-cases (select (owned_by owner) s.connections)) [
        | inr (c, found) ↦ elim (save_found uuid4 owner account t a c s found) [
          | inl refused ↦ nothing (rw refused refl)
          | inr again ↦ rw again (reconnect-Writes owner account t a s)
        ]
        | inl absent ↦ elim (Run-cases (encrypt_pair C t owner account s)) [
          | inr (e, s', failed) ↦
              nothing (ground (arith, encrypt_pair-KeepsTables C t owner account s))
          | inl ((access, refresh), s', ran) ↦
              save_new uuid4 owner account t a s s' access refresh absent ran
                (ground (arith, encrypt_pair-KeepsTables C t owner account s))
        ]
      ]

pub disconnect-Writes :
    (owner : ℕ) (account : String) (s : Store)
    → Writes owner account s.connections (disconnect_connection owner s).1.connections
unfolding disconnect_connection
disconnect-Writes owner account s = elim (Option-cases (select (owned_by owner) s.connections)) [
  | inl absent ↦ nothing (ground arith)
  | inr (c, found) ↦ rewrites revoked (λ d. refl) (λ d. refl) (ground arith)
]

-- The connection of another owner is the same afterwards.
pub select-Writes :
    (owner other : ℕ) (account : String) (old new : List PinterestConnection)
    → owner ≢ other
    → Writes owner account old new
    → select (owned_by other) new ≡ select (owned_by other) old
select-Writes owner other account old new ne (nothing e) = rw e refl
select-Writes owner other account old new ne (rewrites f o a e) =
    rw e (select-modify_row_ne (owned_by owner) (owned_by other) f old (λ c h. ground (arith, o c)))
select-Writes owner other account old new ne (adds c o a fresh e) =
    rw e (ground (arith, select-append (owned_by other) old c))
