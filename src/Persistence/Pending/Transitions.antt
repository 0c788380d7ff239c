-- ===== src/Persistence/Pending/Transitions.antt =====
-- The transitions of a pending row (src/pinterest_mcp/persistence/pending.py, and the cancellation
-- in repository.py): a row that is no longer pending is final.
use pinterest_mcp_docker.Common.{
  ◌≡◌, refl, ◌≢◌, String, Bool, true, Option, none, some, List, [], ◌∷◌, ◌++◌, ◌==◌, string_eq,
  arith, Option-cases, Bool-cases, inl, inr, ◌∙◌, ap,
}
use pinterest_mcp_docker.Common.Rows.{
  select, modify_row, update, select-append, select-update, select-modify_row_self,
  select-modify_row_ne, select_sound,
}
use pinterest_mcp_docker.Persistence.Models.{PendingCredential, PendingStatus}
use pinterest_mcp_docker.Persistence.Session.{pending_of}

-- A row at its end: the ciphertext is gone, and everything else but the status is as it was.
abbrev pub ended : PendingStatus → PendingCredential → PendingCredential
ended status r = record r { encrypted_payload = none; status = status }

-- What may become of a row: nothing, or one of three endings if it is pending. Each erases the
-- ciphertext and keeps the binding, the deadline and the hash.
pub data Follows (r r' : PendingCredential) : Type 0 where
  stays : r' ≡ r → Follows r r'
  expires : r.status ≡ PendingStatus.pending → r' ≡ ended PendingStatus.expired r → Follows r r'
  cancels : r.status ≡ PendingStatus.pending → r' ≡ ended PendingStatus.cancelled r → Follows r r'
  completes :
      (subject : String)
      → r.status ≡ PendingStatus.pending
      → r' ≡ record (ended PendingStatus.completed r) { completed_subject = some subject }
      → Follows r r'

abbrev pub Later : Option PendingCredential → Option PendingCredential → Type 0
Later none o = Unit
Later (some r) none = ⊥
Later (some r) (some r') = Follows r r'

pub Follows-final :
    (r r' : PendingCredential) → r.status ≢ PendingStatus.pending → Follows r r' → r' ≡ r
Follows-final r r' done (stays e) = e
Follows-final r r' done (expires h e) = absurd (done h)
Follows-final r r' done (cancels h e) = absurd (done h)
Follows-final r r' done (completes subject h e) = absurd (done h)

Follows-trans : (r r' r'' : PendingCredential) → Follows r r' → Follows r' r'' → Follows r r''
Follows-trans r r' r'' (stays e) g = rw (← e) g
Follows-trans r r' r'' (expires h e) g = expires h (Follows-final r' r'' (rw e (λ p. cc)) g ∙ e)
Follows-trans r r' r'' (cancels h e) g = cancels h (Follows-final r' r'' (rw e (λ p. cc)) g ∙ e)
Follows-trans r r' r'' (completes subject h e) g =
    completes subject h (Follows-final r' r'' (rw e (λ p. cc)) g ∙ e)

pub Later-refl : (o : Option PendingCredential) → Later o o
Later-refl none = tt
Later-refl (some r) = stays refl

pub Later-trans : (o p q : Option PendingCredential) → Later o p → Later p q → Later o q
Later-trans none p q h k = tt
Later-trans (some r) none q h k = absurd h
Later-trans (some r) (some r') none h k = k
Later-trans (some r) (some r') (some r'') h k = Follows-trans r r' r'' h k

module _ (t : String) where
  pub append-Later :
      (rows : List PendingCredential) (r : PendingCredential)
      → Later (select (pending_of t) rows) (select (pending_of t) (rows ++ r ∷ []))
  append-Later rows r = elim (Option-cases (select (pending_of t) rows)) [
    | inl absent ↦ rw absent tt
    | inr (old, found) ↦ rw select-append (rw found (stays refl))
  ]

  pub update-Later :
      (p : PendingCredential → Bool) (f : PendingCredential → PendingCredential)
      (rows : List PendingCredential)
      → ((r : PendingCredential) → (f r).transaction_id ≡ r.transaction_id)
      → ((r : PendingCredential) → p r ≡ true → Follows r (f r))
      → Later (select (pending_of t) rows) (select (pending_of t) (update p f rows))
  update-Later p f rows same step = elim (Option-cases (select (pending_of t) rows)) [
    | inl absent ↦ rw absent tt
    | inr (old, found) ↦
        rw (select-update p (pending_of t) f rows (λ r. ap (λ k. k == t) (same r))) (
          rw found (elim (Bool-cases (p old)) [
            | inl hit ↦ rw hit (step old hit)
            | inr miss ↦ rw miss (stays refl)
          ]))
  ]

  pub modify_row-Later :
      (b : String) (f : PendingCredential → PendingCredential) (row : PendingCredential)
      (rows : List PendingCredential)
      → select (pending_of b) rows ≡ some row
      → ((r : PendingCredential) → (f r).transaction_id ≡ r.transaction_id)
      → Follows row (f row)
      → Later
          (select (pending_of t) rows)
          (select (pending_of t) (modify_row (pending_of b) f rows))
  modify_row-Later b f row rows found same step = elim (string_eq.dec b t) [
    | yes e ↦ rw (← e) (
        rw found (
          rw
            (select-modify_row_self (pending_of b) f rows row found
              (rw same (select_sound (pending_of b) rows row found)))
            step))
    | no d ↦
        rw
          (select-modify_row_ne (pending_of b) (pending_of t) f rows
            (λ r h. ground (arith, same r)))
          (Later-refl _)
  ]
