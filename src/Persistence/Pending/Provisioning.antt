-- ===== src/Persistence/Pending/Provisioning.antt =====
-- src/pinterest_mcp/persistence/pending.py: a first completion is refused with nothing written, or
-- every check has passed and it provisions.
use pinterest_mcp_docker.Common.{
  ℕ, ◌<◌, ◌+◌, ◌≡◌, String, Option, none, some, arith, leb, Option-cases, Bool-cases, inl, inr, ◌⊎◌,
  ◌==◌, nat_eq, string_eq, ap,
}
use pinterest_mcp_docker.Common.Rows.{select}
use pinterest_mcp_docker.Persistence.Models.{User, PinterestConnection, PendingCredential, Store}
use pinterest_mcp_docker.Persistence.Cipher.{Cipher}
use pinterest_mcp_docker.Persistence.Session.{
  ok, err, Error, ingress_security, Run-cases, has_identity, has_account, owned_by,
}
use pinterest_mcp_docker.Persistence.Json.{Fields}
use pinterest_mcp_docker.Persistence.Pending.Validation.{Binding}
use pinterest_mcp_docker.Persistence.Pending.Rows.{Library, version_of}
use pinterest_mcp_docker.Persistence.Pending.Complete.{
  Envelope, check_owner, open_envelope, provision, complete_first,
}
use pinterest_mcp_docker.Persistence.Pending.Lifecycle.{open_envelope-state}

-- The connection that the user of a login has so far.
abbrev pub connection_of : Store → Option User → Option PinterestConnection
connection_of s none = none
connection_of s (some u) = select (owned_by u.id) s.connections

pub check_owner-cases :
    (account : String) (user owner : Option User) (s : Store)
    → ((e : Error) × (check_owner account user owner s ≡ (err e, s)))
      ⊎ (check_owner account user owner s ≡ (ok tt, s))
check_owner-cases account user owner s = elim (Run-cases (check_owner account user owner s)) [
  | inl (u, t, passed) ↦ inr (ground arith)
  | inr (e, t, failed) ↦ inl (e, ground arith)
]

module _ (L : Library) (C : Cipher) (uuid4 : ℕ → ℕ) where
  open_envelope-cases :
      (row : PendingCredential) (account sealed : String) (s : Store)
      → ((e : Error) × (open_envelope L C row account sealed s ≡ (err e, s)))
        ⊎ ((e : Envelope) × (open_envelope L C row account sealed s ≡ (ok e, s)))
  open_envelope-cases row account sealed s =
      elim (Run-cases (open_envelope L C row account sealed s)) [
        | inl (e, t, opened) ↦ inr (
          e,
          rw opened (
              ap (λ (u : Store). (ok e, u))
                (rw opened at (open_envelope-state L C uuid4 row account sealed s))),
        )
        | inr (e, t, failed) ↦ inl (
          e,
          rw failed (
              ap (λ (u : Store). (err e, u))
                (rw failed at (open_envelope-state L C uuid4 row account sealed s))),
        )
      ]

  -- What has been checked when credentials are provisioned.
  pub record MayProvision (now : ℕ) (b : Binding) (subject : String) (row : PendingCredential)
      (s : Store) (e : Envelope) : Type 0 where
    pub owner :
        check_owner b.account
          (select (has_identity b.issuer subject) s.users)
          (select (has_account b.account) s.users)
          s
        ≡ (ok tt, s)
    pub version :
        version_of (connection_of s (select (has_identity b.issuer subject) s.users))
        ≡ row.expected_version
    pub opened :
        (sealed : String) × (row.encrypted_payload ≡ some sealed)
        × (open_envelope L C row b.account sealed s ≡ (ok e, s))
    pub fresh : now < row.received_at + e.expires_in

  pub complete_first-cases :
      (now : ℕ) (b : Binding) (payload : Fields) (subject : String) (row : PendingCredential)
      (s : Store)
      → ((e : Error) × (complete_first L C uuid4 now b payload subject row s ≡ (err e, s)))
        ⊎ ((e : Envelope) × MayProvision now b subject row s e
            × (complete_first L C uuid4 now b payload subject row s
                ≡ provision L C uuid4 b payload subject row
                    (select (has_identity b.issuer subject) s.users)
                    e
                    s))
  unfolding complete_first
  complete_first-cases now b payload subject row s =
      let user = select (has_identity b.issuer subject) s.users in
      elim (check_owner-cases b.account user (select (has_account b.account) s.users) s) [
        | inl (e, failed) ↦ inl (e, ground arith)
        | inr passed ↦
            elim (Bool-cases (version_of (connection_of s user) == row.expected_version)) [
              | inr changed ↦ inl (ingress_security "Connection changed during login", ground arith)
              | inl same ↦ elim (Option-cases row.encrypted_payload) [
                | inl gone ↦ inl (ingress_security "Pending credentials unavailable", ground arith)
                | inr (sealed, held) ↦ elim (open_envelope-cases row b.account sealed s) [
                  | inl (e, failed) ↦ inl (e, ground arith)
                  | inr (e, opened) ↦ elim (Bool-cases (leb (row.received_at + e.expires_in) now)) [
                    | inl late ↦
                        inl (ingress_security "Pending provider credentials expired", ground arith)
                    | inr early ↦ inr (
                      e,
                      record {
                        owner = passed;
                        version = ground arith;
                        opened = (sealed, held, opened);
                        fresh = ground arith;
                      },
                      ground arith,
                    )
                  ]
                ]
              ]
            ]
      ]
