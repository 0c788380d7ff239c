-- ===== src/Persistence/Ingress/Persisted.antt =====
-- What process_credential_ingress (src/pinterest_mcp/persistence/ingress.py) leaves in the database.
use pinterest_mcp_docker.Common.{
  ℕ, ◌+◌, ◌≡◌, ◌≢◌, refl, String, Option, none, some, string_eq, arith, ap, sym, ◌∙◌, ==_self,
}
use pinterest_mcp_docker.Common.Rows.{select, select-append}
use pinterest_mcp_docker.Persistence.Models.{User, OAuthCompletionReceipt, Store}
use pinterest_mcp_docker.Persistence.Cipher.{Cipher}
use pinterest_mcp_docker.Persistence.Session.{
  ok, err, ingress_security, lift, pure, ◌>>◌, has_identity, receipt_of, add_receipt,
  continue-eq-ok,
}
use pinterest_mcp_docker.Persistence.Session.Holds.{bind-Holds}
use pinterest_mcp_docker.Persistence.Session.Inserts.{add_receipt-eq-ok}
use pinterest_mcp_docker.Persistence.Repository.{Credentials, create_user, save_initial_connection}
use pinterest_mcp_docker.Persistence.Repository.Tables.{
  create_user-KeepsAllButUsers, save-KeepsOthers,
}
use pinterest_mcp_docker.Persistence.Invariant.{Owns, IsValid}
use pinterest_mcp_docker.Persistence.Invariant.Accounts.{
  select-Owns, create_user-IsValid, create_user-Owns,
}
use pinterest_mcp_docker.Persistence.Invariant.Handoff.{save-IsValid, add_receipt-IsValid}
use pinterest_mcp_docker.Persistence.Ingress.Payload.{Python, Handoff}
use pinterest_mcp_docker.Persistence.Ingress.Credential.{
  Persisted, idempotent_duplicate, persisted, refresh_expiry, resolve_owner, receipt_of_handoff,
  persist_new, persist,
}

resolve_owner-IsValid :
    (uuid4 : ℕ → ℕ) (h : Handoff) (user : Option User) (s : Store)
    → IsValid s
    → IsValid (resolve_owner uuid4 h user s).1
unfolding resolve_owner
resolve_owner-IsValid uuid4 h (some u) s v = ground arith
resolve_owner-IsValid uuid4 h none s v =
    let made = create_user-IsValid uuid4 h.issuer h.subject h.provider_account_id "active" s v in
    ground arith

resolve_some :
    (uuid4 : ℕ → ℕ) (h : Handoff) (u owner : User) (s t : Store)
    → resolve_owner uuid4 h (some u) s ≡ (ok owner, t)
    → (owner ≡ u) × (t ≡ s) × (u.provider_account_id ≡ h.provider_account_id)
unfolding resolve_owner
resolve_some uuid4 h u owner s t ran = ground arith

resolve_none :
    (uuid4 : ℕ → ℕ) (h : Handoff) (owner : User) (s t : Store)
    → resolve_owner uuid4 h none s ≡ (ok owner, t)
    → create_user uuid4 h.issuer h.subject h.provider_account_id "active" s ≡ (ok owner, t)
unfolding resolve_owner
resolve_none uuid4 h owner s t ran = ground arith

resolve_owner-Owns :
    (uuid4 : ℕ → ℕ) (h : Handoff) (user : Option User) (s t : Store) (owner : User)
    → IsValid s
    → select (has_identity h.issuer h.subject) s.users ≡ user
    → resolve_owner uuid4 h user s ≡ (ok owner, t)
    → Owns t.users owner.id h.provider_account_id
resolve_owner-Owns uuid4 h (some u) s t owner v found ran =
    let (same, here, account) = resolve_some uuid4 h u owner s t ran in
    rw here (
      rw same
        (rw account at (select-Owns s.users (has_identity h.issuer h.subject) u v.users found)))
resolve_owner-Owns uuid4 h none s t owner v found ran =
    create_user-Owns uuid4 h.issuer h.subject h.provider_account_id "active" s t owner
      (resolve_none uuid4 h owner s t ran)

-- The end of a handoff: the receipt is there.
end_receipt :
    (r : OAuthCompletionReceipt) (p q : Persisted) (s s' : Store)
    → (add_receipt r >> pure q) s ≡ (ok p, s')
    → (p ≡ q) × (select (receipt_of r.transaction_id) s'.receipts ≡ some r)
end_receipt r p q s s' ran =
    let (_, t, added, last) = continue-eq-ok (add_receipt r s) (λ _. pure q) p s' ran in
    let (stored, fresh) = add_receipt-eq-ok r s t added in
    let here : t ≡ s' = ap (λ x. x.1) last in
    (cc last, rw (← here) (rw stored (rw select-append (rw fresh (rw ==_self refl)))))

resolve_owner-pendings :
    (uuid4 : ℕ → ℕ) (h : Handoff) (user : Option User) (s : Store)
    → (resolve_owner uuid4 h user s).1.pendings ≡ s.pendings
unfolding resolve_owner
resolve_owner-pendings uuid4 h (some u) s = ground arith
resolve_owner-pendings uuid4 h none s =
    let made =
      create_user-KeepsAllButUsers uuid4 h.issuer h.subject h.provider_account_id "active" s in
    ground (arith, made)

add_receipt-pendings :
    (r : OAuthCompletionReceipt) (s : Store) → (add_receipt r s).1.pendings ≡ s.pendings
unfolding add_receipt
add_receipt-pendings r s = ground arith

module _ (C : Cipher) (py : Python) (uuid4 : ℕ → ℕ) where
  -- A handoff in one stage leaves what is staged alone.
  persist_new-pendings :
      (now at : ℕ) (hash : String) (h : Handoff) (s : Store)
      → (persist_new C py uuid4 now at hash h s).1.pendings ≡ s.pendings
  unfolding persist_new
  persist_new-pendings now at hash h s =
      let Keeps : Store → Type 0 = λ u. u.pendings ≡ s.pendings in
      bind-Holds Keeps (lift (py.float h.expires_in)) _ s refl (λ lifetime s1 _ k1.
        bind-Holds Keeps (lift (refresh_expiry py now h.refresh_expires_in)) _ s1 k1
          (λ refresh s2 _ k2.
            bind-Holds Keeps
              (resolve_owner uuid4 h (select (has_identity h.issuer h.subject) s2.users)) _ s2
              (resolve_owner-pendings uuid4 h (select (has_identity h.issuer h.subject) s2.users) s2
                ∙ k2)
              (λ owner s3 _ k3.
                bind-Holds Keeps
                  (save_initial_connection C uuid4 owner.id h.provider_account_id _ h.account) _ s3
                  ((save-KeepsOthers C uuid4 owner.id h.provider_account_id _ h.account s3).pendings
                    ∙ k3)
                  (λ conn s4 _ k4.
                    bind-Holds Keeps (add_receipt (receipt_of_handoff h owner.id hash at)) _ s4
                      (add_receipt-pendings (receipt_of_handoff h owner.id hash at) s4 ∙ k4)
                      (λ u s5 _ k5. k5)))))

  pub persist-pendings :
      (now at : ℕ) (hash : String) (h : Handoff) (s : Store)
      → (persist C py uuid4 now at hash h s).1.pendings ≡ s.pendings
  unfolding persist
  persist-pendings now at hash h s =
      let new = persist_new-pendings now at hash h s in ground (arith, new)

  persist_new-IsValid :
      (now at : ℕ) (hash : String) (h : Handoff) (s : Store)
      → IsValid s
      → IsValid (persist_new C py uuid4 now at hash h s).1
  unfolding persist_new
  persist_new-IsValid now at hash h s v =
      bind-Holds IsValid (lift (py.float h.expires_in)) _ s v (λ lifetime s1 _ v1.
        bind-Holds IsValid (lift (refresh_expiry py now h.refresh_expires_in)) _ s1 v1
          (λ refresh s2 _ v2.
            bind-Holds IsValid
              (resolve_owner uuid4 h (select (has_identity h.issuer h.subject) s2.users)) _ s2
              (resolve_owner-IsValid uuid4 h (select (has_identity h.issuer h.subject) s2.users) s2
                v2)
              (λ owner s3 found v3.
                let owns =
                  resolve_owner-Owns uuid4 h (select (has_identity h.issuer h.subject) s2.users) s2
                    s3 owner v2 refl found in
                let t : Credentials = record {
                  access_token = h.access_token;
                  refresh_token = h.refresh_token;
                  access_token_expires_at = now + lifetime;
                  refresh_token_expires_at = refresh;
                } in
                bind-Holds IsValid
                  (save_initial_connection C uuid4 owner.id h.provider_account_id t h.account) _ s3
                  (save-IsValid C uuid4 owner.id h.provider_account_id t h.account s3 owns v3)
                  (λ conn s4 saved v4.
                    let k =
                      save-KeepsOthers C uuid4 owner.id h.provider_account_id t h.account s3 in
                    let owns' : Owns s4.users owner.id h.provider_account_id =
                      rw (rw saved at k.users) owns in
                    bind-Holds IsValid (add_receipt (receipt_of_handoff h owner.id hash at)) _ s4
                      (add_receipt-IsValid (receipt_of_handoff h owner.id hash at) s4 owns' v4)
                      (λ u s5 _ v5. v5)))))

  -- A handoff in one stage, however it ends, even before its rollback, keeps the database valid: it
  -- cannot give an account a second user, or an owner a connection to another account.
  pub persist-IsValid :
      (now at : ℕ) (hash : String) (h : Handoff) (s : Store)
      → IsValid s
      → IsValid (persist C py uuid4 now at hash h s).1
  unfolding persist
  persist-IsValid now at hash h s v =
      let new = persist_new-IsValid now at hash h s v in ground arith

  persist_from_receipt :
      (now at : ℕ) (hash : String) (h : Handoff) (r : OAuthCompletionReceipt) (s : Store)
      → select (receipt_of h.transaction_id) s.receipts ≡ some r
      → r.payload_hash ≡ hash
      → persist C py uuid4 now at hash h s
        ≡ (ok (idempotent_duplicate r.owner_id h.transaction_id), s)
  unfolding persist
  persist_from_receipt now at hash h r s found same = ground arith

  persist_other_hash :
      (now at : ℕ) (hash : String) (h : Handoff) (r : OAuthCompletionReceipt) (s : Store)
      → select (receipt_of h.transaction_id) s.receipts ≡ some r
      → r.payload_hash ≢ hash
      → persist C py uuid4 now at hash h s
        ≡ (err (ingress_security "Transaction ID already exists with mismatched payload"), s)
  unfolding persist
  persist_other_hash now at hash h r s found other = ground arith

  -- A first handoff leaves its receipt.
  persist_new-receipt :
      (now at : ℕ) (hash : String) (h : Handoff) (s s' : Store) (p : Persisted)
      → persist_new C py uuid4 now at hash h s ≡ (ok p, s')
      → (owner : ℕ) × (version : ℕ) × (p ≡ persisted owner version h.transaction_id)
        × (select (receipt_of h.transaction_id) s'.receipts
            ≡ some (receipt_of_handoff h owner hash at))
  unfolding persist_new
  persist_new-receipt now at hash h s s' p ran =
      let (lifetime, s1, _, ran1) = continue-eq-ok (lift (py.float h.expires_in) s) _ p s' ran in
      let (refresh, s2, _, ran2) =
        continue-eq-ok (lift (refresh_expiry py now h.refresh_expires_in) s1) _ p s' ran1 in
      let (owner, s3, _, ran3) =
        continue-eq-ok
          (resolve_owner uuid4 h (select (has_identity h.issuer h.subject) s2.users) s2) _ p s'
          ran2 in
      let t : Credentials = record {
        access_token = h.access_token;
        refresh_token = h.refresh_token;
        access_token_expires_at = now + lifetime;
        refresh_token_expires_at = refresh;
      } in
      let (conn, s4, _, ran4) =
        continue-eq-ok
          (save_initial_connection C uuid4 owner.id h.provider_account_id t h.account s3) _ p s'
          ran3 in
      let (same, there) =
        end_receipt (receipt_of_handoff h owner.id hash at) p
          (persisted owner.id conn.credential_version h.transaction_id) s4 s' ran4 in
      (owner.id, conn.credential_version, same, there)

  persist-new :
      (now at : ℕ) (hash : String) (h : Handoff) (s s' : Store) (owner version : ℕ) (t : String)
      → persist C py uuid4 now at hash h s ≡ (ok (persisted owner version t), s')
      → persist_new C py uuid4 now at hash h s ≡ (ok (persisted owner version t), s')
  unfolding persist
  persist-new now at hash h s s' owner version t ran = ground arith

  -- A handoff that persisted credentials, sent again with the same transaction, is answered from
  -- its receipt if the body is the same and refused if it is another one, whatever else it says;
  -- neither changes the database.
  pub persist_retry :
      (now at now' at' : ℕ) (hash hash' : String) (h h' : Handoff) (s s' : Store)
      (owner version : ℕ) (t : String)
      → persist C py uuid4 now at hash h s ≡ (ok (persisted owner version t), s')
      → h'.transaction_id ≡ h.transaction_id
      → (hash' ≡ hash
          → persist C py uuid4 now' at' hash' h' s' ≡ (ok (idempotent_duplicate owner t), s'))
        × (hash' ≢ hash
            → persist C py uuid4 now' at' hash' h' s' ≡ (
              err (ingress_security "Transaction ID already exists with mismatched payload"),
              s',
            ))
  persist_retry now at now' at' hash hash' h h' s s' owner version t ran again =
      let (o, n, p, found) =
        persist_new-receipt now at hash h s s' (persisted owner version t)
          (persist-new now at hash h s s' owner version t ran) in
      let mine : owner ≡ o = cc p in
      let name : t ≡ h.transaction_id = cc p in
      let r = receipt_of_handoff h o hash at in
      let there : select (receipt_of h'.transaction_id) s'.receipts ≡ some r = rw again found in
      (
        (λ same. rw mine (
            rw name (rw (← again) (persist_from_receipt now' at' hash' h' r s' there (sym same))))),
        (λ other. persist_other_hash now' at' hash' h' r s' there (λ e. other (sym e))),
      )
