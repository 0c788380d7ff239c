-- ===== src/Persistence/IngressApp/Outcomes.antt =====
-- The outcomes of the handoff endpoint (src/pinterest_mcp/persistence/ingress_app.py).
use pinterest_mcp_docker.Common.{
  ℕ, ◌≡◌, ◌≢◌, refl, String, some, not, ◌||◌, List, length, ltb, ◌==◌, map, string_eq, arith,
  Bool-cases, inl, inr, sym, Option, ap, ◌∙◌, ◌≤◌, ◌⊎◌,
}
use pinterest_mcp_docker.Common.Texts.{lower}
use pinterest_mcp_docker.Persistence.Models.{Store}
use pinterest_mcp_docker.Persistence.Session.{
  Result, ok, err, Error, Session, Run-cases, Result-cases, transact,
}
use pinterest_mcp_docker.Persistence.Json.{Json, text, dict, Fields, get}
use pinterest_mcp_docker.Persistence.Pending.{process_pending}
use pinterest_mcp_docker.Persistence.Pending.Rows.{Reply, expire_pending}
use pinterest_mcp_docker.Persistence.Pending.Staging.{ProvisionsNothing}
use pinterest_mcp_docker.Persistence.Ingress.Nonces.{Nonces}
use pinterest_mcp_docker.Persistence.Ingress.Signature.{authenticate_ingress}
use pinterest_mcp_docker.Persistence.Ingress.Accepted.{
  Signed, authenticate-Signed, authenticate_ingress-ok,
}
use pinterest_mcp_docker.Persistence.IngressApp.{
  Incoming, Response, accepted, Clocks, Service, World, check_issuer, payload_of, parse_payload,
  signed_request, respond, cleanup, process, handoff, answer, continue_authenticated,
  invalid_handoff, too_large, repeats,
}

ProvisionsNothing-refl : (s : Store) → ProvisionsNothing s s
ProvisionsNothing-refl s = record {
  users = refl;
  connections = refl;
  receipts = refl;
  operations = refl;
}

cleanup-keeps : (v : Service) (now : ℕ) (s : Store) → ProvisionsNothing s (cleanup v now s)
unfolding cleanup transact expire_pending
cleanup-keeps v now s = record {
  users = refl;
  connections = refl;
  receipts = refl;
  operations = refl;
}

respond-refuses : (e : Error) (r : Reply) → respond e ≢ accepted r
respond-refuses e r h = ground arith

-- A transaction answers with what its session returned, or it kept nothing but the draws.
transact-answer :
    (m : Session Reply) (s : Store) (n : Nonces) (r : Reply)
    → (answer (transact m s) n).0 ≡ accepted r
    → m s ≡ (ok r, (answer (transact m s) n).1.store)
unfolding transact
transact-answer m s n r h = elim (Run-cases (m s)) [
  | inl (a, t, ran) ↦
      let same : accepted a ≡ accepted r = rw ran at h in
      let this : a ≡ r = cc same in rw ran (ap (λ (x : Reply). (ok x, t)) this)
  | inr (e, t, failed) ↦ absurd (respond-refuses e r (rw failed at h))
]

transact-refused :
    (m : Session Reply) (s : Store) (n : Nonces)
    → ((r : Reply) → (answer (transact m s) n).0 ≢ accepted r)
    → ProvisionsNothing s (answer (transact m s) n).1.store
unfolding transact
transact-refused m s n h = elim (Run-cases (m s)) [
  | inl (a, t, ran) ↦ absurd (h a (rw ran refl))
  | inr (e, t, failed) ↦
      rw failed (record { users = refl; connections = refl; receipts = refl; operations = refl })
]

check_issuer-ok :
    (v : Service) (payload p : Fields) (issuer : Json)
    → check_issuer v payload issuer ≡ ok p
    → (payload ≡ p) × (issuer ≡ text v.issuer)
check_issuer-ok v payload p (text t) h = ground arith
check_issuer-ok v payload p issuer h = absurd (cc h)

payload_of-ok :
    (v : Service) (json : Option Json) (p : Fields)
    → payload_of v json ≡ ok p
    → (json ≡ some (dict p)) × (get "issuer" p ≡ text v.issuer)
payload_of-ok v (some (dict payload)) p h =
    let (same, issuer) = check_issuer-ok v payload p (get "issuer" payload) h in
    (ap (λ q. some (dict q)) same, ap (get "issuer") (sym same) ∙ issuer)
payload_of-ok v json p h = absurd (cc h)

parse_payload-ok :
    (v : Service) (body : List ℕ) (p : Fields)
    → parse_payload v body ≡ ok p
    → (v.json_loads body ≡ some (dict p)) × (get "issuer" p ≡ text v.issuer)
unfolding parse_payload
parse_payload-ok v body p h = payload_of-ok v (v.json_loads body) p h

module _ (v : Service) where
  process-accepted :
      (clocks : Clocks) (body : List ℕ) (w : World) (r : Reply)
      → (process v clocks body w).0 ≡ accepted r
      → (payload : Fields) × (parse_payload v body ≡ ok payload)
        × (process_pending v.library v.cipher v.uuid4 clocks.request payload
              (cleanup v clocks.cleanup w.store)
            ≡ (ok r, (process v clocks body w).1.store))
  unfolding process
  process-accepted clocks body w r h = elim (Result-cases (parse_payload v body)) [
    | inr (e, bad) ↦ absurd (respond-refuses e r (rw (process, bad) at h))
    | inl (payload, parsed) ↦ (
      payload,
      parsed,
      rw (process, parsed)
          (transact-answer (process_pending v.library v.cipher v.uuid4 clocks.request payload)
            (cleanup v clocks.cleanup w.store) w.nonces r (rw (process, parsed) at h)),
    )
  ]

  process-refused :
      (clocks : Clocks) (body : List ℕ) (w : World)
      → ((r : Reply) → (process v clocks body w).0 ≢ accepted r)
      → ProvisionsNothing w.store (process v clocks body w).1.store
  unfolding process
  process-refused clocks body w h = elim (Result-cases (parse_payload v body)) [
    | inr (e, bad) ↦ rw (process, bad) (ProvisionsNothing-refl w.store)
    | inl (payload, parsed) ↦
        let k = cleanup-keeps v clocks.cleanup w.store in
        let m =
          transact-refused (process_pending v.library v.cipher v.uuid4 clocks.request payload)
            (cleanup v clocks.cleanup w.store) w.nonces (λ r a. h r (rw (process, parsed) a)) in
        rw (process, parsed)
          (record {
            users = m.users ∙ k.users;
            connections = m.connections ∙ k.connections;
            receipts = m.receipts ∙ k.receipts;
            operations = m.operations ∙ k.operations;
          })
  ]

  -- What the request is authenticated with.
  abbrev credentials : Clocks → Incoming → World → Result (Unit {0}) × Nonces
  credentials clocks req w =
      authenticate_ingress v.hashing v.shared_secret (signed_request req) clocks.freshness
        clocks.nonce w.nonces

  handoff-cases :
      (clocks : Clocks) (req : Incoming) (w : World)
      → ((resp : Response) × ((r : Reply) → resp ≢ accepted r)
          × (handoff v clocks req w ≡ (resp, w)))
        ⊎ ((req.scheme ≡ "https")
            × (req.query ≡ "")
            × (length req.body ≤ 65536)
            × (handoff v clocks req w
                ≡ continue_authenticated v clocks req.body w.store (credentials clocks req w)))
  unfolding handoff
  handoff-cases clocks req w =
      elim (Bool-cases (not (req.scheme == "https") || not (req.query == ""))) [
        | inl plain ↦ inl (invalid_handoff, (λ r h. cc h), rw plain refl)
        | inr secure ↦ elim (Bool-cases (repeats (map (λ (k, _). lower k) req.headers))) [
          | inl twice ↦ inl (invalid_handoff, (λ r h. cc h), rw secure (rw twice refl))
          | inr once ↦ elim (Bool-cases (ltb 65536 (length req.body))) [
            | inl large ↦ inl (too_large, (λ r h. cc h), rw secure (rw once (rw large refl)))
            | inr small ↦
                inr (ground arith, ground arith, ground arith, rw secure (rw once (rw small refl)))
          ]
        ]
      ]

  continue-refused :
      (clocks : Clocks) (body : List ℕ) (s : Store) (a : Result (Unit {0}) × Nonces)
      → ((r : Reply) → (continue_authenticated v clocks body s a).0 ≢ accepted r)
      → ProvisionsNothing s (continue_authenticated v clocks body s a).1.store
  continue-refused clocks body s (err e, n) h = ProvisionsNothing-refl s
  continue-refused clocks body s (ok _, n) h =
      process-refused clocks body (record { store = s; nonces = n }) h

  continue-accepted :
      (clocks : Clocks) (body : List ℕ) (s : Store) (a : Result (Unit {0}) × Nonces) (r : Reply)
      → (continue_authenticated v clocks body s a).0 ≡ accepted r
      → (a.0 ≡ ok tt)
        × (payload : Fields) × (parse_payload v body ≡ ok payload)
        × (process_pending v.library v.cipher v.uuid4 clocks.request payload
              (cleanup v clocks.cleanup s)
            ≡ (ok r, (continue_authenticated v clocks body s a).1.store))
  continue-accepted clocks body s (err e, n) r h = absurd (respond-refuses e r h)
  continue-accepted clocks body s (ok _, n) r h =
      let (payload, parsed, done) =
        process-accepted clocks body (record { store = s; nonces = n }) r h in
      (refl, payload, parsed, done)

  -- A request that is not answered with success creates no user and changes no connection and no
  -- receipt, whatever made it fail.
  pub handoff-refused :
      (clocks : Clocks) (req : Incoming) (w : World)
      → ((r : Reply) → (handoff v clocks req w).0 ≢ accepted r)
      → ProvisionsNothing w.store (handoff v clocks req w).1.store
  handoff-refused clocks req w h = elim (handoff-cases clocks req w) [
    | inl (resp, other, ran) ↦ rw ran (ProvisionsNothing-refl w.store)
    | inr (_, _, _, ran) ↦ rw ran (
        continue-refused clocks req.body w.store (credentials clocks req w) (λ r a. h r (rw ran a)))
  ]

  -- A request that is answered with success came over TLS without a query, was signed for the
  -- exact body, the path of the endpoint and a time within five minutes of the freshness check, and
  -- its payload, the dict that the body parses to with the configured issuer, was processed on the
  -- database that the cleanup left.
  pub handoff-accepted :
      (clocks : Clocks) (req : Incoming) (w : World) (r : Reply)
      → (handoff v clocks req w).0 ≡ accepted r
      → (req.scheme ≡ "https")
        × (req.query ≡ "")
        × (length req.body ≤ 65536)
        × ((nonce : String) × Signed v.hashing v.shared_secret
              (record {
                method = req.method;
                path = "/internal/credential-ingress";
                headers = req.headers;
                body = req.body;
              })
              clocks.freshness
              nonce)
        × (payload : Fields) × (v.json_loads req.body ≡ some (dict payload))
        × (get "issuer" payload ≡ text v.issuer)
        × (process_pending v.library v.cipher v.uuid4 clocks.request payload
              (cleanup v clocks.cleanup w.store)
            ≡ (ok r, (handoff v clocks req w).1.store))
  handoff-accepted clocks req w r h = elim (handoff-cases clocks req w) [
    | inl (resp, other, ran) ↦ absurd (other r (rw ran at h))
    | inr (tls, bare, small, ran) ↦
        let (passed, payload, parsed, done) =
          continue-accepted clocks req.body w.store (credentials clocks req w) r (rw ran at h) in
        let (nonce, signed, _, _) =
          authenticate_ingress-ok v.hashing v.shared_secret (signed_request req) clocks.freshness
            clocks.nonce w.nonces passed in
        (
          tls,
          bare,
          small,
          (
            nonce,
            authenticate-Signed v.hashing v.shared_secret (signed_request req) clocks.freshness
                nonce signed,
          ),
          payload,
          (parse_payload-ok v req.body payload parsed).0,
          (parse_payload-ok v req.body payload parsed).1,
          rw ran done,
        )
  ]
