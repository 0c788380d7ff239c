-- ===== src/Persistence/Ingress/Accepted.antt =====
-- authenticate_ingress (src/pinterest_mcp/persistence/ingress.py): what an accepted request has
-- shown, and that it is not accepted again.
use pinterest_mcp_docker.Common.{
  ℕ, ◌+◌, ◌*◌, ◌≤◌, ◌<◌, ◌≡◌, ◌≢◌, ◌∙◌, refl, String, true, List, ◌∷◌, ◌++◌, codes, string_eq,
  arith, inl, inr,
}
use pinterest_mcp_docker.Common.Texts.{upper}
use pinterest_mcp_docker.Common.Int.{ℤ, pos, negsuc}
use pinterest_mcp_docker.Persistence.Models.{second}
use pinterest_mcp_docker.Persistence.Session.{ok, Result-cases}
use pinterest_mcp_docker.Persistence.Session.Results.{>>=-eq-ok}
use pinterest_mcp_docker.Persistence.Ingress.Nonces.{Nonces, consume_nonce, default_ttl}
use pinterest_mcp_docker.Persistence.Ingress.Nonces.Replay.{
  CallsBy, CallsBy-later, consume_all, consume_nonce-replay,
}
use pinterest_mcp_docker.Persistence.Ingress.Signature.{
  Hashing, Parsed, finite, Request, max_age, age, check_age, compute_body_digest,
  compute_hmac_signature, verify_hmac_signature, signed_headers, authenticate, authenticate_ingress,
}

age-window :
    (now now' : ℕ) (ts : ℤ)
    → age now ts ≤ max_age
    → age now' ts ≤ max_age
    → now' ≤ now + 2 * max_age
age-window now now' (pos n) p q = ground arith
age-window now now' (negsuc n) p q = omega arith

-- At most five minutes apart.
abbrev pub Near : ℕ → ℤ → Type 0
Near now (pos n) = (now ≤ n + 300000000) × (n ≤ now + 300000000)
Near now (negsuc n) = now + n < 300000000

age-Near : (now : ℕ) (ts : ℤ) → age now ts ≤ max_age → Near now ts
age-Near now (pos n) h = ground arith
age-Near now (negsuc n) h = omega arith

module _ (H : Hashing) (secret : String) (req : Request) where
  -- The timestamp is a number at most five minutes from the clock, and the signature is that of the
  -- exact method, path, timestamp, nonce and body.
  pub record Signed (now : ℕ) (nonce : String) : Type 0 where
    pub signature : String
    pub timestamp : String
    pub stamp : ℤ
    pub headers : signed_headers req.headers ≡ ok (signature, timestamp, nonce)
    pub parsed : H.float timestamp ≡ finite stamp
    pub fresh : age now stamp ≤ max_age
    pub near : Near now stamp
    pub genuine :
        signature
        ≡ H.hmac_sha256 secret (
            codes (upper req.method)
            ++ (10 ∷ codes req.path)
            ++ (10 ∷ codes timestamp)
            ++ (10 ∷ codes nonce)
            ++ (10 ∷ codes (H.sha256 req.body)))

  check_age-ok :
      (now : ℕ) (p : Parsed)
      → check_age now p ≡ ok tt
      → (ts : ℤ) × (p ≡ finite ts) × (age now ts ≤ max_age)
  check_age-ok now Parsed.not_a_number h = cc
  check_age-ok now Parsed.non_finite h = cc
  check_age-ok now (finite ts) h = (ts, refl, ground arith)

  verify-ok :
      (timestamp nonce signature : String) (now : ℕ)
      → verify_hmac_signature H secret req timestamp nonce signature now ≡ ok tt
      → (check_age now (H.float timestamp) ≡ ok tt)
        × (signature
            ≡ compute_hmac_signature H secret req.method req.path timestamp nonce
                (compute_body_digest H req.body))
  unfolding verify_hmac_signature
  verify-ok timestamp nonce signature now h = (ground arith, ground arith)

  -- The text that is signed, written out.
  signed_text :
      (timestamp nonce : String)
      → compute_hmac_signature H secret req.method req.path timestamp nonce
          (compute_body_digest H req.body)
        ≡ H.hmac_sha256 secret (
            codes (upper req.method)
            ++ (10 ∷ codes req.path)
            ++ (10 ∷ codes timestamp)
            ++ (10 ∷ codes nonce)
            ++ (10 ∷ codes (H.sha256 req.body)))
  unfolding compute_hmac_signature compute_body_digest
  signed_text timestamp nonce = refl

  pub authenticate-Signed :
      (now : ℕ) (nonce : String) → authenticate H secret req now ≡ ok nonce → Signed now nonce
  unfolding authenticate
  authenticate-Signed now nonce h =
      let ((signature, timestamp, n), read, rest) =
        >>=-eq-ok (signed_headers req.headers) _ nonce h in
      let (u, verified, last) =
        >>=-eq-ok (verify_hmac_signature H secret req timestamp n signature now) _ nonce rest in
      let same : n ≡ nonce = cc last in
      let (checked, genuine) = verify-ok timestamp n signature now verified in
      let (ts, parsed, fresh) = check_age-ok now (H.float timestamp) checked in
      record {
        signature = signature;
        timestamp = timestamp;
        stamp = ts;
        headers = rw (← same) read;
        parsed = parsed;
        fresh = fresh;
        near = age-Near now ts fresh;
        genuine = rw (← same) (genuine ∙ signed_text timestamp n);
      }

  -- Accepted by the service: signed, and the nonce was fresh.
  pub authenticate_ingress-ok :
      (now at : ℕ) (store : Nonces)
      → (authenticate_ingress H secret req now at store).0 ≡ ok tt
      → (nonce : String) × (authenticate H secret req now ≡ ok nonce)
        × ((consume_nonce at nonce default_ttl store).0 ≡ true)
        × ((authenticate_ingress H secret req now at store).1
            ≡ (consume_nonce at nonce default_ttl store).1)
  unfolding authenticate_ingress
  authenticate_ingress-ok now at store h = elim (Result-cases (authenticate H secret req now)) [
    | inr (e, bad) ↦ absurd (ground arith)
    | inl (nonce, signed) ↦ (nonce, signed, ground arith, ground arith)
  ]

  same_request :
      (now now' : ℕ) (nonce nonce' : String)
      → Signed now nonce
      → Signed now' nonce'
      → (nonce ≡ nonce') × (now' ≤ now + 2 * max_age)
  same_request now now' nonce nonce' a b =
      let time : a.timestamp ≡ b.timestamp = cc (a.headers, b.headers) in
      let stamp : a.stamp ≡ b.stamp = cc (a.parsed, b.parsed) in
      (cc (a.headers, b.headers), age-window now now' a.stamp a.fresh (rw stamp b.fresh))

  -- A request that was accepted is not accepted again, however late it is sent and whatever other
  -- requests used the nonce store before it, on a clock that does not go beyond its own: within its
  -- freshness window the nonce is still held, and afterwards the timestamp is too old. The clock may
  -- run up to a second between the freshness check and the nonce store.
  pub authenticate_ingress-replay :
      (now at now' at' : ℕ) (calls : List (ℕ × String)) (store : Nonces)
      → now ≤ at
      → at' ≤ now' + second
      → (authenticate_ingress H secret req now at store).0 ≡ ok tt
      → CallsBy at' calls
      → (authenticate_ingress H secret req now' at'
          (consume_all calls default_ttl (authenticate_ingress H secret req now at store).1)).0
        ≢ ok tt
  authenticate_ingress-replay now at now' at' calls store p q first c second_time =
      let (nonce, signed, fresh, stored) = authenticate_ingress-ok now at store first in
      let (nonce', signed', fresh', _) = authenticate_ingress-ok now' at' _ second_time in
      let (same, window) =
        same_request now now' nonce nonce' (authenticate-Signed now nonce signed)
          (authenticate-Signed now' nonce' signed') in
      let refused =
        consume_nonce-replay at at' default_ttl nonce calls store fresh
          (CallsBy-later at' (at + default_ttl) calls (omega arith) c) (omega arith) in
      cc (same, stored, refused, fresh')
