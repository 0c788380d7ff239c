-- ===== src/Oauth/Accepted.antt =====
-- What an accepted access token of src/pinterest_mcp/oauth.py carries, and what reaches the protocol
-- in OAuth mode (src/pinterest_mcp/http_app.py).
use pinterest_mcp_docker.Common.{
  ◌≡◌, ◌≢◌, ◌⊎◌, inl, inr, refl, sym, ap, ◌∙◌, String, true, false, Option, none, some, List, [],
  ◌∷◌, contains, nat_eq, string_eq, arith, Bool-cases, Option-cases,
}
use pinterest_mcp_docker.Persistence.Session.{is_some}
use pinterest_mcp_docker.Common.Int.{ℤ}
use pinterest_mcp_docker.Persistence.Json.{
  Json, null, non_finite, bool, int, float, text, arr, dict, nil, cons, Fields, get, truthy,
}
use pinterest_mcp_docker.Config.{Settings, oauth, effective_auth_mode}
use pinterest_mcp_docker.Http.Routes.{Router, IsLawful, Endpoint, serve, is_surface}
use pinterest_mcp_docker.Http.Routes.Reached.{IsApart, serve-IsAuthenticated}
use pinterest_mcp_docker.Oauth.{
  Jwt, IsDocumented, names, Verifier, AccessToken, required_claims, is_allowed, resource_of,
  subject_of, access_token, accept, decoded, verify,
}

-- What a verifier vouches for in the token that it returns.
pub record IsAccepted (V : Verifier) (token : String) (t : AccessToken) : Type 0 where
  pub same : t.token ≡ token
  pub issued : get "iss" t.claims ≡ text V.issuer
  pub listed :
      V.allowed_subjects ≢ []
      → (s : String) × (get "sub" t.claims ≡ text s)
        × (contains V.allowed_subjects s ≡ true)
        × (s ≢ "" → t.subject ≡ some s)
  pub addressed : (r : String) → V.resource_url ≡ some r → names (get "aud" t.claims) r ≡ true
  pub unaddressed : V.resource_url ≡ none → (t.resource ≡ none) ⊎ (t.resource ≡ some "")
  pub expiring : get "exp" t.claims ≢ null

allowed-listed :
    (allowed : List String) (subject : Json)
    → is_allowed allowed subject ≡ true
    → allowed ≢ []
    → (s : String) × (subject ≡ text s) × (contains allowed s ≡ true)
allowed-listed [] subject h full = absurd (full refl)
allowed-listed (a ∷ as_) (text s) h full = (s, refl, h)
allowed-listed (a ∷ as_) null h full = absurd (cc h)
allowed-listed (a ∷ as_) non_finite h full = absurd (cc h)
allowed-listed (a ∷ as_) (bool b) h full = absurd (cc h)
allowed-listed (a ∷ as_) (int n) h full = absurd (cc h)
allowed-listed (a ∷ as_) (float x) h full = absurd (cc h)
allowed-listed (a ∷ as_) (arr items) h full = absurd (cc h)
allowed-listed (a ∷ as_) (dict p) h full = absurd (cc h)

some-injective : {A : Type 0} {a b : A} → some a ≡ some b → a ≡ b
some-injective h = cc h

oauth-unset : (s : Settings) → effective_auth_mode s ≡ oauth → s.auth_token ≡ none
unfolding effective_auth_mode
oauth-unset s mode = elim (Option-cases s.auth_token) [
  | inl unset ↦ unset
  | inr (token, set) ↦ absurd (ground arith)
]

module _ (J : Jwt) where
  -- A claim with no truth gives no resource.
  untruthy_resource :
      (v : Json) (r : Option String)
      → truthy v ≡ false
      → resource_of J v ≡ some r
      → (r ≡ none) ⊎ (r ≡ some "")
  untruthy_resource null r h e = inl (cc e)
  untruthy_resource non_finite r h e = absurd (cc h)
  untruthy_resource (bool b) r h e = inl (cc e)
  untruthy_resource (int n) r h e = inl (cc e)
  untruthy_resource (float x) r h e = inl (cc e)
  untruthy_resource (text t) r h e = ground arith
  untruthy_resource (arr nil) r h e = inl (cc e)
  untruthy_resource (arr (cons v rest)) r h e = absurd (cc h)
  untruthy_resource (dict p) r h e = inl (cc e)

  text-subject : (s : String) → s ≢ "" → subject_of J (text s) ≡ some s
  text-subject s full = ground arith

  -- What a token that is built has of its claims.
  access_token-fields :
      (token : String) (p : Fields) (e : Option (Option ℤ)) (o : Option (Option String))
      (t : AccessToken)
      → access_token J token p e o ≡ some t
      → (t.token ≡ token)
        × (t.claims ≡ p)
        × (t.subject ≡ subject_of J (get "sub" p))
        × (o ≡ some t.resource)
  access_token-fields token p none o t h = absurd (cc h)
  access_token-fields token p (some e) none t h = absurd (cc h)
  access_token-fields token p (some e) (some r) t h =
      let same : t ≡ _ = sym (some-injective h) in
      (
        ap (λ u. u.token) same,
        ap (λ u. u.claims) same,
        ap (λ u. u.subject) same,
        ap (λ u. some u.resource) (sym same),
      )

  -- A token that is returned was decoded under a key, has an allowed subject, and has its claims.
  verify-inversion :
      (V : Verifier) (token : String) (t : AccessToken)
      → verify J V token ≡ some t
      → (key : J.Key) × (J.decode token key V.algorithms V.issuer V.resource_url
            (required_claims V.resource_url)
          ≡ some t.claims)
        × (is_allowed V.allowed_subjects (get "sub" t.claims) ≡ true)
        × (t.token ≡ token)
        × (t.subject ≡ subject_of J (get "sub" t.claims))
        × (resource_of J (get "aud" t.claims) ≡ some t.resource)
  unfolding verify accept
  verify-inversion V token t h = elim (Option-cases (J.get_signing_key token)) [
    | inl unknown ↦ absurd (cc (unknown, h))
    | inr (key, found) ↦
        let read =
          J.decode token key V.algorithms V.issuer V.resource_url
            (required_claims V.resource_url) in
        let inside : decoded J V token read ≡ some t = cc (found, h) in
        elim (Option-cases read) [
          | inl refused ↦ absurd (cc (refused, inside))
          | inr (p, got) ↦ elim (Bool-cases (is_allowed V.allowed_subjects (get "sub" p))) [
            | inr other ↦ absurd (cc (got, other, inside))
            | inl allowed ↦
                let resource = resource_of J (get "aud" p) in
                let built : access_token J token p (J.optional_int (get "exp" p)) resource
                    ≡ some t =
                  cc (got, allowed, inside) in
                let (same, claims, subject, o) =
                  access_token-fields token p (J.optional_int (get "exp" p)) resource t built in
                let back = sym claims in
                (
                  key,
                  got ∙ ap some back,
                  ap (λ c. is_allowed V.allowed_subjects (get "sub" c)) claims ∙ allowed,
                  same,
                  subject ∙ ap (λ c. subject_of J (get "sub" c)) back,
                  ap (λ c. resource_of J (get "aud" c)) claims ∙ o,
                )
          ]
        ]
  ]

  required-exp : (audience : Option String) → contains (required_claims audience) "exp" ≡ true
  unfolding string_eq
  required-exp none = refl
  required-exp (some r) = ground arith

  verify-IsAccepted :
      (V : Verifier) (token : String) (t : AccessToken)
      → IsDocumented J
      → verify J V token ≡ some t
      → IsAccepted V token t
  verify-IsAccepted V token t documented h =
      let (key, read, allowed, same, subject, resource) = verify-inversion V token t h in
      record {
        same = same;
        issued = documented.issued _ _ _ _ _ _ t.claims read;
        listed = λ full.
            (let (s, named, inside) =
                allowed-listed V.allowed_subjects (get "sub" t.claims) allowed full in
              (s, named, inside, λ set. subject ∙ ap (subject_of J) named ∙ text-subject s set));
        addressed = λ r given.
            documented.addressed token key V.algorithms V.issuer r (required_claims V.resource_url)
              t.claims
              (ap (λ a. J.decode token key V.algorithms V.issuer a (required_claims V.resource_url))
                  (sym given)
                ∙ read);
        unaddressed = λ unset.
            untruthy_resource (get "aud" t.claims) t.resource
              (documented.unaddressed token key V.algorithms V.issuer
                (required_claims V.resource_url) t.claims
                (ap
                    (λ a.
                      J.decode token key V.algorithms V.issuer a (required_claims V.resource_url))
                    (sym unset)
                  ∙ read))
              resource;
        expiring = documented.present _ _ _ _ _ _ "exp" t.claims read (required-exp V.resource_url);
      }

  some-is : {A : Type 0} (o : Option A) → is_some o ≡ true → (a : A) × (o ≡ some a)
  some-is none h = absurd (cc h)
  some-is (some a) h = (a, refl)

  -- In OAuth mode, a request that reaches an endpoint of the protocol has a token that the verifier
  -- accepted: its claims name the issuer and hold an expiry; where subjects are listed, its subject
  -- is one of them; where the resource is set, its audience names it, and where it is not, the
  -- token is for no other resource. The settings' paths are those of a request that has to be
  -- authenticated, and the JWT library and the router are as documented.
  pub serve-IsAccepted :
      (V : Verifier) (R : Router) (s : Settings) (token method path : String)
      (header : Option String) (e : Endpoint)
      → IsDocumented J
      → IsLawful R
      → IsApart s
      → effective_auth_mode s ≡ oauth
      → serve R s (is_some (verify J V token)) method path header ≡ some e
      → is_surface e ≡ true
      → (t : AccessToken) × (verify J V token ≡ some t) × IsAccepted V token t
  serve-IsAccepted V R s token method path header e documented lawful apart mode served surface =
      let verified : is_some (verify J V token) ≡ true =
        elim (serve-IsAuthenticated R s (is_some (verify J V token)) method path header e lawful
          apart (λ h. absurd (cc (oauth-unset s mode, h))) served surface) [
            | inl open_mode ↦ absurd (cc (mode, open_mode))
            | inr (inl (shared, set, sent)) ↦ absurd (cc (oauth-unset s mode, set))
            | inr (inr (on, yes_)) ↦ yes_
          ] in
      let (t, found) = some-is (verify J V token) verified in
      (t, found, verify-IsAccepted V token t documented found)
