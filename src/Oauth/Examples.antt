-- ===== src/Oauth/Examples.antt =====
-- A JWT library with one token, and what src/pinterest_mcp/oauth.py makes of it.
use mathlib.Core.Path.{subst}
use pinterest_mcp_docker.Common.{
  ℕ, ◌≡◌, ◌≢◌, refl, ap, String, Bool, true, false, not, ◌&&◌, Option, none, some, List, [], ◌∷◌,
  ◌==◌, all, contains, nat_eq, string_eq, if◌then◌else◌, arith,
}
use pinterest_mcp_docker.Common.Int.{ℤ, pos}
use pinterest_mcp_docker.Persistence.Json.{
  Json, null, int, text, arr, nil, cons, Fields, end, field, get, truthy,
}
use pinterest_mcp_docker.Persistence.Session.{is_some}
use pinterest_mcp_docker.Config.{Settings, oauth, effective_auth_mode}
use pinterest_mcp_docker.Config.Paths.{rstrip}
use pinterest_mcp_docker.Http.Routes.{is_plain, serve, first_match, streamable}
use pinterest_mcp_docker.Http.Routes.Reached.{IsApart}
use pinterest_mcp_docker.Http.Routes.Examples.{served, router, router-IsLawful, matches}
use pinterest_mcp_docker.Oauth.{
  Jwt, IsDocumented, names, Verifier, AccessToken, create_verifier, split, verify,
}
use pinterest_mcp_docker.Oauth.Accepted.{IsAccepted, serve-IsAccepted}

abbrev payload : Fields
payload = field "iss" (text "https://issuer") (
    field "aud" (arr (cons (text "https://other") (cons (text "https://api") nil))) (
      field "sub" (text "u1")
        (field "scope" (text " read  write ") (field "exp" (int (pos 99)) end))))

is_issuer : Json → String → Bool
is_issuer (text a) b = a == b
is_issuer _ b = false

is_present : Json → Bool
is_present null = false
is_present _ = true

is_addressed : Json → Option String → Bool
is_addressed v none = not (truthy v)
is_addressed v (some r) = names v r

unfoldable decode : String → ℕ → List String → String → Option String → List String → Option Fields
unfolding is_issuer is_present is_addressed get
decode token key algorithms issuer audience required =
    if token == "t1"
      && (is_issuer (get "iss" payload) issuer
          && (is_addressed (get "aud" payload) audience
              && all (λ name. is_present (get name payload)) required))
    then some payload
    else none

as_int : Json → Option (Option ℤ)
as_int (int n) = some (some n)
as_int null = some none
as_int _ = none

abbrev jwt : Jwt
jwt = record {
  Key = ℕ;
  get_signing_key = λ token. some 7;
  decode = decode;
  repr = λ v. "value";
  optional_int = as_int;
}

issuer-text : (v : Json) (b : String) → is_issuer v b ≡ true → v ≡ text b
unfolding is_issuer
issuer-text (text a) b h = ground arith
issuer-text v b h = absurd (cc h)

present-full : (v : Json) → is_present v ≡ true → v ≢ null
unfolding is_present
present-full null h = absurd (cc h)
present-full v h = λ e. absurd (cc (h, ap is_present e))

all-contains :
    (test : String → Bool) (names : List String) (name : String)
    → all test names ≡ true
    → contains names name ≡ true
    → test name ≡ true
all-contains test [] name h listed = absurd (cc listed)
all-contains test (a ∷ as_) name h listed = ground (arith, all-contains test as_ name)

some-injective : {a b : Fields} → some a ≡ some b → a ≡ b
some-injective h = cc h

-- What the claims that are returned have passed.
record Passed (issuer : String) (audience : Option String) (required : List String) (p : Fields)
    : Type 0 where
  same : payload ≡ p
  issued : is_issuer (get "iss" p) issuer ≡ true
  addressed : is_addressed (get "aud" p) audience ≡ true
  present : all (λ name. is_present (get name p)) required ≡ true

decode-Passed :
    (token : String) (key : ℕ) (algorithms : List String) (issuer : String)
    (audience : Option String) (required : List String) (p : Fields)
    → decode token key algorithms issuer audience required ≡ some p
    → Passed issuer audience required p
unfolding decode
decode-Passed token key algorithms issuer audience required p h =
    let issued : is_issuer (get "iss" payload) issuer ≡ true = ground arith in
    let addressed : is_addressed (get "aud" payload) audience ≡ true = ground arith in
    let present : all (λ name. is_present (get name payload)) required ≡ true = ground arith in
    let opened : some payload ≡ some p = ground arith in
    subst (Passed issuer audience required) (some-injective opened)
      (record { same = refl; issued = issued; addressed = addressed; present = present })

not-true : (b : Bool) → not b ≡ true → b ≡ false
not-true b h = ground arith

jwt-IsDocumented : IsDocumented jwt
unfolding is_addressed
jwt-IsDocumented = record {
  issued = λ token key algorithms issuer audience required p h.
      issuer-text (get "iss" p) issuer
        (decode-Passed token key algorithms issuer audience required p h).issued;
  addressed = λ token key algorithms issuer r required p h.
      (decode-Passed token key algorithms issuer (some r) required p h).addressed;
  unaddressed = λ token key algorithms issuer required p h.
      not-true (truthy (get "aud" p))
        (decode-Passed token key algorithms issuer none required p h).addressed;
  present = λ token key algorithms issuer audience required name p h listed.
      present-full (get name p) (
        all-contains (λ n. is_present (get n p)) required name
          (decode-Passed token key algorithms issuer audience required p h).present listed);
}

abbrev at_oauth : Settings
at_oauth = record served { auth_token = none; oauth_issuer = some "https://issuer" }

at_oauth-IsApart : IsApart at_oauth
unfolding is_plain rstrip string_eq nat_eq
at_oauth-IsApart = record {
  plain = refl;
  plain_sse = refl;
  plain_message = refl;
  path_apart = refl;
  sse_apart = refl;
  path_below_root = λ e. cc e;
  message_below_root = λ e. cc e;
}

abbrev verifier : Verifier
verifier = create_verifier "https://issuer" (some "https://api") none [] ("u1" ∷ [])

abbrev others : Verifier
others = create_verifier "https://issuer" (some "https://api") none [] ("u2" ∷ [])

accepted_token :
    verify jwt verifier "t1"
    ≡ some (record {
      token = "t1";
      client_id = "u1";
      scopes = "read" ∷ "write" ∷ [];
      expires_at = some (pos 99);
      resource = some "https://other";
      subject = some "u1";
      claims = payload;
    })
unfolding verify create_verifier decode as_int string_eq nat_eq get split
accepted_token = refl

other_subject : verify jwt others "t1" ≡ none
unfolding verify create_verifier decode as_int string_eq nat_eq get split
other_subject = refl

mode_at_oauth : effective_auth_mode at_oauth ≡ oauth
unfolding effective_auth_mode
mode_at_oauth = refl

served_post :
    serve router at_oauth (is_some (verify jwt verifier "t1")) "POST" "/mcp" none ≡ some streamable
unfolding serve first_match matches verify create_verifier decode as_int get split string_eq nat_eq
served_post = refl

serve-IsAccepted_example :
    (t : AccessToken) × (verify jwt verifier "t1" ≡ some t) × IsAccepted verifier "t1" t
serve-IsAccepted_example =
    serve-IsAccepted jwt verifier router at_oauth "t1" "POST" "/mcp" none streamable
      jwt-IsDocumented router-IsLawful at_oauth-IsApart mode_at_oauth served_post refl
