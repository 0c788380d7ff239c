-- ===== src/Oauth.antt =====
-- src/pinterest_mcp/oauth.py: the verification of an access token. The JWT library is a parameter,
-- and so are Python's text of a value that is no string and the SDK's reading of an integer.
pub mod Accepted
mod Examples
use Prim.Native.Char.{Char, code}
use Prim.Native.Nat.{◌+◌}
use pinterest_mcp_docker.Common.{
  ℕ, String, Bool, true, false, not, ◌&&◌, ◌||◌, Option, none, some, List, [], ◌∷◌, ◌==◌, ◌≡◌, ◌≢◌,
  contains, nat_eq, string_eq, if◌then◌else◌,
}
use pinterest_mcp_docker.Common.Int.{ℤ}
use pinterest_mcp_docker.Config.Paths.{rstrip}
use pinterest_mcp_docker.Persistence.Encryption.Base64.{add_text}
use pinterest_mcp_docker.Persistence.Json.{
  Json, null, text, arr, dict, Items, nil, cons, Fields, end, field, get, is_space, truthy,
}

-- `get_signing_key_from_jwt` and `jwt.decode`, each with none for an exception; the arguments of
-- `decode` are the token, the key, the algorithms, the issuer, the audience and the required claims.
pub record Jwt : Type 1 where
  pub Key : Type 0
  pub get_signing_key : String → Option Key
  pub decode : String → Key → List String → String → Option String → List String → Option Fields
  pub repr : Json → String
  pub optional_int : Json → Option (Option ℤ)

abbrev pub holds : Items → String → Bool
holds nil r = false
holds (cons (text a) rest) r = a == r || holds rest r
holds (cons _ rest) r = holds rest r

-- An audience claim that names a resource.
abbrev pub names : Json → String → Bool
names (text a) r = a == r
names (arr items) r = holds items r
names _ r = false

-- What the JWT library documents of the claims that it returns: they name the issuer that was
-- asked for, and the audience; with no audience asked for, the token may not have any; a required
-- claim is there.
pub record IsDocumented (J : Jwt) : Type 1 where
  pub issued :
      (token : String) (key : J.Key) (algorithms : List String) (issuer : String)
      (audience : Option String) (required : List String) (p : Fields)
      → J.decode token key algorithms issuer audience required ≡ some p
      → get "iss" p ≡ text issuer
  pub addressed :
      (token : String) (key : J.Key) (algorithms : List String) (issuer r : String)
      (required : List String) (p : Fields)
      → J.decode token key algorithms issuer (some r) required ≡ some p
      → names (get "aud" p) r ≡ true
  pub unaddressed :
      (token : String) (key : J.Key) (algorithms : List String) (issuer : String)
      (required : List String) (p : Fields)
      → J.decode token key algorithms issuer none required ≡ some p
      → truthy (get "aud" p) ≡ false
  pub present :
      (token : String) (key : J.Key) (algorithms : List String) (issuer : String)
      (audience : Option String) (required : List String) (name : String) (p : Fields)
      → J.decode token key algorithms issuer audience required ≡ some p
      → contains required name ≡ true
      → get name p ≢ null

abbrev pub default_algorithms : List String
default_algorithms = "RS256" ∷ "RS384" ∷ "RS512" ∷ "ES256" ∷ "ES384" ∷ "ES512" ∷ "EdDSA" ∷ []

pub record Verifier : Type 0 where
  pub issuer : String
  pub resource_url : Option String
  pub jwks_url : String
  pub algorithms : List String
  pub allowed_subjects : List String

-- `jwks_url or f"{issuer.rstrip('/')}/.well-known/jwks.json"`.
abbrev pub or_well_known : String → Option String → String
or_well_known issuer none = add_text (rstrip issuer) "/.well-known/jwks.json"
or_well_known issuer (some url) =
    if url == "" then add_text (rstrip issuer) "/.well-known/jwks.json" else url

abbrev pub or_default : List String → List String
or_default [] = default_algorithms
or_default (a ∷ as_) = a ∷ as_

-- `JWTTokenVerifier.__init__`; an absent list is an empty one.
unfoldable pub create_verifier :
    String → Option String → Option String → List String → List String → Verifier
unfolding rstrip
create_verifier issuer resource_url jwks_url algorithms allowed_subjects = record {
  issuer = issuer;
  resource_url = resource_url;
  jwks_url = or_well_known issuer jwks_url;
  algorithms = or_default algorithms;
  allowed_subjects = allowed_subjects;
}

pub record AccessToken : Type 0 where
  pub token : String
  pub client_id : String
  pub scopes : List String
  pub expires_at : Option ℤ
  pub resource : Option String
  pub subject : Option String
  pub claims : Fields

abbrev pub required_claims : Option String → List String
required_claims none = "exp" ∷ "iss" ∷ []
required_claims (some r) = if r == "" then "exp" ∷ "iss" ∷ [] else "exp" ∷ "iss" ∷ "aud" ∷ []

-- `subject not in self.allowed_subjects`, negated; a value that cannot be in a set raises, which
-- refuses the token too.
abbrev pub is_listed : List String → Json → Bool
is_listed allowed (text s) = contains allowed s
is_listed allowed _ = false

abbrev pub is_allowed : List String → Json → Bool
is_allowed [] subject = true
is_allowed (a ∷ as_) subject = is_listed (a ∷ as_) subject

-- `a or b`.
abbrev pub or_else : Json → Json → Json
or_else a b = if truthy a then a else b

-- `str.split()`: the runs of characters that are no white space, so that a further `strip` and the
-- test for an empty text change nothing.
abbrev pub grow : Char → List String → List String
grow c [] = String.◌∷◌ c "" ∷ []
grow c (w ∷ ws) = String.◌∷◌ c w ∷ ws

abbrev pub starts_word : String → Bool
starts_word String.[] = false
starts_word (String.◌∷◌ c s) = not (is_space (code c))

unfoldable pub split : String → List String
split String.[] = []
split (String.◌∷◌ c s) =
    let rest = split s in
    if is_space (code c)
    then rest
    else if starts_word s
    then grow c rest
    else String.◌∷◌ c "" ∷ rest

module _ (J : Jwt) where
  -- Python's `str`.
  abbrev pub str : Json → String
  str (text t) = t
  str v = J.repr v

  abbrev pub strs : Items → List String
  strs nil = []
  strs (cons v rest) = str v ∷ strs rest

  abbrev pub scopes_of : Json → List String
  scopes_of (text t) = split t
  scopes_of (arr items) = strs items
  scopes_of _ = []

  abbrev pub raw_scope : Fields → Json
  raw_scope p = or_else (get "scope" p) (or_else (get "scopes" p) (or_else (get "scp" p) (arr nil)))

  abbrev pub client_of : Fields → Json
  client_of p =
      or_else (get "client_id" p)
        (or_else (get "azp" p) (or_else (get "sub" p) (text "unknown-client")))

  -- The resource; the model of the token takes a text or `None`, and raises on anything else.
  abbrev pub first_resource : Json → Option (Option String)
  first_resource (text a) = some (some a)
  first_resource null = some none
  first_resource _ = none

  abbrev pub resource_of : Json → Option (Option String)
  resource_of (text a) = some (some a)
  resource_of (arr (cons a rest)) = first_resource a
  resource_of _ = some none

  abbrev pub subject_of : Json → Option String
  subject_of s = if truthy s then some (str s) else none

  abbrev pub access_token :
      String → Fields → Option (Option ℤ) → Option (Option String) → Option AccessToken
  access_token token p (some expires_at) (some resource) = some (record {
    token = token;
    client_id = str (client_of p);
    scopes = scopes_of (raw_scope p);
    expires_at = expires_at;
    resource = resource;
    subject = subject_of (get "sub" p);
    claims = p;
  })
  access_token token p _ _ = none

  -- What follows the decoding.
  unfoldable pub accept : Verifier → String → Fields → Option AccessToken
  unfolding split get
  accept V token p =
      if is_allowed V.allowed_subjects (get "sub" p)
      then access_token token p (J.optional_int (get "exp" p)) (resource_of (get "aud" p))
      else none

  abbrev pub decoded : Verifier → String → Option Fields → Option AccessToken
  decoded V token none = none
  decoded V token (some p) = accept V token p

  abbrev pub with_key : Verifier → String → Option J.Key → Option AccessToken
  with_key V token none = none
  with_key V token (some key) =
      decoded V token
        (J.decode token key V.algorithms V.issuer V.resource_url (required_claims V.resource_url))

  -- `_verify_sync`, which turns every exception into none; `verify_token` runs it in a thread.
  unfoldable pub verify : Verifier → String → Option AccessToken
  unfolding accept
  verify V token = with_key V token (J.get_signing_key token)
