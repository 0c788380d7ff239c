-- ===== src/Persistence/Ingress/Signature.antt =====
-- src/pinterest_mcp/persistence/ingress.py: the request signature, its freshness and its headers.
-- SHA-256, HMAC-SHA256 and the float parser are parameters. A clock reading is a number of
-- microseconds; the nonce store reads the clock a second time.
use pinterest_mcp_docker.Common.{
  ℕ, ◌+◌, ◌-◌, String, Bool, false, not, ◌&&◌, ◌||◌, Option, none, some, List, [], ◌∷◌, ◌++◌, ◌==◌,
  contains, all, codes, string_eq, if◌then◌else◌, ltb, leb, map,
}
use pinterest_mcp_docker.Common.Int.{ℤ, pos, negsuc}
use pinterest_mcp_docker.Common.Texts.{lower, upper}
use pinterest_mcp_docker.Persistence.Session.{ingress_security, type_error, Result, ok, err}
use pinterest_mcp_docker.Persistence.Session.Results.{◌>>=◌, ◌>>◌, reject_if}
use pinterest_mcp_docker.Persistence.Ingress.Nonces.{Nonces, consume_nonce, default_ttl}

-- What `float(text)` gives, in microseconds.
pub data Parsed : Type 0 where
  not_a_number non_finite : Parsed
  finite : ℤ → Parsed

pub record Hashing : Type 0 where
  pub sha256 : List ℕ → String
  pub hmac_sha256 : String → List ℕ → String
  pub float : String → Parsed

unfoldable pub compute_body_digest : Hashing → List ℕ → String
compute_body_digest H body = H.sha256 body

-- Method, path, timestamp, nonce and body digest, a line each.
unfoldable pub canonical_string : String → String → String → String → String → List ℕ
canonical_string method path timestamp nonce body_digest =
    codes (upper method)
    ++ (10 ∷ codes path)
    ++ (10 ∷ codes timestamp)
    ++ (10 ∷ codes nonce)
    ++ (10 ∷ codes body_digest)

unfoldable pub compute_hmac_signature :
    Hashing → String → String → String → String → String → String → String
unfolding canonical_string
compute_hmac_signature H secret method path timestamp nonce body_digest =
    H.hmac_sha256 secret (canonical_string method path timestamp nonce body_digest)

-- `abs(now - ts)`.
abbrev pub age : ℕ → ℤ → ℕ
age now (pos n) = if leb n now then now - n else n - now
age now (negsuc n) = now + (n + 1)

-- `hmac.compare_digest` of two texts, which must be ASCII.
abbrev pub is_ascii : String → Bool
is_ascii t = all (λ c. ltb c 128) (codes t)

unfoldable pub compare_digest : String → String → Result Bool
compare_digest a b = if is_ascii a && is_ascii b then ok (a == b) else err type_error

abbrev pub max_age : ℕ
max_age = 300000000

abbrev pub check_age : ℕ → Parsed → Result (Unit {0})
check_age now not_a_number = err (ingress_security "Invalid timestamp header")
check_age now non_finite =
    err (ingress_security "Request timestamp expired or outside allowable window")
check_age now (finite ts) =
    reject_if (ltb max_age (age now ts))
      (ingress_security "Request timestamp expired or outside allowable window")

pub record Request : Type 0 where
  pub method : String
  pub path : String
  pub headers : List (String × String)
  pub body : List ℕ

unfoldable pub verify_hmac_signature :
    Hashing → String → Request → String → String → String → ℕ → Result (Unit {0})
unfolding compare_digest
verify_hmac_signature H secret req timestamp nonce signature now = do
  check_age now (H.float timestamp)
  same ←
      compare_digest
        (compute_hmac_signature H secret req.method req.path timestamp nonce
          (compute_body_digest H req.body))
        signature
  reject_if (not same) (ingress_security "Invalid request signature")

-- `{name.lower(): value …}`: of two equal names the later value stays.
unfoldable pub normalize : List (String × String) → List (String × String)
normalize [] = []
normalize ((name, value) ∷ rest) =
    let more = normalize rest in
    if contains (map (λ (k, _). k) more) (lower name) then more else (lower name, value) ∷ more

abbrev has_duplicates : List (String × String) → Bool
has_duplicates [] = false
has_duplicates ((name, _) ∷ rest) =
    contains (map (λ (k, _). lower k) rest) (lower name) || has_duplicates rest

-- `headers.get(name)`.
unfoldable pub header : String → List (String × String) → Option String
header name [] = none
header name ((k, v) ∷ rest) = if k == name then some v else header name rest

abbrev pub is_present : String → List (String × String) → Bool
is_present name headers = contains (map (λ (k, _). k) headers) name

-- The headers of a public proxy, as written, in title case and in upper case.
abbrev pub public_routing_headers : List String
public_routing_headers =
    "x-forwarded-host" ∷ "X-Forwarded-Host" ∷ "X-FORWARDED-HOST" ∷ "x-forwarded-for"
    ∷ "X-Forwarded-For" ∷ "X-FORWARDED-FOR" ∷ "x-forwarded-proto" ∷ "X-Forwarded-Proto"
    ∷ "X-FORWARDED-PROTO" ∷ "forwarded" ∷ "Forwarded" ∷ "FORWARDED" ∷ "via" ∷ "Via" ∷ "VIA" ∷ []

is_routed : List String → List (String × String) → Bool
is_routed [] headers = false
is_routed (name ∷ names) headers = is_present name headers || is_routed names headers

-- `headers.get(a) or headers.get(b)`, and the refusal of an empty value.
abbrev pub non_empty : Option String → Option String
non_empty none = none
non_empty (some t) = if t == "" then none else some t

abbrev pub or_else : Option String → Option String → Option String
or_else none o = o
or_else (some t) o = some t

abbrev pub mandatory : Option String → Option String → Result String
mandatory a b = elim (non_empty (or_else (non_empty a) b)) [
  | none ↦
      err (ingress_security "Missing mandatory authentication headers (Signature/Timestamp/Nonce)")
  | some t ↦ ok t
]

-- The signature, the timestamp and the nonce of the headers.
unfoldable pub signed_headers : List (String × String) → Result (String × String × String)
unfolding normalize header is_routed
signed_headers raw = do
  reject_if (has_duplicates raw) (ingress_security "Duplicate request headers")
  let headers = normalize raw
  reject_if (is_routed public_routing_headers headers)
      (ingress_security "Public routing rejected: private credential ingress header detected")
  signature ← mandatory (header "x-signature" headers) (header "X-Signature" headers)
  timestamp ← mandatory (header "x-timestamp" headers) (header "X-Timestamp" headers)
  nonce ← mandatory (header "x-nonce" headers) (header "X-Nonce" headers)
  ok (signature, timestamp, nonce)

-- The checks before the nonce is consumed; the nonce.
unfoldable pub authenticate : Hashing → String → Request → ℕ → Result String
unfolding signed_headers verify_hmac_signature
authenticate H secret req now = do
  (signature, timestamp, nonce) ← signed_headers req.headers
  verify_hmac_signature H secret req timestamp nonce signature now
  ok nonce

abbrev pub consumed : Bool × Nonces → Result (Unit {0}) × Nonces
consumed (fresh, store) =
    (reject_if (not fresh) (ingress_security "Request nonce has already been consumed"), store)

-- `now` is the clock at the freshness check, `at` the clock at the nonce store.
unfoldable pub authenticate_ingress :
    Hashing → String → Request → ℕ → ℕ → Nonces → Result (Unit {0}) × Nonces
authenticate_ingress H secret req now at store = elim (authenticate H secret req now) [
  | ok nonce ↦ consumed (consume_nonce at nonce default_ttl store)
  | err e ↦ (err e, store)
]
