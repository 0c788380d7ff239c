-- ===== src/Security/Fetched.antt =====
-- What a download by src/pinterest_mcp/security.py has checked.
use pinterest_mcp_docker.Common.{
  ℕ, suc, zero, ◌≤◌, ◌≡◌, ◌≢◌, refl, String, true, ◌||◌, Option, none, some, List, [], ◌∷◌, ◌==◌,
  string_eq, nat_eq, length, take, All, ltb, if◌then◌else◌, arith, Option-cases, Bool-cases, inl,
  inr, ◌⊎◌,
}
use pinterest_mcp_docker.Common.Texts.{lower}
use pinterest_mcp_docker.Security.{
  Network, Address, is_public_ip, check_addresses, port_of, validate_public_url, sniff_image_format,
  too_long, accept_body, Run, Answer, answered, visited, fetch_hops, fetch_public_image_url,
  refused, after_request, redirect, failed, body,
}

-- Every address of a host is public.
abbrev pub AllPublic : Network → List String → Type 0
AllPublic N = All (λ ip. (a : Address) × (N.ip_address ip ≡ some a) × (is_public_ip a ≡ true))

check_addresses-AllPublic :
    (N : Network) (resolved : String) (ips : List String) (first : String)
    → check_addresses N resolved ips ≡ some first
    → AllPublic N ips
unfolding check_addresses
check_addresses-AllPublic N resolved [] first h = tt
check_addresses-AllPublic N resolved (ip ∷ ips) first h = elim (Option-cases (N.ip_address ip)) [
  | inl bad ↦ ground arith
  | inr (a, parsed) ↦ elim (Bool-cases (is_public_ip a)) [
    | inl public ↦ (
      (a, parsed, public),
      check_addresses-AllPublic N (if resolved == "" then ip else resolved) ips first
          (ground arith),
    )
    | inr closed ↦ ground arith
  ]
]

-- A URL that may be requested: its scheme is HTTP or HTTPS, and its host resolves, to public
-- addresses only.
pub record IsPublic (N : Network) (hop : ℕ) (url : String) : Type 0 where
  pub scheme : (lower (N.urlparse url).scheme ≡ "http") ⊎ (lower (N.urlparse url).scheme ≡ "https")
  pub host : String
  pub hostname : (N.urlparse url).hostname ≡ some host
  pub ips : List String
  pub resolves : N.getaddrinfo hop host (port_of (N.urlparse url)) ≡ some ips
  pub found : ips ≢ []
  pub addresses : AllPublic N ips

resolved_host :
    (N : Network) (hop : ℕ) (url host : String) (ips : List String) (validated ip : String)
    → (N.urlparse url).hostname ≡ some host
    → N.getaddrinfo hop host (port_of (N.urlparse url)) ≡ some ips
    → validate_public_url N hop url ≡ some (validated, ip)
    → (validated ≡ url) × IsPublic N hop url
unfolding validate_public_url
resolved_host N hop url host [] validated ip named resolves h = ground arith
resolved_host N hop url host (i ∷ is) validated ip named resolves h =
    elim (Option-cases (check_addresses N "" (i ∷ is))) [
      | inl bad ↦ ground arith
      | inr (first, checked) ↦ (
        ground arith,
        record {
          scheme = ground arith;
          host = host;
          hostname = named;
          ips = i ∷ is;
          resolves = resolves;
          found = λ e. cc e;
          addresses = check_addresses-AllPublic N "" (i ∷ is) first checked;
        },
      )
    ]

validated-IsPublic :
    (N : Network) (hop : ℕ) (url validated ip : String)
    → validate_public_url N hop url ≡ some (validated, ip)
    → (validated ≡ url) × IsPublic N hop url
unfolding validate_public_url
validated-IsPublic N hop url validated ip h =
    let u = N.urlparse url in
    elim (Option-cases u.hostname) [
      | inl missing ↦ ground arith
      | inr (host, named) ↦ elim (Option-cases (N.getaddrinfo hop host (port_of u))) [
        | inl unknown ↦ ground arith
        | inr (ips, resolves) ↦ resolved_host N hop url host ips validated ip named resolves h
      ]
    ]

-- An image that is accepted.
pub record IsImage (max_bytes : ℕ) (content : List ℕ) (mime : String) : Type 0 where
  pub size : length content ≤ max_bytes
  pub format : sniff_image_format (take 16 content) ≡ some mime

accepted-IsImage :
    (max_bytes : ℕ) (announced : Option (Option ℕ)) (raw content : List ℕ) (mime : String)
    → accept_body max_bytes announced raw ≡ some (content, mime)
    → IsImage max_bytes content mime
unfolding accept_body
accepted-IsImage max_bytes announced raw content mime h =
    elim (Bool-cases (too_long max_bytes announced || ltb max_bytes (length raw))) [
      | inl over ↦ ground arith
      | inr fits ↦ elim (Option-cases (sniff_image_format (take 16 raw))) [
        | inl unknown ↦ ground arith
        | inr (found, sniffed) ↦ ground arith
      ]
    ]

-- What holds of a run.
pub record IsSafeRun (N : Network) (max_bytes left : ℕ) (r : Run) : Type 0 where
  pub public : All (λ (hop, url). IsPublic N hop url) r.requested
  pub few : length r.requested ≤ left
  pub image :
      (content : List ℕ) (mime : String)
      → r.image ≡ some (content, mime)
      → IsImage max_bytes content mime

refused-IsSafeRun : (N : Network) (max_bytes left : ℕ) → IsSafeRun N max_bytes left refused
refused-IsSafeRun N max_bytes left = record {
  public = tt;
  few = omega arith;
  image = λ c m h. cc h;
}

answered-IsSafeRun :
    (N : Network) (max_bytes left : ℕ) (follow : String → Run)
    → ((location : String) → IsSafeRun N max_bytes left (follow location))
    → (a : Answer) → IsSafeRun N max_bytes left (answered max_bytes follow a)
unfolding answered
answered-IsSafeRun N max_bytes left follow safe (redirect none) = refused-IsSafeRun N max_bytes left
answered-IsSafeRun N max_bytes left follow safe (redirect (some location)) =
    elim (Bool-cases (location == "")) [
      | inl empty ↦ rw empty (refused-IsSafeRun N max_bytes left)
      | inr given ↦ rw given (safe location)
    ]
answered-IsSafeRun N max_bytes left follow safe failed = refused-IsSafeRun N max_bytes left
answered-IsSafeRun N max_bytes left follow safe (body announced content) = record {
  public = tt;
  few = omega arith;
  image = λ c m h. accepted-IsImage max_bytes announced content c m h;
}

after_request-IsSafeRun :
    (N : Network) (max_bytes left hop : ℕ) (url : String) (r : Run)
    → IsPublic N hop url
    → IsSafeRun N max_bytes left r
    → IsSafeRun N max_bytes (suc left) (after_request hop url r)
after_request-IsSafeRun N max_bytes left hop url r public safe = record {
  public = (public, safe.public);
  few = (let few = safe.few in omega arith);
  image = safe.image;
}

visited-IsSafeRun :
    (N : Network) (max_bytes left hop : ℕ) (url : String) (follow : String → String → Run)
    → ((validated location : String) → IsSafeRun N max_bytes left (follow validated location))
    → (v : Option (String × String)) → validate_public_url N hop url ≡ v
    → IsSafeRun N max_bytes (suc left) (visited N max_bytes hop follow v)
unfolding visited
visited-IsSafeRun N max_bytes left hop url follow safe none e =
    refused-IsSafeRun N max_bytes (suc left)
visited-IsSafeRun N max_bytes left hop url follow safe (some (validated, ip)) e =
    let (same, public) = validated-IsPublic N hop url validated ip e in
    after_request-IsSafeRun N max_bytes left hop validated
      (answered max_bytes (follow validated) (N.get hop validated)) (rw same public)
      (answered-IsSafeRun N max_bytes left (follow validated) (safe validated)
        (N.get hop validated))

hops-IsSafeRun :
    (N : Network) (max_bytes left hop : ℕ) (url : String)
    → IsSafeRun N max_bytes left (fetch_hops N max_bytes left hop url)
unfolding fetch_hops
hops-IsSafeRun N max_bytes zero hop url = refused-IsSafeRun N max_bytes zero
hops-IsSafeRun N max_bytes (suc left) hop url =
    visited-IsSafeRun N max_bytes left hop url
      (λ validated location. fetch_hops N max_bytes left (suc hop) (N.urljoin validated location))
      (λ validated location.
        hops-IsSafeRun N max_bytes left (suc hop) (N.urljoin validated location))
      (validate_public_url N hop url) refl

-- Whatever the resolver, the servers and the redirects answer, `fetch_public_image_url` sends at
-- most four requests, each to an HTTP or HTTPS URL whose host resolved, when the URL was checked
-- for that hop, to at least one address and to public addresses only; and an image that it returns
-- has at most `max_bytes` bytes and begins with the signature of the format it is returned with.
pub fetch_public_image_url-IsSafeRun :
    (N : Network) (max_bytes : ℕ) (url : String)
    → IsSafeRun N max_bytes 4 (fetch_public_image_url N max_bytes url)
unfolding fetch_public_image_url
fetch_public_image_url-IsSafeRun N max_bytes url = hops-IsSafeRun N max_bytes 4 0 url
