-- ===== src/Security.antt =====
-- src/pinterest_mcp/security.py: the checks of image content and of outbound URLs, and the download
-- of an image with its redirects. None is a SecurityError or another exception.
pub mod Fetched
pub mod Local
pub mod TokenFile
mod Examples
use pinterest_mcp_docker.Common.{
  ℕ, suc, zero, ◌+◌, String, Bool, true, false, not, ◌&&◌, ◌||◌, Option, none, some, List, [], ◌∷◌,
  ◌==◌, nat_eq, string_eq, length, take, drop, leb, ltb, if◌then◌else◌,
}
use pinterest_mcp_docker.Common.Texts.{lower}

-- What the `ipaddress` module says of an address.
pub record Address : Type 0 where
  pub is_loopback : Bool
  pub is_private : Bool
  pub is_link_local : Bool
  pub is_multicast : Bool
  pub is_reserved : Bool
  pub is_unspecified : Bool
  pub is_global : Bool

unfoldable pub is_public_ip : Address → Bool
is_public_ip ip =
    if ip.is_loopback || ip.is_private || ip.is_link_local || ip.is_multicast || ip.is_reserved
      || ip.is_unspecified
    then false
    else ip.is_global

pub record Url : Type 0 where
  pub scheme : String
  pub hostname : Option String
  -- A port that is no number raises when it is read.
  pub bad_port : Bool
  pub port : Option ℕ

-- The answer to a request: a redirect with its Location, an error, or a body with its
-- Content-Length, which `int` may refuse.
pub data Answer : Type 0 where
  redirect : Option String → Answer
  failed : Answer
  body : Option (Option ℕ) → List ℕ → Answer

-- The URL parser, which gives a URL that it refuses an empty scheme (both are refused), the
-- address parser, and the network, which may answer each hop differently.
pub record Network : Type 0 where
  pub urlparse : String → Url
  pub urljoin : String → String → String
  pub ip_address : String → Option Address
  pub getaddrinfo : ℕ → String → ℕ → Option (List String)
  pub get : ℕ → String → Answer

abbrev pub port_of : Url → ℕ
port_of url = elim url.port [
  | some port ↦ if port == 0 then (if lower url.scheme == "https" then 443 else 80) else port
  | none ↦ if lower url.scheme == "https" then 443 else 80
]

-- Every address is one and is public; the first that is not empty.
unfoldable pub check_addresses : Network → String → List String → Option String
unfolding is_public_ip
check_addresses N resolved [] = some resolved
check_addresses N resolved (ip ∷ ips) =
    let rest = check_addresses N (if resolved == "" then ip else resolved) ips in
    elim (N.ip_address ip) [ none ↦ none | some a ↦ if is_public_ip a then rest else none ]

unfoldable pub validate_public_url : Network → ℕ → String → Option (String × String)
unfolding check_addresses
validate_public_url N hop url =
    let parsed = N.urlparse url in
    if not (lower parsed.scheme == "http" || lower parsed.scheme == "https")
    then none
    else elim parsed.hostname [
      | none ↦ none
      | some hostname ↦
          if hostname == "" || parsed.bad_port
          then none
          else elim (N.getaddrinfo hop hostname (port_of parsed)) [
            | none ↦ none
            | some [] ↦ none
            | some (ip ∷ ips) ↦ elim (check_addresses N "" (ip ∷ ips)) [
              | none ↦ none
              | some first ↦ some (url, first)
            ]
          ]
    ]

unfoldable pub starts_with : List ℕ → List ℕ → Bool
starts_with [] bytes = true
starts_with (m ∷ ms) [] = false
starts_with (m ∷ ms) (d ∷ ds) = m == d && starts_with ms ds

-- JPEG, PNG, GIF87a, GIF89a, and RIFF with WEBP at the ninth byte.
unfoldable pub sniff_image_format : List ℕ → Option String
unfolding starts_with
sniff_image_format bytes =
    if starts_with (255 ∷ 216 ∷ 255 ∷ []) bytes
    then some "image/jpeg"
    else if starts_with (137 ∷ 80 ∷ 78 ∷ 71 ∷ 13 ∷ 10 ∷ 26 ∷ 10 ∷ []) bytes
    then some "image/png"
    else if starts_with (71 ∷ 73 ∷ 70 ∷ 56 ∷ 55 ∷ 97 ∷ []) bytes
        || starts_with (71 ∷ 73 ∷ 70 ∷ 56 ∷ 57 ∷ 97 ∷ []) bytes
    then some "image/gif"
    else if starts_with (82 ∷ 73 ∷ 70 ∷ 70 ∷ []) bytes
        && leb 12 (length bytes)
        && starts_with (87 ∷ 69 ∷ 66 ∷ 80 ∷ []) (drop 8 bytes)
    then some "image/webp"
    else none

abbrev pub too_long : ℕ → Option (Option ℕ) → Bool
too_long max_bytes none = false
too_long max_bytes (some none) = true
too_long max_bytes (some (some n)) = ltb max_bytes n

-- The checks of a body: its announced and its real length, and its first bytes.
unfoldable pub accept_body : ℕ → Option (Option ℕ) → List ℕ → Option (List ℕ × String)
unfolding sniff_image_format
accept_body max_bytes announced content =
    if too_long max_bytes announced || ltb max_bytes (length content)
    then none
    else elim (sniff_image_format (take 16 content)) [
      | none ↦ none
      | some mime ↦ some (content, mime)
    ]

-- A run: the URLs that were requested, each with its hop, and the image.
pub record Run : Type 0 where
  pub requested : List (ℕ × String)
  pub image : Option (List ℕ × String)

abbrev pub refused : Run
refused = record { requested = []; image = none }

abbrev pub after_request : ℕ → String → Run → Run
after_request hop url r = record r { requested = (hop, url) ∷ r.requested }

-- What is done with an answer; `follow` is the rest of the loop.
unfoldable pub answered : ℕ → (String → Run) → Answer → Run
unfolding accept_body
answered max_bytes follow (redirect none) = refused
answered max_bytes follow (redirect (some location)) =
    if location == "" then refused else follow location
answered max_bytes follow failed = refused
answered max_bytes follow (body announced content) = record {
  requested = [];
  image = accept_body max_bytes announced content;
}

-- A hop for the outcome of the check of its URL.
unfoldable pub visited : Network → ℕ → ℕ → (String → String → Run) → Option (String × String) → Run
unfolding answered
visited N max_bytes hop follow none = refused
visited N max_bytes hop follow (some (validated, resolved_ip)) =
    after_request hop validated (answered max_bytes (follow validated) (N.get hop validated))

-- The loop with the hops that are left. The headers hold no authorization that a redirect to
-- another host could drop.
unfoldable pub fetch_hops : Network → ℕ → ℕ → ℕ → String → Run
unfolding validate_public_url visited
fetch_hops N max_bytes zero hop url = refused
fetch_hops N max_bytes (suc left) hop url =
    visited N max_bytes hop
      (λ validated location. fetch_hops N max_bytes left (suc hop) (N.urljoin validated location))
      (validate_public_url N hop url)

-- `fetch_public_image_url`: at most three redirects.
unfoldable pub fetch_public_image_url : Network → ℕ → String → Run
unfolding fetch_hops
fetch_public_image_url N max_bytes url = fetch_hops N max_bytes 4 0 url
