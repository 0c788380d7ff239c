-- ===== src/Security/Examples.antt =====
-- A download on a small network, for src/pinterest_mcp/security.py.
use pinterest_mcp_docker.Common.{
  ℕ, ◌≡◌, refl, true, false, none, some, List, [], ◌∷◌, ◌==◌, string_eq, nat_eq, if◌then◌else◌,
}
use pinterest_mcp_docker.Common.Texts.{lower}
use pinterest_mcp_docker.Security.{
  Network, Address, redirect, body, fetch_public_image_url, fetch_hops, visited, answered,
  accept_body, sniff_image_format, starts_with, validate_public_url, check_addresses, is_public_ip,
}
use pinterest_mcp_docker.Security.Local.{Files, resolve_local_image_path}
use pinterest_mcp_docker.Security.Local.Inside.{IsLocalImage, resolve_local_image_path-IsLocalImage}
use pinterest_mcp_docker.Security.Fetched.{IsSafeRun, fetch_public_image_url-IsSafeRun}

abbrev png : List ℕ
png = 137 ∷ 80 ∷ 78 ∷ 71 ∷ 13 ∷ 10 ∷ 26 ∷ 10 ∷ 0 ∷ []

abbrev public : Address
public = record {
  is_loopback = false;
  is_private = false;
  is_link_local = false;
  is_multicast = false;
  is_reserved = false;
  is_unspecified = false;
  is_global = true;
}

abbrev loopback : Address
loopback = record public { is_loopback = true; is_global = false }

-- "here" redirects to "there", which has the image, and "inside" is the machine itself.
abbrev small : Network
small = record {
  urlparse = λ url. record { scheme = "https"; hostname = some url; bad_port = false; port = none };
  urljoin = λ base location. location;
  ip_address = λ ip. some (if ip == "127.0.0.1" then loopback else public);
  getaddrinfo = λ hop host port.
      some (if host == "inside" then "93.184.216.34" ∷ "127.0.0.1" ∷ [] else "93.184.216.34" ∷ []);
  get = λ hop url.
      if url == "here"
      then redirect (some "there")
      else if url == "bounce"
      then redirect (some "inside")
      else body (some (some 9)) png;
}

fetches_redirected :
    fetch_public_image_url small 100 "here"
    ≡ record { requested = (0, "here") ∷ (1, "there") ∷ []; image = some (png, "image/png") }
unfolding fetch_public_image_url fetch_hops visited answered accept_body sniff_image_format
    starts_with validate_public_url check_addresses is_public_ip lower string_eq nat_eq
fetches_redirected = refl

stays_outside :
    fetch_public_image_url small 100 "bounce"
    ≡ record { requested = (0, "bounce") ∷ []; image = none }
unfolding fetch_public_image_url fetch_hops visited answered accept_body sniff_image_format
    starts_with validate_public_url check_addresses is_public_ip lower string_eq nat_eq
stays_outside = refl

refuses_large :
    fetch_public_image_url small 8 "there" ≡ record { requested = (0, "there") ∷ []; image = none }
unfolding fetch_public_image_url fetch_hops visited answered accept_body sniff_image_format
    starts_with validate_public_url check_addresses is_public_ip lower string_eq nat_eq
refuses_large = refl

fetch_public_image_url-IsSafeRun_example :
    IsSafeRun small 100 4 (fetch_public_image_url small 100 "here")
fetch_public_image_url-IsSafeRun_example = fetch_public_image_url-IsSafeRun small 100 "here"

abbrev disk : Files
disk = record {
  resolve_strict = λ path.
      if path == "cat.png"
      then some ("images" ∷ "cat.png" ∷ [])
      else if path == "out"
      then some ("etc" ∷ "passwd" ∷ [])
      else some ("images" ∷ []);
  resolve = λ path. [];
  stat_size = λ path. some 9;
  header = λ path. some png;
  read_bytes = λ path. some png;
}

takes_inside :
    resolve_local_image_path disk "cat.png" "images" 100
    ≡ some ("images" ∷ "cat.png" ∷ [], "image/png")
unfolding resolve_local_image_path sniff_image_format starts_with string_eq nat_eq
takes_inside = refl

refuses_outside : resolve_local_image_path disk "out" "images" 100 ≡ none
unfolding resolve_local_image_path string_eq
refuses_outside = refl

resolve_local_image_path-IsLocalImage_example :
    IsLocalImage disk "cat.png" "images" 100 ("images" ∷ "cat.png" ∷ []) "image/png"
resolve_local_image_path-IsLocalImage_example =
    resolve_local_image_path-IsLocalImage disk "cat.png" "images" 100 ("images" ∷ "cat.png" ∷ [])
      "image/png" takes_inside
