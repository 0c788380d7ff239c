-- ===== src/Http/Routes.antt =====
-- src/pinterest_mcp/http_app.py: the routes of `create_http_app`, and which request reaches which
-- endpoint. Starlette's router is a parameter.
mod Entries
pub mod Reached
pub mod Root
pub mod Examples
use Prim.Native.Char.{code}
use pinterest_mcp_docker.Common.{
  String, Bool, true, false, not, ◌&&◌, ◌||◌, Option, none, some, List, [], ◌∷◌, ◌++◌, ◌==◌, ◌≡◌,
  ◌≢◌, map, contains, nat_eq, string_eq, if◌then◌else◌,
}
use pinterest_mcp_docker.Config.{
  Settings, AuthMode, Transport, stdio, http, sse, http_sse, unauthenticated, bearer, oauth,
  effective_auth_mode, is_sse,
}
use pinterest_mcp_docker.Config.Paths.{rstrip, starts_with_slash}
use pinterest_mcp_docker.Http.{admits}

pub data Endpoint : Type 0 where
  healthz readyz streamable sse_stream post_message metadata : Endpoint

-- `Route(path, methods=…)` or `Mount(path)`.
pub data Pattern : Type 0 where
  route : String → List String → Pattern
  mount : String → Pattern

-- An entry of `routes`; `guarded` tells that `RequireAuthMiddleware` wraps its endpoint.
pub record Entry : Type 0 where
  pub pattern : Pattern
  pub guarded : Bool
  pub endpoint : Endpoint

-- The router, and the paths that the SDK serves the protected resource metadata at.
pub record Router : Type 0 where
  pub matches : Pattern → String → String → Bool
  pub handle : List Entry → String → String → Option Entry
  pub metadata_paths : Settings → List String

-- A pattern with no placeholder.
unfoldable pub is_plain : String → Bool
is_plain String.[] = true
is_plain (String.◌∷◌ c s) = not (code c == b'{') && is_plain s

-- A path that goes on with a slash after a prefix.
unfoldable pub below : String → String → Bool
below String.[] path = starts_with_slash path
below (String.◌∷◌ c s) String.[] = false
below (String.◌∷◌ c s) (String.◌∷◌ d path) = code c == code d && below s path

unfoldable pub first_match : (Pattern → Bool) → List Entry → Option Entry
first_match p [] = none
first_match p (e ∷ es) = let rest = first_match p es in if p e.pattern then some e else rest

-- What Starlette documents: the first entry that matches is taken; a route with no placeholder
-- matches its own path, for its methods (GET brings HEAD along); a mount matches what is below its
-- path, for every method.
pub record IsLawful (R : Router) : Type 0 where
  pub takes_first :
      (es : List Entry) (method path : String)
      → R.handle es method path ≡ first_match (λ p. R.matches p method path) es
  pub route_path :
      (p : String) (methods : List String) (method path : String)
      → is_plain p ≡ true
      → R.matches (route p methods) method path ≡ true
      → path ≡ p
  pub route_other :
      (p : String) (methods : List String) (method path : String)
      → contains methods method ≡ false
      → (method == "HEAD") ≡ false
      → R.matches (route p methods) method path ≡ false
  pub route_method :
      (p : String) (methods : List String) (method : String)
      → is_plain p ≡ true
      → contains methods method ≡ true
      → R.matches (route p methods) method p ≡ true
  pub mount_below :
      (p method path : String)
      → is_plain p ≡ true
      → R.matches (mount p) method path ≡ below (rstrip p) path

abbrev pub get_only : List String
get_only = "GET" ∷ []

abbrev pub is_oauth : AuthMode → Bool
is_oauth oauth = true
is_oauth _ = false

abbrev pub has_streamable : Transport → Bool
has_streamable http = true
has_streamable http_sse = true
has_streamable _ = false

abbrev pub probes : List Entry
probes =
    record { pattern = route "/healthz" get_only; guarded = false; endpoint = healthz }
    ∷ record { pattern = route "/readyz" get_only; guarded = false; endpoint = readyz }
    ∷ []

abbrev pub streamable_routes : Bool → Settings → List Entry
streamable_routes guarded s =
    record {
      pattern = route s.path ("GET" ∷ "POST" ∷ "DELETE" ∷ []);
      guarded = guarded;
      endpoint = streamable;
    }
    ∷ record { pattern = mount s.path; guarded = guarded; endpoint = streamable }
    ∷ []

abbrev pub sse_routes : Bool → Settings → List Entry
sse_routes guarded s =
    record { pattern = route s.sse_path get_only; guarded = guarded; endpoint = sse_stream }
    ∷ record { pattern = mount s.message_path; guarded = guarded; endpoint = post_message }
    ∷ []

abbrev pub metadata_route : String → Entry
metadata_route path = record { pattern = route path get_only; guarded = false; endpoint = metadata }

-- The routes in their final order: the probes are inserted in front.
unfoldable pub routes : Router → Settings → List Entry
unfolding effective_auth_mode
routes R s =
    let guarded = is_oauth (effective_auth_mode s) in
    probes
    ++ ((if has_streamable s.transport then streamable_routes guarded s else [])
        ++ ((if is_sse s.transport then sse_routes guarded s else [])
            ++ (if guarded then map metadata_route (R.metadata_paths s) else [])))

-- `RequireAuthMiddleware` refuses a request whose token was not verified.
abbrev pub pass_guard : Bool → Option Entry → Option Endpoint
pass_guard verified none = none
pass_guard verified (some e) = if e.guarded && not verified then none else some e.endpoint

-- The endpoint that a request reaches, for a URL whose path is the one the server decoded: the
-- guard reads the first and the router the second. `verified` is what `JWTTokenVerifier` says of its token.
unfoldable pub serve : Router → Settings → Bool → String → String → Option String → Option Endpoint
unfolding admits routes
serve R s verified method path header =
    if admits s path header then pass_guard verified (R.handle (routes R s) method path) else none

-- The endpoints that carry the protocol.
abbrev pub is_surface : Endpoint → Bool
is_surface streamable = true
is_surface sse_stream = true
is_surface post_message = true
is_surface _ = false
