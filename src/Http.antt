-- ===== src/Http.antt =====
-- src/pinterest_mcp/http_app.py: the authentication in front of the HTTP application.
pub mod Guarded
pub mod Routes
mod Examples
use pinterest_mcp_docker.Common.{
  String, Bool, true, false, not, ◌&&◌, ◌||◌, Option, none, some, List, [], ◌∷◌, ◌==◌, ◌<>◌,
  contains, string_eq, if◌then◌else◌,
}
use pinterest_mcp_docker.Persistence.Repository.{is_truthy}
use pinterest_mcp_docker.Config.{Settings, AuthMode, unauthenticated, bearer, effective_auth_mode}

abbrev pub or_empty : Option String → String
or_empty none = ""
or_empty (some t) = t

abbrev pub bearer_header : String → String
bearer_header token = "Bearer " <> token

-- `BearerAuthMiddleware.dispatch`: whether the request reaches the application. A header is
-- compared with the expected one in constant time.
unfoldable pub dispatch : Option String → List String → String → Option String → Bool
dispatch auth_token exempt_paths path header =
    if contains exempt_paths path then true else elim auth_token [
      | none ↦ true
      | some token ↦ not (or_empty header == "" || not (or_empty header == bearer_header token))
    ]

abbrev pub exempt : List String
exempt = "/healthz" ∷ "/readyz" ∷ []

-- The token that `create_http_app` hands to the middleware: an empty secret is falsy.
abbrev pub auth_token_str : Settings → Option String
auth_token_str s = if is_truthy s.auth_token then s.auth_token else none

abbrev pub guard_of : AuthMode → Settings → String → Option String → Bool
guard_of bearer s path header = dispatch (auth_token_str s) exempt path header
guard_of _ s path header = true

-- The guard that `create_http_app` installs in front of all routes. In OAuth mode the middlewares
-- only record whose token it is, and the routes decide (Http/Routes).
unfoldable pub admits : Settings → String → Option String → Bool
unfolding effective_auth_mode dispatch
admits s path header = guard_of (effective_auth_mode s) s path header
