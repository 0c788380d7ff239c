-- ===== src/Config/Derived.antt =====
-- src/pinterest_mcp/config.py: the derived properties of the settings.
use pinterest_mcp_docker.Common.{
  String, Bool, true, false, not, ◌&&◌, ◌||◌, Option, none, some, List, [], ◌∷◌, string_eq, nat_eq,
  if◌then◌else◌,
}
use pinterest_mcp_docker.Persistence.Session.{Result, ok, err, attribute_error}
use pinterest_mcp_docker.Persistence.Repository.{is_truthy}
use pinterest_mcp_docker.Persistence.Json.{Json, dict, get, truthy}
use pinterest_mcp_docker.Config.{Settings, is_loopback, is_http, is_hosted}

unfoldable pub effective_allowed_hosts : Settings → List String
effective_allowed_hosts s = elim s.allowed_hosts [
  | h ∷ hs ↦ s.allowed_hosts
  | [] ↦ if is_loopback s then "127.0.0.1:*" ∷ "localhost:*" ∷ "[::1]:*" ∷ [] else []
]

unfoldable pub effective_allowed_origins_for_security : Settings → List String
effective_allowed_origins_for_security s = elim s.allowed_origins [
  | o ∷ os ↦ s.allowed_origins
  | [] ↦
      if is_loopback s
      then "http://127.0.0.1:*" ∷ "http://localhost:*" ∷ "http://[::1]:*" ∷ []
      else []
]

unfoldable pub local_paths_enabled : Settings → Bool
local_paths_enabled s = not (is_http s) || s.allow_local_paths

-- `token_file` is what the saved token file holds, if it is there and holds JSON; a value without
-- `get` is an error that nothing catches.
unfoldable pub pinterest_credentials_ready : Option Json → Settings → Result Bool
unfolding get
pinterest_credentials_ready token_file s =
    let app = is_truthy s.client_id && is_truthy s.client_secret in
    if is_hosted s
    then ok (is_truthy s.database_url && is_truthy s.oauth_issuer)
    else if is_truthy s.access_token || is_truthy s.refresh_token && app
    then ok true
    else elim token_file [
      | none ↦ ok false
      | some (dict saved) ↦
          ok (truthy (get "access_token" saved) || truthy (get "refresh_token" saved) && app)
      | some _ ↦ err attribute_error
    ]
