-- ===== src/Http/Routes/Examples.antt =====
-- A router, and the theorems on the routes of src/pinterest_mcp/http_app.py at concrete settings.
use pinterest_mcp_docker.Common.{
  String, Bool, true, false, ◌&&◌, none, some, List, [], ◌∷◌, ◌==◌, ==_self, ◌≡◌, ◌≢◌, refl,
  contains, nat_eq, string_eq, arith,
}
use pinterest_mcp_docker.Config.{
  Settings, local, http, bearer, effective_auth_mode, accepted, load_settings,
}
use pinterest_mcp_docker.Config.Paths.{rstrip}
use pinterest_mcp_docker.Http.Routes.{
  Pattern, route, mount, Router, IsLawful, is_plain, below, first_match, serve, streamable, healthz,
}
use pinterest_mcp_docker.Http.Routes.Reached.{IsApart, IsAuthenticated, serve-IsAuthenticated}
use pinterest_mcp_docker.Http.Routes.Root.{serve-root_healthz}

unfoldable pub matches : Pattern → String → String → Bool
unfolding below rstrip
matches (route p methods) method path = path == p && contains methods method
matches (mount p) method path = below (rstrip p) path

abbrev pub router : Router
router = record {
  matches = matches;
  handle = λ es method path. first_match (λ p. matches p method path) es;
  metadata_paths = λ s. "/.well-known/oauth-protected-resource" ∷ [];
}

route_path :
    (p : String) (methods : List String) (method path : String)
    → is_plain p ≡ true
    → matches (route p methods) method path ≡ true
    → path ≡ p
unfolding matches
route_path p methods method path plain h = ground arith

route_other :
    (p : String) (methods : List String) (method path : String)
    → contains methods method ≡ false
    → (method == "HEAD") ≡ false
    → matches (route p methods) method path ≡ false
unfolding matches
route_other p methods method path other head = ground arith

route_method :
    (p : String) (methods : List String) (method : String)
    → is_plain p ≡ true
    → contains methods method ≡ true
    → matches (route p methods) method p ≡ true
unfolding matches
route_method p methods method plain listed = ground (arith, ==_self p)

mount_below :
    (p method path : String)
    → is_plain p ≡ true
    → matches (mount p) method path ≡ below (rstrip p) path
unfolding matches
mount_below p method path plain = refl

pub router-IsLawful : IsLawful router
router-IsLawful = record {
  takes_first = λ es method path. refl;
  route_path = route_path;
  route_other = route_other;
  route_method = route_method;
  mount_below = mount_below;
}

abbrev pub served : Settings
served = record {
  mode = local;
  transport = http;
  host = "0.0.0.0";
  port = 8080;
  path = "/mcp";
  sse_path = "/sse";
  message_path = "/messages/";
  auth_token = some "token";
  stateless = false;
  resumability = false;
  event_store_max_events = 1000;
  max_request_bytes = 4194304;
  allowed_hosts = [];
  allowed_origins = [];
  cors_allow_credentials = false;
  oauth_issuer = none;
  client_id = none;
  client_secret = none;
  access_token = none;
  refresh_token = none;
  allow_local_paths = false;
  max_image_bytes = 10485760;
  database_url = none;
}

served-IsApart : IsApart served
unfolding is_plain rstrip string_eq nat_eq
served-IsApart = record {
  plain = refl;
  plain_sse = refl;
  plain_message = refl;
  path_apart = refl;
  sse_apart = refl;
  path_below_root = λ e. cc e;
  message_below_root = λ e. cc e;
}

served_full : served.auth_token ≢ some ""
served_full h = cc h

served_post : serve router served false "POST" "/mcp" (some "Bearer token") ≡ some streamable
unfolding serve first_match matches string_eq nat_eq
served_post = refl

served_health : serve router served false "GET" "/healthz" none ≡ some healthz
unfolding serve first_match matches string_eq nat_eq
served_health = refl

refused_post : serve router served false "POST" "/mcp" none ≡ none
unfolding serve first_match matches string_eq nat_eq
refused_post = refl

serve-IsAuthenticated_example : IsAuthenticated served false (some "Bearer token")
serve-IsAuthenticated_example =
    serve-IsAuthenticated router served false "POST" "/mcp" (some "Bearer token") streamable
      router-IsLawful served-IsApart served_full served_post refl

abbrev at_root : Settings
at_root = record served { path = "/" }

loads_root : load_settings at_root ≡ accepted at_root
unfolding load_settings string_eq nat_eq
loads_root = refl

mode_at_root : effective_auth_mode at_root ≡ bearer
unfolding effective_auth_mode
mode_at_root = refl

serve-root_healthz_example : serve router at_root false "POST" "/healthz" none ≡ some streamable
serve-root_healthz_example =
    serve-root_healthz router at_root false none router-IsLawful refl refl mode_at_root
