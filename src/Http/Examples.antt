-- ===== src/Http/Examples.antt =====
-- The theorems on src/pinterest_mcp/config.py and the authentication of src/pinterest_mcp/http_app.py
-- at concrete settings.
use pinterest_mcp_docker.Common.{◌≡◌, refl, true, false, none, some, [], string_eq, nat_eq}
use pinterest_mcp_docker.Config.{
  Settings, http, local, bearer, is_http, is_loopback, effective_auth_mode, accepted, load_settings,
}
use pinterest_mcp_docker.Config.Validated.{IsSafe, load_settings-IsSafe}
use pinterest_mcp_docker.Http.{admits}
use pinterest_mcp_docker.Http.Guarded.{admits-empty_token}

abbrev exposed : Settings
exposed = record {
  mode = local;
  transport = http;
  host = "0.0.0.0";
  port = 8080;
  path = "/mcp/";
  sse_path = "/sse";
  message_path = "/messages/";
  auth_token = some "token";
  stateless = false;
  resumability = false;
  event_store_max_events = 1000;
  max_request_bytes = 4194304;
  allowed_hosts = [];
  allowed_origins = [];
  cors_allow_credentials = false;
  oauth_issuer = none;
  client_id = none;
  client_secret = none;
  access_token = none;
  refresh_token = none;
  allow_local_paths = false;
  max_image_bytes = 10485760;
  database_url = none;
}

abbrev normal : Settings
normal = record exposed { path = "/mcp" }

loads : load_settings exposed ≡ accepted normal
unfolding load_settings string_eq nat_eq
loads = refl

beyond : is_loopback normal ≡ false
unfolding string_eq
beyond = refl

load_settings-IsSafe_example : IsSafe normal
load_settings-IsSafe_example = load_settings-IsSafe exposed normal loads

admits-empty_token_example :
    (s' : Settings) × (load_settings (record exposed { auth_token = some "" }) ≡ accepted s')
    × (is_http s' ≡ true)
    × (is_loopback s' ≡ false)
    × (effective_auth_mode s' ≡ bearer)
    × (admits s' "/mcp" none ≡ true)
admits-empty_token_example =
    admits-empty_token exposed normal "token" "/mcp" none loads refl refl beyond
