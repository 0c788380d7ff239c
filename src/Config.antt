-- ===== src/Config.antt =====
-- src/pinterest_mcp/config.py: the settings as they are read, the validators in the order in which
-- they run, and the derived properties. Optional secrets are optional texts; the fields that no
-- validator or property reads are left out.
pub mod Paths
pub mod Validated
pub mod Derived
use pinterest_mcp_docker.Common.{
  ℕ, String, Bool, true, false, not, ◌&&◌, ◌||◌, Option, none, some, List, [], ◌∷◌, ◌==◌, ◌*◌,
  contains, string_eq, nat_eq, if◌then◌else◌, leb, Eq,
}
use pinterest_mcp_docker.Persistence.Session.{Result, ok, err, attribute_error, is_some}
use pinterest_mcp_docker.Persistence.Repository.{is_truthy}
use pinterest_mcp_docker.Persistence.Json.{
  Json, null, non_finite, bool, int, float, text, arr, dict, nil, end, get,
}
use pinterest_mcp_docker.Common.Int.{ℤ, pos, negsuc}
use pinterest_mcp_docker.Config.Paths.{path_must_be_absolute, message_path_must_be_absolute, rstrip}

pub data Transport : Type 0 where
  stdio http sse http_sse : Transport

pub data Mode : Type 0 where
  local hosted : Mode

pub data AuthMode : Type 0 where
  unauthenticated bearer oauth : AuthMode

pub record Settings : Type 0 where
  pub mode : Mode
  pub transport : Transport
  pub host : String
  pub port : ℕ
  pub path : String
  pub sse_path : String
  pub message_path : String
  pub auth_token : Option String
  pub stateless : Bool
  pub resumability : Bool
  pub event_store_max_events : ℕ
  pub max_request_bytes : ℕ
  pub allowed_hosts : List String
  pub allowed_origins : List String
  pub cors_allow_credentials : Bool
  pub oauth_issuer : Option String
  pub client_id : Option String
  pub client_secret : Option String
  pub access_token : Option String
  pub refresh_token : Option String
  pub allow_local_paths : Bool
  pub max_image_bytes : ℕ
  pub database_url : Option String

abbrev pub is_loopback : Settings → Bool
is_loopback s = s.host == "127.0.0.1" || s.host == "::1" || s.host == "localhost"

-- Every transport that binds an HTTP listener.
abbrev pub listens : Transport → Bool
listens stdio = false
listens _ = true

abbrev pub is_http : Settings → Bool
is_http s = listens s.transport

unfoldable pub effective_auth_mode : Settings → AuthMode
effective_auth_mode s =
    if is_some s.auth_token
    then bearer
    else if is_some s.oauth_issuer
    then oauth
    else unauthenticated

abbrev pub is_unauthenticated : AuthMode → Bool
is_unauthenticated unauthenticated = true
is_unauthenticated _ = false

abbrev pub is_hosted_mode : Mode → Bool
is_hosted_mode hosted = true
is_hosted_mode local = false

abbrev pub is_hosted : Settings → Bool
is_hosted s = is_hosted_mode s.mode

-- The settings that make a validator refuse, in the order in which they are checked.
pub data Refusal : Type 0 where
  out_of_range not_absolute missing_auth two_auth_modes : Refusal
  hosted_auth_token hosted_access_token hosted_refresh_token : Refusal
  hosted_without_issuer hosted_without_database : Refusal
  stateless_resumability stateless_sse cors_wildcard same_paths same_message_path : Refusal

-- The bounds of the numeric fields.
abbrev pub in_range : Settings → Bool
in_range s =
    leb 1 s.port
    && leb s.port 65535
    && leb 1 s.event_store_max_events
    && leb 1 s.max_request_bytes
    && leb 1 s.max_image_bytes
    && leb s.max_image_bytes (64 * 1024 * 1024)

unfoldable pub http_requires_auth_off_loopback : Settings → Option Refusal
unfolding effective_auth_mode
http_requires_auth_off_loopback s =
    if is_http s && not (is_loopback s) && is_unauthenticated (effective_auth_mode s)
    then some missing_auth
    else none

unfoldable pub auth_modes_are_mutually_exclusive : Settings → Option Refusal
auth_modes_are_mutually_exclusive s =
    if is_some s.auth_token && is_some s.oauth_issuer then some two_auth_modes else none

unfoldable pub hosted_mode_restrictions : Settings → Option Refusal
hosted_mode_restrictions s =
    if not (is_hosted s)
    then none
    else if is_some s.auth_token
    then some hosted_auth_token
    else if is_some s.access_token
    then some hosted_access_token
    else if is_some s.refresh_token
    then some hosted_refresh_token
    else if not (is_some s.oauth_issuer)
    then some hosted_without_issuer
    else if not (is_some s.database_url)
    then some hosted_without_database
    else none

abbrev pub is_sse : Transport → Bool
is_sse sse = true
is_sse http_sse = true
is_sse _ = false

abbrev pub is_http_sse : Transport → Bool
is_http_sse http_sse = true
is_http_sse _ = false

unfoldable pub stateless_is_incompatible_with_sessionful_features : Settings → Option Refusal
stateless_is_incompatible_with_sessionful_features s =
    if s.stateless && s.resumability
    then some stateless_resumability
    else if s.stateless && is_sse s.transport
    then some stateless_sse
    else none

unfoldable pub cors_wildcard_forbids_credentials : Settings → Option Refusal
cors_wildcard_forbids_credentials s =
    if contains s.allowed_origins "*" && s.cors_allow_credentials then some cors_wildcard else none

unfoldable pub sse_and_streamable_paths_must_differ : Settings → Option Refusal
sse_and_streamable_paths_must_differ s =
    if is_http_sse s.transport && s.path == s.sse_path
    then some same_paths
    else if rstrip s.message_path == s.path || rstrip s.message_path == s.sse_path
    then some same_message_path
    else none

-- The first refusal, if any.
infixr 4 ◌orelse◌
abbrev pub ◌orelse◌ : Option Refusal → Option Refusal → Option Refusal
none orelse r = r
some q orelse r = some q

unfoldable pub model_validators : Settings → Option Refusal
unfolding http_requires_auth_off_loopback auth_modes_are_mutually_exclusive hosted_mode_restrictions
    stateless_is_incompatible_with_sessionful_features cors_wildcard_forbids_credentials
    sse_and_streamable_paths_must_differ
model_validators s =
    http_requires_auth_off_loopback s
    orelse auth_modes_are_mutually_exclusive s
    orelse hosted_mode_restrictions s
    orelse stateless_is_incompatible_with_sessionful_features s
    orelse cors_wildcard_forbids_credentials s
    orelse sse_and_streamable_paths_must_differ s

pub data Loaded : Type 0 where
  accepted : Settings → Loaded
  refused : Refusal → Loaded

unfoldable pub check_model : Settings → Loaded
unfolding model_validators
check_model s = elim (model_validators s) [ none ↦ accepted s | some r ↦ refused r ]

-- The field validators, which normalise the paths, then the model validators.
unfoldable pub load_settings : Settings → Loaded
unfolding path_must_be_absolute message_path_must_be_absolute check_model
load_settings raw =
    if not (in_range raw) then refused out_of_range else elim (path_must_be_absolute raw.path) [
      | none ↦ refused not_absolute
      | some path ↦ elim (path_must_be_absolute raw.sse_path) [
        | none ↦ refused not_absolute
        | some sse_path ↦ elim (message_path_must_be_absolute raw.message_path) [
          | none ↦ refused not_absolute
          | some message_path ↦
              check_model
                (record raw { path = path; sse_path = sse_path; message_path = message_path })
        ]
      ]
    ]
