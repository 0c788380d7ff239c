-- ===== src/Config/Validated.antt =====
-- What the validation of src/pinterest_mcp/config.py guarantees.
use pinterest_mcp_docker.Common.{
  ◌≤◌, ◌≡◌, ◌≢◌, refl, sym, ◌∙◌, String, true, false, none, some, contains, string_eq, nat_eq,
  arith, Option-cases, inl, inr,
}
use pinterest_mcp_docker.Config.Paths.{
  rstrip, starts_with_slash, path_must_be_absolute, message_path_must_be_absolute,
  path_must_be_absolute-normal,
}
use pinterest_mcp_docker.Config.{
  Settings, http_sse, unauthenticated, oauth, is_loopback, is_http, is_hosted, is_sse,
  effective_auth_mode, in_range, model_validators, check_model, accepted, load_settings,
}

-- What the server relies on when it starts.
pub record IsSafe (s : Settings) : Type 0 where
  pub authenticated :
      is_http s ≡ true → is_loopback s ≡ false → effective_auth_mode s ≢ unauthenticated
  pub isolated :
      is_hosted s ≡ true
      → (effective_auth_mode s ≡ oauth)
        × (s.access_token ≡ none)
        × (s.refresh_token ≡ none)
        × (s.database_url ≢ none)
  pub sessions : s.stateless ≡ true → (s.resumability ≡ false) × (is_sse s.transport ≡ false)
  pub origins : s.cors_allow_credentials ≡ true → contains s.allowed_origins "*" ≡ false
  pub port : (1 ≤ s.port) × (s.port ≤ 65535)
  pub paths :
      (starts_with_slash s.path ≡ true)
      × (starts_with_slash s.sse_path ≡ true)
      × (starts_with_slash s.message_path ≡ true)
  pub apart : (rstrip s.message_path ≢ s.path) × (rstrip s.message_path ≢ s.sse_path)
  pub both : s.transport ≡ http_sse → s.path ≢ s.sse_path

model-authenticated :
    (s : Settings)
    → model_validators s ≡ none
    → is_http s ≡ true
    → is_loopback s ≡ false
    → effective_auth_mode s ≢ unauthenticated
unfolding model_validators
model-authenticated s h i j k = ground arith

model-isolated :
    (s : Settings)
    → model_validators s ≡ none
    → is_hosted s ≡ true
    → (effective_auth_mode s ≡ oauth)
      × (s.access_token ≡ none)
      × (s.refresh_token ≡ none)
      × (s.database_url ≢ none)
unfolding model_validators
model-isolated s h i = ground arith

model-sessions :
    (s : Settings)
    → model_validators s ≡ none
    → s.stateless ≡ true
    → (s.resumability ≡ false) × (is_sse s.transport ≡ false)
unfolding model_validators
model-sessions s h i = ground arith

model-origins :
    (s : Settings)
    → model_validators s ≡ none
    → s.cors_allow_credentials ≡ true
    → contains s.allowed_origins "*" ≡ false
unfolding model_validators
model-origins s h i = ground arith

model-apart :
    (s : Settings)
    → model_validators s ≡ none
    → (rstrip s.message_path ≢ s.path) × (rstrip s.message_path ≢ s.sse_path)
unfolding model_validators
model-apart s h = ground arith

model-both :
    (s : Settings) → model_validators s ≡ none → s.transport ≡ http_sse → s.path ≢ s.sse_path
unfolding model_validators
model-both s h both = ground arith

message-absolute :
    (v w : String)
    → message_path_must_be_absolute v ≡ some w
    → (w ≡ v) × (starts_with_slash v ≡ true)
unfolding message_path_must_be_absolute
message-absolute v w h = ground arith

check_model-accepted :
    (t s : Settings) → check_model t ≡ accepted s → (s ≡ t) × (model_validators s ≡ none)
unfolding check_model
check_model-accepted t s h = elim (Option-cases (model_validators t)) [
  | inl clean ↦ let same : t ≡ s = ground arith in (sym same, rw (← same) clean)
  | inr (r, bad) ↦ ground arith
]

load-range : (raw s : Settings) → load_settings raw ≡ accepted s → in_range raw ≡ true
unfolding load_settings
load-range raw s h = ground arith

pub load-fields :
    (raw : Settings) (p q m : String)
    → in_range raw ≡ true
    → path_must_be_absolute raw.path ≡ some p
    → path_must_be_absolute raw.sse_path ≡ some q
    → message_path_must_be_absolute raw.message_path ≡ some m
    → load_settings raw ≡ check_model (record raw { path = p; sse_path = q; message_path = m })
unfolding load_settings
load-fields raw p q m range first second third = rw range (rw first (rw second (rw third refl)))

-- The settings that were accepted, and the checks they passed.
pub load-accepted :
    (raw s : Settings)
    → load_settings raw ≡ accepted s
    → (path : String) × (sse_path : String) × (message_path : String) × (in_range raw ≡ true)
      × (path_must_be_absolute raw.path ≡ some path)
      × (path_must_be_absolute raw.sse_path ≡ some sse_path)
      × (message_path_must_be_absolute raw.message_path ≡ some message_path)
      × (s ≡ record raw { path = path; sse_path = sse_path; message_path = message_path })
      × (model_validators s ≡ none)
unfolding load_settings
load-accepted raw s h = elim (Option-cases (path_must_be_absolute raw.path)) [
  | inl bad ↦ ground arith
  | inr (p, first) ↦ elim (Option-cases (path_must_be_absolute raw.sse_path)) [
    | inl bad ↦ ground arith
    | inr (q, second) ↦ elim (Option-cases (message_path_must_be_absolute raw.message_path)) [
      | inl bad ↦ ground arith
      | inr (m, third) ↦
          let range = load-range raw s h in
          let (same, checked) =
            check_model-accepted (record raw { path = p; sse_path = q; message_path = m }) s
              (sym (load-fields raw p q m range first second third) ∙ h) in
          (p, q, m, range, first, second, third, same, checked)
    ]
  ]
]

in_range-port : (s : Settings) → in_range s ≡ true → (1 ≤ s.port) × (s.port ≤ 65535)
in_range-port s h = ground arith

-- Settings that load are safe to serve with: off loopback an HTTP transport has an authentication
-- mode, hosted mode verifies identities by OAuth and holds no operator credentials, stateless mode
-- has no sessions, a wildcard origin has no credentials, and the paths are absolute and apart: the
-- message path from both others, and those from each other where both transports are served.
pub load_settings-IsSafe : (raw s : Settings) → load_settings raw ≡ accepted s → IsSafe s
load_settings-IsSafe raw s h =
    let (p, q, m, range, first, second, third, e, checked) = load-accepted raw s h in
    record {
      authenticated = model-authenticated s checked;
      isolated = model-isolated s checked;
      sessions = model-sessions s checked;
      origins = model-origins s checked;
      port = rw e (in_range-port raw range);
      paths = rw e (
        (path_must_be_absolute-normal raw.path p first).0,
        (path_must_be_absolute-normal raw.sse_path q second).0,
        ground (arith, message-absolute raw.message_path m third),
      );
      apart = model-apart s checked;
      both = model-both s checked;
    }

load_again :
    (s : Settings)
    → in_range s ≡ true
    → path_must_be_absolute s.path ≡ some s.path
    → path_must_be_absolute s.sse_path ≡ some s.sse_path
    → message_path_must_be_absolute s.message_path ≡ some s.message_path
    → model_validators s ≡ none
    → load_settings s ≡ accepted s
unfolding load_settings
load_again s range p q m checked = ground arith

message-again :
    (v w : String)
    → message_path_must_be_absolute v ≡ some w
    → message_path_must_be_absolute w ≡ some w
unfolding message_path_must_be_absolute
message-again v w h = ground arith

-- Validation normalises: the settings that it returns are accepted again, unchanged.
pub load_settings-idempotent :
    (raw s : Settings) → load_settings raw ≡ accepted s → load_settings s ≡ accepted s
load_settings-idempotent raw s h =
    let (p, q, m, range, first, second, third, e, checked) = load-accepted raw s h in
    load_again s (rw e range) (rw e (path_must_be_absolute-normal raw.path p first).1)
      (rw e (path_must_be_absolute-normal raw.sse_path q second).1)
      (rw e (message-again raw.message_path m third)) checked
