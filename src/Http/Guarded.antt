-- ===== src/Http/Guarded.antt =====
-- Who gets through the authentication of src/pinterest_mcp/http_app.py.
use Prim.Native.String.{String, char_at, ◌++◌ as ◌<>◌}
use Prim.Native.String.append
use pinterest_mcp_docker.Common.{
  ◌≡◌, ◌≢◌, ◌↔◌, ap, sym, ◌∙◌, Bool, true, false, Option, some, none, contains, string_eq, arith,
}
use pinterest_mcp_docker.Config.{
  Settings, bearer, is_http, is_loopback, effective_auth_mode, model_validators, check_model,
  accepted, load_settings,
}
use pinterest_mcp_docker.Config.Validated.{load-accepted, load-fields}
use pinterest_mcp_docker.Http.{exempt, bearer_header, admits}

abbrev starts_with_b : String → Bool
starts_with_b String.[] = false
starts_with_b (String.◌∷◌ c s) = true

bearer_header-full : (token : String) → bearer_header token ≢ ""
bearer_header-full token h =
    let first : bearer_header token ≡ String.◌∷◌ (char_at "B" 0) ("earer " <> token) =
      λ i. append.cons (char_at "B" 0) "earer " token i in
    cc (first, h)

-- With a shared token that is not empty, a request outside the two probes reaches the application
-- exactly if it carries that token.
pub admits-bearer :
    (s : Settings) (token path : String) (header : Option String)
    → s.auth_token ≡ some token
    → token ≢ ""
    → contains exempt path ≡ false
    → (admits s path header ≡ true) ↔ (header ≡ some (bearer_header token))
unfolding admits
admits-bearer s token path header set full outside = ground (arith, bearer_header-full token)

-- An empty shared token in the place of another one.
abbrev pub emptied : Settings → Settings
emptied s = record s { auth_token = some "" }

emptied-model :
    (s : Settings) (token : String)
    → s.auth_token ≡ some token
    → model_validators s ≡ none
    → model_validators (emptied s) ≡ none
unfolding model_validators
emptied-model s token set clean = ground arith

checked : (s : Settings) → model_validators s ≡ none → check_model s ≡ accepted s
unfolding check_model
checked s clean = ground arith

emptied-loads :
    (raw s : Settings) (token : String)
    → load_settings raw ≡ accepted s
    → s.auth_token ≡ some token
    → load_settings (emptied raw) ≡ accepted (emptied s)
emptied-loads raw s token loads set =
    let (p, q, m, range, first, second, third, e, clean) = load-accepted raw s loads in
    load-fields (emptied raw) p q m range first second third
    ∙ ap (λ t. check_model (emptied t)) (sym e)
    ∙ checked (emptied s) (emptied-model s token set clean)

admits-any :
    (s : Settings) (path : String) (header : Option String)
    → (effective_auth_mode (emptied s) ≡ bearer) × (admits (emptied s) path header ≡ true)
unfolding admits effective_auth_mode
admits-any s path header = ground arith

-- Settings that load with a shared token and serve HTTP beyond loopback still load, for the same
-- address, with an empty token in its place: they are in bearer mode, and every request reaches the
-- application, whatever its path and with any header or none.
pub admits-empty_token :
    (raw s : Settings) (token path : String) (header : Option String)
    → load_settings raw ≡ accepted s
    → s.auth_token ≡ some token
    → is_http s ≡ true
    → is_loopback s ≡ false
    → (s' : Settings) × (load_settings (record raw { auth_token = some "" }) ≡ accepted s')
      × (is_http s' ≡ true)
      × (is_loopback s' ≡ false)
      × (effective_auth_mode s' ≡ bearer)
      × (admits s' path header ≡ true)
admits-empty_token raw s token path header loads set http beyond = (
  emptied s,
  emptied-loads raw s token loads set,
  http,
  beyond,
  (admits-any s path header).0,
  (admits-any s path header).1,
)
