-- ===== src/Http/Routes/Reached.antt =====
-- Which requests reach the protocol's endpoints of src/pinterest_mcp/http_app.py.
use mathlib.Core.Path.{subst}
use pinterest_mcp_docker.Common.{
  String, Bool, true, false, not, ◌&&◌, Option, none, some, List, ◌≡◌, ◌≢◌, ◌⊎◌, inl, inr, refl,
  sym, ap, ◌∙◌, contains, nat_eq, string_eq, if◌then◌else◌, arith, All, Bool-cases, Option-cases,
}
use pinterest_mcp_docker.Config.{Settings, unauthenticated, bearer, oauth, effective_auth_mode}
use pinterest_mcp_docker.Config.Paths.{rstrip}
use pinterest_mcp_docker.Http.{admits, bearer_header, exempt}
use pinterest_mcp_docker.Http.Guarded.{admits-bearer}
use pinterest_mcp_docker.Http.Routes.{
  Endpoint, route, mount, Entry, Router, is_plain, first_match, IsLawful, routes, pass_guard, serve,
  is_surface, is_oauth,
}
use pinterest_mcp_docker.Http.Routes.Entries.{below-probe, first_match-holds, routes-All}

-- Settings whose paths keep clear of the two probes.
pub record IsApart (s : Settings) : Type 0 where
  pub plain : is_plain s.path ≡ true
  pub plain_sse : is_plain s.sse_path ≡ true
  pub plain_message : is_plain s.message_path ≡ true
  pub path_apart : contains exempt s.path ≡ false
  pub sse_apart : contains exempt s.sse_path ≡ false
  pub path_below_root : rstrip s.path ≢ ""
  pub message_below_root : rstrip s.message_path ≢ ""

module _ (R : Router) (lawful : IsLawful R) (s : Settings) (apart : IsApart s)
    (method path : String) (probe : contains exempt path ≡ true) where
  abbrev Shut : Entry → Type 0
  Shut e = R.matches e.pattern method path ≡ true → is_surface e.endpoint ≡ false

  route-Shut :
      (p : String) (methods : List String)
      → is_plain p ≡ true
      → contains exempt p ≡ false
      → R.matches (route p methods) method path ≢ true
  route-Shut p methods plain outside h =
      let same : path ≡ p = lawful.route_path p methods method path plain h in
      let inside : contains exempt p ≡ true =
        subst (λ (q : String). contains exempt q ≡ true) same probe in
      cc (inside, outside)

  mount-Shut :
      (p : String) → is_plain p ≡ true → rstrip p ≢ "" → R.matches (mount p) method path ≢ true
  mount-Shut p plain root h =
      root (below-probe (rstrip p) path probe (sym (lawful.mount_below p method path plain) ∙ h))

  -- Nothing but the probes and the metadata answers at a path that needs no token.
  exempt-Shut : All Shut (routes R s)
  exempt-Shut =
      routes-All Shut R s ((λ h. refl), ((λ h. refl), tt))
        (
          (λ h. absurd (route-Shut s.path _ apart.plain apart.path_apart h)),
          ((λ h. absurd (mount-Shut s.path apart.plain apart.path_below_root h)), tt),
        )
        (
          (λ h. absurd (route-Shut s.sse_path _ apart.plain_sse apart.sse_apart h)),
          (
            (λ h.
                absurd (mount-Shut s.message_path apart.plain_message apart.message_below_root h)),
            tt,
          ),
        )
        (λ p h. refl)

-- In OAuth mode every endpoint of the protocol is guarded.
routes-guarded :
    (R : Router) (s : Settings) (method path : String)
    → effective_auth_mode s ≡ oauth
    → All
        (λ e.
          R.matches e.pattern method path ≡ true → is_surface e.endpoint ≡ true → e.guarded ≡ true)
        (routes R s)
routes-guarded R s method path mode =
    let on : is_oauth (effective_auth_mode s) ≡ true = ap is_oauth mode in
    routes-All _ R s ((λ h k. cc k), ((λ h k. cc k), tt)) ((λ h k. on), ((λ h k. on), tt))
      ((λ h k. on), ((λ h k. on), tt)) (λ p h k. cc k)

passed-inversion :
    (inside verified : Bool) (o : Option Entry) (e : Endpoint)
    → (if inside then pass_guard verified o else none) ≡ some e
    → (inside ≡ true)
      × (entry : Entry) × (o ≡ some entry)
      × (entry.endpoint ≡ e)
      × (entry.guarded && not verified ≡ false)
passed-inversion false verified o e h = cc h
passed-inversion true verified none e h = cc h
passed-inversion true verified (some entry) e h = (refl, entry, refl, ground arith, ground arith)

-- The settings of an authentication that a request has passed.
abbrev pub IsAuthenticated : Settings → Bool → Option String → Type 0
IsAuthenticated s verified header =
    (effective_auth_mode s ≡ unauthenticated)
    ⊎ ((token : String) × (s.auth_token ≡ some token) × (header ≡ some (bearer_header token)))
    ⊎ ((effective_auth_mode s ≡ oauth) × (verified ≡ true))

-- What is taken from the routes for a request that the guard in front admits.
module _ (R : Router) (lawful : IsLawful R) (s : Settings) (apart : IsApart s)
    (method path : String) (entry : Entry) (taken : R.handle (routes R s) method path ≡ some entry)
    (surface : is_surface entry.endpoint ≡ true) where
  found : first_match (λ p. R.matches p method path) (routes R s) ≡ some entry
  found = sym (lawful.takes_first (routes R s) method path) ∙ taken

  taken-outside : contains exempt path ≡ false
  taken-outside = elim (Bool-cases (contains exempt path)) [
    | inl probe ↦
        let shut : is_surface entry.endpoint ≡ false =
          first_match-holds (λ e. is_surface e.endpoint ≡ false) (λ p. R.matches p method path)
            (routes R s) entry (exempt-Shut R lawful s apart method path probe) found in
        cc (shut, surface)
    | inr outside ↦ outside
  ]

  taken-guarded : effective_auth_mode s ≡ oauth → entry.guarded ≡ true
  taken-guarded mode =
      first_match-holds (λ e. is_surface e.endpoint ≡ true → e.guarded ≡ true)
        (λ p. R.matches p method path) (routes R s) entry (routes-guarded R s method path mode)
        found surface

mode_unset :
    (s : Settings)
    → s.auth_token ≡ none
    → s.oauth_issuer ≡ none
    → effective_auth_mode s ≡ unauthenticated
unfolding effective_auth_mode
mode_unset s unset none_set = ground arith

mode_issuer :
    (s : Settings) (issuer : String)
    → s.auth_token ≡ none
    → s.oauth_issuer ≡ some issuer
    → effective_auth_mode s ≡ oauth
unfolding effective_auth_mode
mode_issuer s issuer unset given = ground arith

mode_token :
    (s : Settings) (token : String) → s.auth_token ≡ some token → effective_auth_mode s ≡ bearer
unfolding effective_auth_mode
mode_token s token set = ground arith

-- A request that reaches an endpoint of the protocol has been authenticated: where a shared token
-- is set, and is not empty, the request carries it; in OAuth mode its token was verified. The
-- settings' paths have no placeholders, and neither the streamable path nor the SSE path is that of
-- a probe, and neither the streamable nor the message path is the root.
pub serve-IsAuthenticated :
    (R : Router) (s : Settings) (verified : Bool) (method path : String) (header : Option String)
    (e : Endpoint)
    → IsLawful R
    → IsApart s
    → s.auth_token ≢ some ""
    → serve R s verified method path header ≡ some e
    → is_surface e ≡ true
    → IsAuthenticated s verified header
unfolding serve
serve-IsAuthenticated R s verified method path header e lawful apart full served surface =
    let (inside, entry, taken, same, passed) =
      passed-inversion (admits s path header) verified (R.handle (routes R s) method path) e
        served in
    let open_surface : is_surface entry.endpoint ≡ true = ap is_surface same ∙ surface in
    let outside = taken-outside R lawful s apart method path entry taken open_surface in
    let guarded = taken-guarded R lawful s apart method path entry taken open_surface in
    elim (Option-cases s.auth_token) [
      | inr (token, set) ↦ inr (
          inl (
            token,
            set,
            (admits-bearer s token path header set (λ e. full (set ∙ ap some e)) outside).0 inside,
          ))
      | inl unset ↦ elim (Option-cases s.oauth_issuer) [
        | inl none_set ↦ inl (mode_unset s unset none_set)
        | inr (issuer, given) ↦
            let mode = mode_issuer s issuer unset given in
            inr (inr (mode, (let on = guarded mode in ground arith)))
      ]
    ]
