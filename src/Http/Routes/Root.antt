-- ===== src/Http/Routes/Root.antt =====
-- The streamable HTTP endpoint at the root path, for src/pinterest_mcp/http_app.py.
use pinterest_mcp_docker.Common.{
  String, Bool, true, false, Option, some, List, [], ◌∷◌, ◌++◌, ◌≡◌, inl, inr, refl, ap, ◌∙◌,
  nat_eq, string_eq, if◌then◌else◌, arith, Bool-cases,
}
use pinterest_mcp_docker.Config.{Settings, bearer, effective_auth_mode, is_sse}
use pinterest_mcp_docker.Config.Paths.{rstrip}
use pinterest_mcp_docker.Http.{admits}
use pinterest_mcp_docker.Http.Routes.{
  streamable, Pattern, route, mount, Entry, Router, is_plain, below, first_match, IsLawful, probes,
  streamable_routes, sse_routes, routes, serve, has_streamable, get_only,
}

-- The entry after three that do not match.
first_match-fourth :
    (p : Pattern → Bool) (a b c d : Entry) (es : List Entry)
    → p a.pattern ≡ false
    → p b.pattern ≡ false
    → p c.pattern ≡ false
    → p d.pattern ≡ true
    → first_match p (a ∷ b ∷ c ∷ d ∷ es) ≡ some d
unfolding first_match
first_match-fourth p a b c d es ha hb hc hd = ground arith

abbrev streamable_mount : Settings → Entry
streamable_mount s = record { pattern = mount s.path; guarded = false; endpoint = streamable }

-- The entries in front, with the streamable transport and a shared token.
routes-streamable :
    (R : Router) (s : Settings)
    → has_streamable s.transport ≡ true
    → effective_auth_mode s ≡ bearer
    → (rest : List Entry) × (routes R s ≡ probes ++ (streamable_routes false s ++ rest))
unfolding routes
routes-streamable R s transport mode =
    ((if is_sse s.transport then sse_routes false s else []) ++ [], rw (transport, mode))

admits-healthz :
    (s : Settings) (header : Option String)
    → effective_auth_mode s ≡ bearer
    → admits s "/healthz" header ≡ true
unfolding admits string_eq
admits-healthz s header mode = rw mode refl

module _ (R : Router) (lawful : IsLawful R) where
  post-get : (p : String) → R.matches (route p get_only) "POST" "/healthz" ≡ false
  unfolding string_eq
  post-get p = lawful.route_other p get_only "POST" "/healthz" refl refl

  root-route : (methods : List String) → R.matches (route "/" methods) "POST" "/healthz" ≡ false
  unfolding is_plain nat_eq
  root-route methods = elim (Bool-cases (R.matches (route "/" methods) "POST" "/healthz")) [
    | inl hit ↦ let same = lawful.route_path "/" methods "POST" "/healthz" refl hit in cc same
    | inr missed ↦ missed
  ]

  root-mount : R.matches (mount "/") "POST" "/healthz" ≡ true
  unfolding is_plain below rstrip nat_eq string_eq
  root-mount = lawful.mount_below "/" "POST" "/healthz" refl

-- With the streamable HTTP transport at the root path, a POST to "/healthz" reaches the protocol
-- with any header and none, although a shared token is set.
pub serve-root_healthz :
    (R : Router) (s : Settings) (verified : Bool) (header : Option String)
    → IsLawful R
    → s.path ≡ "/"
    → has_streamable s.transport ≡ true
    → effective_auth_mode s ≡ bearer
    → serve R s verified "POST" "/healthz" header ≡ some streamable
unfolding serve
serve-root_healthz R s verified header lawful root transport mode =
    let (rest, listed) = routes-streamable R s transport mode in
    let here : R.handle (routes R s) "POST" "/healthz" ≡ some (streamable_mount s) =
      lawful.takes_first (routes R s) "POST" "/healthz"
      ∙ ap (first_match (λ p. R.matches p "POST" "/healthz")) listed
      ∙ first_match-fourth (λ p. R.matches p "POST" "/healthz") _ _ _ (streamable_mount s) rest
          (post-get R lawful "/healthz") (post-get R lawful "/readyz")
          (rw root (root-route R lawful _)) (rw root (root-mount R lawful)) in
    rw (admits-healthz s header mode) (rw here refl)
