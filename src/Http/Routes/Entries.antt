-- ===== src/Http/Routes/Entries.antt =====
-- Paths, and properties of every entry of the routes, for src/pinterest_mcp/http_app.py.
use Prim.Native.Char.{Char, code}
use Prim.Native.String.{char_at}
use mathlib.Core.Path.{subst}
use pinterest_mcp_docker.Common.{
  String, Bool, true, false, not, ◌&&◌, some, List, [], ◌∷◌, ◌==◌, ◌≡◌, inl, inr, refl, map,
  contains, nat_eq, string_eq, arith, All, All-append, if-All, map-All, Bool-cases,
}
use pinterest_mcp_docker.Config.{Settings, effective_auth_mode, is_sse}
use pinterest_mcp_docker.Http.{exempt}
use pinterest_mcp_docker.Http.Routes.{
  Pattern, Entry, Router, below, first_match, probes, streamable_routes, sse_routes, metadata_route,
  routes, has_streamable, is_oauth,
}

unfoldable slashless : String → Bool
slashless String.[] = true
slashless (String.◌∷◌ c s) = not (code c == b'/') && slashless s

below-slashless : (prefix path : String) → slashless path ≡ true → below prefix path ≡ false
unfolding below slashless
below-slashless String.[] String.[] h = refl
below-slashless String.[] (String.◌∷◌ d q) h = ground arith
below-slashless (String.◌∷◌ c s) String.[] h = refl
below-slashless (String.◌∷◌ c s) (String.◌∷◌ d q) h = ground (arith, below-slashless s q)

-- Nothing but the root is above a path with one slash.
below-single :
    (prefix rest : String) (c : Char)
    → slashless rest ≡ true
    → below prefix (String.◌∷◌ c rest) ≡ true
    → prefix ≡ ""
unfolding below
below-single String.[] rest c single h = refl
below-single (String.◌∷◌ d s) rest c single h = ground (arith, below-slashless s rest single)

pub below-probe :
    (prefix path : String) → contains exempt path ≡ true → below prefix path ≡ true → prefix ≡ ""
unfolding slashless nat_eq
below-probe prefix path e h = elim (string_eq.dec path "/healthz") [
  | yes health ↦
      below-single prefix "healthz" (char_at "/" 0) refl
        (subst (λ (p : String). below prefix p ≡ true) health h)
  | no other ↦ elim (string_eq.dec path "/readyz") [
    | yes ready ↦
        below-single prefix "readyz" (char_at "/" 0) refl
          (subst (λ (p : String). below prefix p ≡ true) ready h)
    | no neither ↦ ground arith
  ]
]

-- What holds of every entry that matches holds of the one that is taken.
pub first_match-holds :
    (Q : Entry → Type 0) (p : Pattern → Bool) (es : List Entry) (e : Entry)
    → All (λ e. p e.pattern ≡ true → Q e) es
    → first_match p es ≡ some e
    → Q e
unfolding first_match
first_match-holds Q p [] e all h = cc h
first_match-holds Q p (x ∷ es) e all h = elim (Bool-cases (p x.pattern)) [
  | inl taken ↦ let same : x ≡ e = ground arith in subst Q same (all.0 taken)
  | inr passed ↦ first_match-holds Q p es e all.1 (ground arith)
]

-- Every entry of the routes has a property that each has.
pub routes-All :
    (P : Entry → Type 0) (R : Router) (s : Settings)
    → All P probes
    → All P (streamable_routes (is_oauth (effective_auth_mode s)) s)
    → All P (sse_routes (is_oauth (effective_auth_mode s)) s)
    → ((path : String) → P (metadata_route path))
    → All P (routes R s)
unfolding routes
routes-All P R s probe stream events meta =
    let guarded = is_oauth (effective_auth_mode s) in
    All-append P probes _ probe (
      All-append P _ _ (if-All P (has_streamable s.transport) (streamable_routes guarded s) stream)
        (All-append P _ _ (if-All P (is_sse s.transport) (sse_routes guarded s) events) (
          if-All P guarded (map metadata_route (R.metadata_paths s))
            (map-All P metadata_route (R.metadata_paths s) meta))))
