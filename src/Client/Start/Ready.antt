-- ===== src/Client/Start/Ready.antt =====
-- The readiness probe of src/pinterest_mcp/http_app.py and the client of src/pinterest_mcp/client.py.
use pinterest_mcp_docker.Common.{
  ℕ, ◌≡◌, ◌⊎◌, inl, inr, ap, ◌∙◌, String, true, false, Option, none, some, string_eq, arith,
  Bool-cases,
}
use pinterest_mcp_docker.Persistence.Repository.{is_truthy}
use pinterest_mcp_docker.Persistence.Session.{ok}
use pinterest_mcp_docker.Config.{Settings, is_hosted}
use pinterest_mcp_docker.Config.Derived.{pinterest_credentials_ready}
use pinterest_mcp_docker.Client.Tokens.{Client, Grant, before_margin, ensure_token}
use pinterest_mcp_docker.Persistence.Json.{Json}
use pinterest_mcp_docker.Client.Start.{
  Given, SavedTokens, readable, load_token_file, first_truthy, first_token, missing, direct,
  with_file, create_client,
}

or-second : (a b : Option String) → is_truthy b ≡ true → is_truthy (first_truthy a b) ≡ true
or-second a b h = ground arith

or-first : (a b : Option String) → is_truthy a ≡ true → is_truthy (first_truthy a b) ≡ true
or-first a b h = ground arith

token-setting : (a s v : Option String) → is_truthy s ≡ true → is_truthy (first_token a s v) ≡ true
token-setting a s v h = or-first (first_truthy a s) v (or-second a s h)

ready-inversion :
    (s : Settings)
    → is_hosted s ≡ false
    → pinterest_credentials_ready none s ≡ ok true
    → (is_truthy s.access_token ≡ true) ⊎ (is_truthy s.refresh_token ≡ true)
unfolding pinterest_credentials_ready
ready-inversion s local h = elim (Bool-cases (is_truthy s.access_token)) [
  | inl token ↦ inl token
  | inr unset ↦ elim (Bool-cases (is_truthy s.refresh_token)) [
    | inl token ↦ inr token
    | inr also ↦ absurd (ground arith)
  ]
]

without_file : (c : Client) → with_file missing c ≡ c
without_file c = elim (Bool-cases (is_truthy c.access_token)) [
  | inl set ↦ cc set
  | inr unset ↦ cc unset
]

-- In local mode and without a token file, a server that reports itself ready builds a client that
-- has an access token or a refresh token.
pub create_client-ready :
    (args env : Given) (s : Settings)
    → is_hosted s ≡ false
    → pinterest_credentials_ready none s ≡ ok true
    → let c = (create_client args env s missing).tokens in
      (is_truthy c.access_token ≡ true) ⊎ (is_truthy c.refresh_token ≡ true)
unfolding create_client
create_client-ready args env s local h = elim (ready-inversion s local h) [
  | inl token ↦ inl (
      ap (λ (c : Client). is_truthy c.access_token) (without_file (direct args env s))
      ∙ token-setting args.access_token s.access_token env.access_token token)
  | inr token ↦ inr (
      ap (λ (c : Client). is_truthy c.refresh_token) (without_file (direct args env s))
      ∙ token-setting args.refresh_token s.refresh_token env.refresh_token token)
]

first-unset :
    (a s v : Option String)
    → is_truthy a ≡ false
    → is_truthy s ≡ false
    → is_truthy v ≡ false
    → is_truthy (first_token a s v) ≡ false
first-unset a s v ha hs hv = ground arith

with-readable :
    (t : SavedTokens) (c : Client)
    → is_truthy c.access_token ≡ false
    → with_file (readable t) c ≡ load_token_file (readable t) c
with-readable t c unset = cc unset

still_ready :
    (token_file : Option Json) (s : Settings)
    → is_hosted s ≡ false
    → is_truthy s.refresh_token ≡ true
    → is_truthy s.client_id ≡ true
    → is_truthy s.client_secret ≡ true
    → pinterest_credentials_ready token_file s ≡ ok true
unfolding pinterest_credentials_ready
still_ready token_file s local refresh id secret = ground arith

no_token :
    (start now later e : ℕ) (answer : Option Grant) (c : Client)
    → c.token_expiry ≡ some e
    → before_margin start e ≡ false
    → c.refresh_token ≡ none
    → (ensure_token start now later answer c).0 ≡ none
unfolding ensure_token
no_token start now later e answer c expiry over gone = ground arith

-- In local mode, with a refresh token and the application's credentials in the settings and no
-- access token given anywhere, a token file without a refresh token takes the place of the one in
-- the settings: from a minute before the file's access token expires the server reports itself
-- ready, and getting a token raises, whatever the token endpoint would answer.
pub create_client-overwritten :
    (args env : Given) (s : Settings) (t : SavedTokens) (token_file : Option Json)
    (start now later e : ℕ) (answer : Option Grant)
    → is_hosted s ≡ false
    → is_truthy s.refresh_token ≡ true
    → is_truthy s.client_id ≡ true
    → is_truthy s.client_secret ≡ true
    → is_truthy args.access_token ≡ false
    → is_truthy s.access_token ≡ false
    → is_truthy env.access_token ≡ false
    → t.refresh_token ≡ none
    → t.expiry ≡ some e
    → before_margin start e ≡ false
    → (pinterest_credentials_ready token_file s ≡ ok true)
      × ((ensure_token start now later answer (create_client args env s (readable t)).tokens).0
          ≡ none)
unfolding create_client
create_client-overwritten args env s t token_file start now later e answer local refresh id secret
      ha hs hv gone expiry over =
    let loaded =
      with-readable t (direct args env s)
        (first-unset args.access_token s.access_token env.access_token ha hs hv) in
    (
      still_ready token_file s local refresh id secret,
      ap (λ c. (ensure_token start now later answer c).0) loaded
          ∙ no_token start now later e answer (load_token_file (readable t) (direct args env s))
              expiry over gone,
    )
