-- ===== src/Auth/Examples.antt =====
-- Runs of the login helper of src/pinterest_mcp/auth.py.
use pinterest_mcp_docker.Common.{
  ℕ, ◌≡◌, ◌↔◌, ◌==◌, refl, String, Option, none, some, List, [], ◌∷◌, codes, string_eq,
  if◌then◌else◌, nat_eq,
}
use pinterest_mcp_docker.Auth.{UrlSplit, equal_codes, run_local_server}
use pinterest_mcp_docker.Auth.First.{IsFirst, run_local_server-IsFirst}

abbrev sent : List ℕ
sent = codes "/callback?code=c1&state=s1"

abbrev forged : List ℕ
forged = codes "/callback?code=c2&state=s2"

abbrev fields : String → String → String → Option String
fields code state name =
    if name == "code" then some code else if name == "state" then some state else none

-- A parser that knows two targets.
abbrev urlsplit : UrlSplit
urlsplit target =
    if equal_codes target sent
    then some (record { path = codes "/callback"; field = fields "c1" "s1" })
    else if equal_codes target forged
    then some (record { path = codes "/callback"; field = fields "c2" "s2" })
    else none

abbrev lines : List (List ℕ)
lines =
    codes "GET /callback?code=c2&state=s2 HTTP/1.1\r\n"
    ∷ codes "GET /favicon.ico HTTP/1.1\r\n"
    ∷ codes "GET /callback?code=c1&state=s1 HTTP/1.1\r\n"
    ∷ codes "GET /callback?code=c2&state=s1 HTTP/1.1\r\n"
    ∷ []

takes_the_first : run_local_server urlsplit "s1" lines ≡ some "c1"
unfolding run_local_server nat_eq string_eq
takes_the_first = refl

times_out : run_local_server urlsplit "s3" lines ≡ none
unfolding run_local_server nat_eq string_eq
times_out = refl

run_local_server-IsFirst_example :
    (run_local_server urlsplit "s1" lines ≡ some "c1") ↔ IsFirst urlsplit "s1" lines "c1"
run_local_server-IsFirst_example = run_local_server-IsFirst urlsplit "s1" lines "c1" refl
