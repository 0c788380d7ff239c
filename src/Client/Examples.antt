-- ===== src/Client/Examples.antt =====
-- The theorems on src/pinterest_mcp/client.py at concrete clients.
use Prim.Native.String.{String}
use pinterest_mcp_docker.Common.{
  ◌*◌, ◌+◌, ◌≡◌, ◌≢◌, refl, true, Option, none, some, [], arith, string_eq,
}
use pinterest_mcp_docker.Persistence.Models.{second}
use pinterest_mcp_docker.Client.Tokens.{Client, Grant, granted, refresh, ensure_token}
use pinterest_mcp_docker.Client.Tokens.Renewal.{refresh_once}

abbrev stale : Client
stale = record {
  access_token = some "old";
  refresh_token = some "r";
  token_expiry = some 0;
  saved = none;
}

abbrev answer : Grant
answer = record {
  access_token = "new";
  refresh_token = none;
  expires_in = some (some 3600);
  saves = true;
}

abbrev fresh : Client
fresh = granted (5 + 3600 * second) answer stale

renews : refresh 1 5 (some answer) stale ≡ (true, fresh)
unfolding refresh string_eq
renews = refl

fails : ensure_token 0 1 5 none stale ≡ (none, stale)
unfolding ensure_token string_eq
fails = refl

changed : fresh ≢ stale
changed h = cc h

abbrev starts : String → Option String
starts String.[] = none
starts (String.◌∷◌ c s) = some s

full : answer.access_token ≢ ""
full h = cc h

refresh_once_example :
    (refresh 1000 1000 none fresh ≡ (true, fresh))
    × (ensure_token 1000 1000 1000 none fresh ≡ (some "new", fresh))
refresh_once_example =
    refresh_once 1 5 (3600 * second) answer stale fresh 1000 1000 1000 none renews changed full refl
      (omega arith) (omega arith)
