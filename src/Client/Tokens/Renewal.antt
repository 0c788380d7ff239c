-- ===== src/Client/Tokens/Renewal.antt =====
-- What the renewal of src/pinterest_mcp/client.py guarantees.
use pinterest_mcp_docker.Common.{
  ℕ, ◌+◌, ◌*◌, ◌<◌, ◌≡◌, ◌≢◌, ◌⊎◌, true, Option, none, some, string_eq, nat_eq, arith,
}
use pinterest_mcp_docker.Persistence.Models.{second}
use pinterest_mcp_docker.Client.Tokens.{Client, Grant, lifetime, refresh, ensure_token}

-- After a renewal, every request until a minute before the new token expires gets the new token
-- without another call of the endpoint; so a request that waited for the lock meanwhile does not
-- renew again.
pub refresh_once :
    (now later n : ℕ) (g : Grant) (c c' : Client) (start now' later' : ℕ) (answer : Option Grant)
    → refresh now later (some g) c ≡ (true, c')
    → c' ≢ c
    → g.access_token ≢ ""
    → lifetime g.expires_in ≡ some n
    → now' + 60 * second < later + n
    → start + 60 * second < later + n
    → (refresh now' later' answer c' ≡ (true, c'))
      × (ensure_token start now' later' answer c' ≡ (some g.access_token, c'))
unfolding ensure_token
refresh_once now later n g c c' start now' later' answer h changed full lasting ahead ahead' =
    ground arith

-- Where no token could be had, nothing was saved, unless the answer's token was empty.
pub ensure_token-failed :
    (start now later : ℕ) (answer : Option Grant) (c c' : Client)
    → ensure_token start now later answer c ≡ (none, c')
    → (c'.saved ≡ c.saved) ⊎ ((g : Grant) × (answer ≡ some g) × (g.access_token ≡ ""))
unfolding ensure_token
ensure_token-failed start now later answer c c' h = ground arith
