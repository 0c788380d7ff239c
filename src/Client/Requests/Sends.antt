-- ===== src/Client/Requests/Sends.antt =====
-- What the requests of src/pinterest_mcp/client.py add to those that were sent.
use pinterest_mcp_docker.Common.{
  ◌+◌, String, Bool, true, false, Option, none, some, List, [], ◌∷◌, ◌++◌, ◌≡◌, refl, sym, ◌∙◌, All,
  append-nil,
}
use pinterest_mcp_docker.Persistence.Json.{Json, arr, dict}
use pinterest_mcp_docker.Client.Tokens.{Client, renews, ensure_token}
use pinterest_mcp_docker.Client.Requests.{
  Outcome, returned, raised, Request, Env, State, Sent, renewal, api, renewal_of, continue, send,
  request, items_of,
}

-- A request to the API has a property; a renewal is no such request.
abbrev pub On : (Request → Type 0) → Sent → Type 0
On P (renewal token) = Unit
On P (api token r) = P r

-- What was sent between two states, and that each request to the API of it has a property.
abbrev pub Sends : (Request → Type 0) → State → State → Type 0
Sends P s s' = (new : List Sent) × (s'.sent ≡ s.sent ++ new) × All (On P) new

pub nothing_sent : (P : Request → Type 0) (s s' : State) → s'.sent ≡ s.sent → Sends P s s'
nothing_sent P s s' same = ([], same ∙ sym (append-nil s.sent), tt)

send-Sends :
    (P : Request → Type 0) (E : Env) (req : Request) (renewed : Bool) (old : Client)
    (token : Option String × Client) (s : State)
    → P req
    → Sends P s (send E req (renewal_of renewed old) token s).1
send-Sends P E req true old (none, c) s h = (renewal old.refresh_token ∷ [], refl, (tt, tt))
send-Sends P E req false old (none, c) s h = ([], refl, tt)
send-Sends P E req true old (some token, c) s h =
    (renewal old.refresh_token ∷ api token req ∷ [], refl, (tt, (h, tt)))
send-Sends P E req false old (some token, c) s h = (api token req ∷ [], refl, (h, tt))

-- A request is sent once, or not at all, perhaps after a renewal.
pub request-Sends :
    (P : Request → Type 0) (E : Env) (req : Request) (s : State)
    → P req
    → Sends P s (request E req s).1
unfolding request
request-Sends P E req s h =
    send-Sends P E req (renews (E.clock s.readings) (E.clock (s.readings + 1)) s.client) s.client
      (ensure_token (E.clock s.readings) (E.clock (s.readings + 1)) (E.clock (s.readings + 2))
        (E.grant s.readings) s.client)
      s h

items-same : (j : Json) (s : State) → (items_of j s).1 ≡ s
items-same (dict fields) s = refl
items-same Json.null s = refl
items-same Json.non_finite s = refl
items-same (Json.bool b) s = refl
items-same (Json.int n) s = refl
items-same (Json.float x) s = refl
items-same (Json.text t) s = refl
items-same (arr xs) s = refl

-- The items of an answer need no request.
pub items-Sends :
    (P : Request → Type 0) (s : State) (r : Outcome Json × State)
    → Sends P s r.1
    → Sends P s (continue r items_of).1
items-Sends P s (returned j, t) h = rw (items-same j t) h
items-Sends P s (raised e, t) h = h
