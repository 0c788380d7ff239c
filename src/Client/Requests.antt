-- ===== src/Client/Requests.antt =====
-- src/pinterest_mcp/client.py: the requests of a `PinterestClient`, over its tokens and its rate limit.
-- The clock, the token endpoint and the API are arguments: each reading of the clock and each answer
-- is the one with its number.
pub mod Sends
use pinterest_mcp_docker.Common.{
  ℕ, ◌+◌, String, Bool, true, false, Option, none, some, List, [], ◌∷◌, ◌++◌, length, ◌≡◌, ◌⊎◌,
  refl,
}
use pinterest_mcp_docker.Persistence.Json.{
  Json, arr, dict, Fields, nil, end, get_or, null, non_finite, bool, int, float, text,
}
use pinterest_mcp_docker.Client.Tokens.{Client, Grant, renews, ensure_token}
use pinterest_mcp_docker.Client.RateLimit.{recent}

-- A `SecurityError` with its message, or another exception with the name of its class.
pub data Exception : Type 0 where
  security_error : String → Exception
  other : String → Exception

pub data Outcome (A : Type 0) : Type 0 where
  returned : A → Outcome A
  raised : Exception → Outcome A

pub data Method : Type 0 where
  get post patch delete : Method

pub record Request : Type 0 where
  pub method : Method
  pub path : String
  pub params : Fields
  pub json : Option Fields

-- What the API does: an exception (a refused connection, or a status that `raise_for_status`
-- refuses), status 204, or a body, which may be no JSON.
pub data Answer : Type 0 where
  failed : String → Answer
  no_content : Answer
  content : Option Json → Answer

pub record Env : Type 0 where
  pub clock : ℕ → ℕ
  pub grant : ℕ → Option Grant
  -- The class of the exception where no token could be had.
  pub token_error : ℕ → String
  pub answer : ℕ → String → Request → Answer

-- What is sent: a renewal with its refresh token, to the token endpoint, or a request to the API with
-- its bearer token.
pub data Sent : Type 0 where
  renewal : Option String → Sent
  api : String → Request → Sent

-- The client and what it has sent.
pub record State : Type 0 where
  pub client : Client
  pub timestamps : List ℕ
  pub readings : ℕ
  pub sent : List Sent

abbrev pub Act : Type 0 → Type 0
Act A = State → Outcome A × State

module _ {A : Type 0} where
  abbrev pub pure : A → Act A
  pure a s = (returned a, s)

  abbrev pub raise : Exception → Act A
  raise e s = (raised e, s)

module _ {A B : Type 0} where
  abbrev pub continue : Outcome A × State → (A → Act B) → Outcome B × State
  continue (returned a, s) f = f a s
  continue (raised e, s) f = (raised e, s)

infixl 5 ◌>>=◌
abbrev pub ◌>>=◌ : {A B : Type 0} → Act A → (A → Act B) → Act B
◌>>=◌ m f s = continue (m s) f

abbrev pub outcome_of : Answer → Outcome Json
outcome_of (failed e) = raised (other e)
outcome_of no_content = returned (dict end)
outcome_of (content none) = raised (other "JSONDecodeError")
outcome_of (content (some j)) = returned j

abbrev pub renewal_of : Bool → Client → List Sent
renewal_of true c = renewal c.refresh_token ∷ []
renewal_of false c = []

-- The request with the token that `_ensure_token` gave, if it gave one, after the renewal that it
-- sent, if it sent one.
abbrev pub send : Env → Request → List Sent → Option String × Client → Act Json
send E req renewals (none, c) s = (
  raised (other (E.token_error s.readings)),
  record s { client = c; readings = s.readings + 3; sent = s.sent ++ renewals },
)
send E req renewals (some token, c) s = (
  outcome_of (E.answer (length s.sent) token req),
  record s {
    client = c;
    readings = s.readings + 3;
    sent = s.sent ++ (renewals ++ api token req ∷ []);
  },
)

-- `_request`.
unfoldable pub request : Env → Request → Act Json
unfolding ensure_token
request E req s =
    send E req
      (renewal_of (renews (E.clock s.readings) (E.clock (s.readings + 1)) s.client) s.client)
      (ensure_token (E.clock s.readings) (E.clock (s.readings + 1)) (E.clock (s.readings + 2))
        (E.grant s.readings) s.client)
      s

abbrev pub record_pin : Env → Outcome Json × State → Outcome Json × State
record_pin E (returned j, s) = (
  returned j,
  record s { timestamps = s.timestamps ++ E.clock s.readings ∷ []; readings = s.readings + 1 },
)
record_pin E (raised e, s) = (raised e, s)

-- `_rate_limited_pin`; its sleep (Client/RateLimit) only lets the clock run on.
unfoldable pub rate_limited_pin : Env → Fields → Act Json
unfolding request recent
rate_limited_pin E pin_data s = record_pin E (
    request E (record { method = post; path = "/pins"; params = end; json = some pin_data })
      (record s {
        timestamps = recent (E.clock s.readings) s.timestamps;
        readings = s.readings + 1;
      }))

-- `data.get("items", [])`; a value that is no object has no `get`.
abbrev pub items_of : Json → Act Json
items_of (dict fields) s = (returned (get_or "items" fields (arr nil)), s)
items_of _ s = (raised (other "AttributeError"), s)
