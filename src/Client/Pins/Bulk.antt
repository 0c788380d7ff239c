-- ===== src/Client/Pins/Bulk.antt =====
-- What a successful `bulk_create_pins` of src/pinterest_mcp/client.py has sent.
use pinterest_mcp_docker.Common.{
  ℕ, suc, String, Bool, ◌==◌, string_eq, if◌then◌else◌, Option, none, some, List, [], ◌∷◌, ◌++◌,
  ◌≡◌,
}
use pinterest_mcp_docker.Persistence.Json.{
  Json, arr, text, dict, Fields, end, field, Items, nil, cons,
}
use pinterest_mcp_docker.Client.Tokens.{Client}
use pinterest_mcp_docker.Client.Requests.{
  Outcome, returned, raised, post, Request, Sent, renewal, api, renewal_of, State,
}
use pinterest_mcp_docker.Client.Pins.{Host, PinItem, media_source}

abbrev pub pin_request : Fields → Request
pin_request pin_data = record { method = post; path = "/pins"; params = end; json = some pin_data }

-- A text that is sent under a key unless it is missing or empty, before the rest.
abbrev pub given : String → Option String → Fields → Fields
given key none rest = rest
given key (some t) rest = if t == "" then rest else field key (text t) rest

-- The body of the request for a pin.
abbrev pub pin_body : String → PinItem → Fields → Fields
pin_body board_id pin media = field "board_id" (text board_id) (
    field "title" (text pin.title) (
      field "description" (text pin.description) (
        field "media_source" (dict media)
          (given "link" pin.link (given "alt_text" pin.alt_text end)))))

-- The requests are those of the pins, one each and in order, with renewals in between.
abbrev pub AreOf : Host → String → List PinItem → List Sent → Type 0
AreOf H board_id [] [] = Unit
AreOf H board_id [] (sent ∷ rest) = ⊥
AreOf H board_id (pin ∷ pins) [] = ⊥
AreOf H board_id (pin ∷ pins) (renewal token ∷ rest) = AreOf H board_id (pin ∷ pins) rest
AreOf H board_id (pin ∷ pins) (api token r ∷ rest) =
    ((media : Fields) × (media_source H pin.image_url pin.image_path ≡ returned media)
      × (r ≡ record {
        method = post;
        path = "/pins";
        params = end;
        json = some (pin_body board_id pin media);
      }))
    × AreOf H board_id pins rest

-- What was sent for a request that returned: the request, perhaps after a renewal.
abbrev Posted : Request → State → State → Type 0
Posted req s s' =
    (renewed : Bool) × (c : Client) × (token : String) × (s'.sent
      ≡ s.sent ++ (renewal_of renewed c ++ api token req ∷ []))

abbrev pub count : Items → ℕ
count nil = 0
count (cons j js) = suc (count js)

items_in : Outcome Items → ℕ
items_in (returned js) = count js
items_in (raised e) = 0

json_in : Outcome Json → Json
json_in (returned j) = j
json_in (raised e) = arr nil
