-- ===== src/App.antt =====
-- src/pinterest_mcp/app.py: the process-wide client, `call_tool` and the handler of `tools/call`;
-- and `sanitize_error` of src/pinterest_mcp/security.py. A text that `json.dumps` writes and
-- `json.loads` reads is given by its JSON value.
pub mod Calls
pub mod Flags
mod Examples
use pinterest_mcp_docker.Common.{
  ℕ, String, Bool, true, false, ◌&&◌, ◌||◌, Option, none, some, List, [], ◌∷◌, ◌==◌, ◌<>◌,
  string_eq, if◌then◌else◌,
}
use pinterest_mcp_docker.Persistence.Json.{
  Json, null, non_finite, bool, int, float, text, arr, dict, Fields, end, field,
}
use pinterest_mcp_docker.Client.Requests.{
  Exception, security_error, other, Outcome, returned, raised, Env, State, Act,
}
use pinterest_mcp_docker.Client.Pins.{Host}
use pinterest_mcp_docker.Client.Pins
use pinterest_mcp_docker.Client.Boards
use pinterest_mcp_docker.Tools.{
  Tool, create_pin, update_pin, delete_pin, get_pin_analytics, list_boards, create_board,
  get_board_pins, search_pins, get_account_analytics, bulk_create_pins, get_trending, Input,
  is_valid, tool_named,
}

-- `sanitize_error`: the fields "category" and "message".
abbrev pub failure : String → String → Json
failure category message =
    dict (field "category" (text category) (field "message" (text message) end))

unfoldable pub sanitize_error : Exception → Json
sanitize_error (security_error message) = failure "security_error" message
sanitize_error (other exc_type) =
    failure "error"
      ("An operation failed due to a " <> (exc_type <> ". Details have been logged securely."))

-- The handlers of `REGISTRY`.
unfoldable pub handler : Env → Host → (t : Tool) → Input t → Act Json
unfolding Pins.create_pin Pins.update_pin Pins.delete_pin Pins.get_pin_analytics
    Pins.bulk_create_pins Boards.list_boards Boards.create_board Boards.get_board_pins
    Boards.search_pins Boards.get_account_analytics Boards.get_trending
handler E H create_pin i = Pins.create_pin E H i.pin i.dry_run
handler E H update_pin i = Pins.update_pin E i.pin_id i.title i.description i.link i.board_id
handler E H delete_pin i = Pins.delete_pin E i.pin_id
handler E H get_pin_analytics i =
    Pins.get_pin_analytics E i.pin_id i.start_date i.end_date i.metrics
handler E H list_boards i = Boards.list_boards E i.privacy
handler E H create_board i = Boards.create_board E i.name i.description i.privacy
handler E H get_board_pins i = Boards.get_board_pins E i.board_id i.page_size
handler E H search_pins i = Boards.search_pins E i.query i.page_size
handler E H get_account_analytics i =
    Boards.get_account_analytics E i.start_date i.end_date i.metrics
handler E H bulk_create_pins i = Pins.bulk_create_pins E H i.board_id i.pins i.dry_run
handler E H get_trending i = Boards.get_trending E i.interest i.region

-- What pydantic makes of the arguments by their types, the test of a date, and `repr` of a name;
-- and what `PinterestClient()` does.
pub record Runtime : Type 0 where
  pub parse : (t : Tool) → Fields → Option (Input t)
  pub is_date : String → Bool
  pub repr : String → String
  pub new_client : Outcome State

-- `spec.model(**arguments)`; none is a ValidationError.
unfoldable pub model_of : Runtime → (t : Tool) → Fields → Option (Input t)
unfolding is_valid
model_of R t arguments = elim (R.parse t arguments) [
  | none ↦ none
  | some input ↦ if is_valid R.is_date t input then some input else none
]

-- `_client`, which is made at the first use.
abbrev pub get_client : Runtime → Option State → Outcome State
get_client R none = R.new_client
get_client R (some s) = returned s

-- The exceptions of a handler are answered; the client stays.
abbrev pub answer_of : Outcome Json × State → Outcome Json × Option State
answer_of (returned result, s) = (returned result, some s)
answer_of (raised exc, s) = (returned (sanitize_error exc), some s)

abbrev pub run_handler :
    Env → Host → (t : Tool) → Input t → Option State → Outcome State → Outcome Json × Option State
run_handler E H t input client (raised exc) = (raised exc, client)
run_handler E H t input client (returned s) = answer_of (handler E H t input s)

abbrev pub call_model :
    Runtime
    → Env
    → Host
    → String
    → (t : Tool) → Option State
    → Option (Input t)
    → Outcome Json × Option State
call_model R E H name t client none = (
  returned (sanitize_error (security_error ("Invalid arguments for tool " <> R.repr name))),
  client,
)
call_model R E H name t client (some input) = run_handler E H t input client (get_client R client)

abbrev pub call_spec :
    Runtime
    → Env
    → Host
    → String
    → Fields
    → Option State
    → Option Tool
    → Outcome Json × Option State
call_spec R E H name arguments client none = (
  returned (sanitize_error (security_error ("Unknown or unadvertised tool: " <> R.repr name))),
  client,
)
call_spec R E H name arguments client (some t) =
    call_model R E H name t client (model_of R t arguments)

-- `call_tool`, over the process-wide client.
unfoldable pub call_tool :
    Runtime → Env → Host → String → Fields → Option State → Outcome Json × Option State
call_tool R E H name arguments client = call_spec R E H name arguments client (tool_named name)

abbrev pub has_key : String → Fields → Bool
has_key key end = false
has_key key (field name v rest) = name == key || has_key key rest

abbrev pub has_category : Json → Bool
has_category (dict fields) = has_key "category" fields
has_category _ = false

pub record CallToolResult : Type 0 where
  pub content : Json
  pub is_error : Bool

abbrev pub flagged : Outcome Json × Option State → Outcome CallToolResult × Option State
flagged (returned payload, client) =
    (returned (record { content = payload; is_error = has_category payload }), client)
flagged (raised exc, client) = (raised exc, client)

-- `_handle_call_tool`.
unfoldable pub handle_call_tool :
    Runtime → Env → Host → String → Fields → Option State → Outcome CallToolResult × Option State
handle_call_tool R E H name arguments client = flagged (call_tool R E H name arguments client)
