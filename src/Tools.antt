-- ===== src/Tools.antt =====
-- src/pinterest_mcp/tools.py: the tools with their inputs, the constraints on these, and what each
-- handler calls. That pydantic reads the arguments of a call as the fields of an input, by their
-- types and with no others, is left to it (App); a negative page size is refused there too.
use pinterest_mcp_docker.Common.{
  ℕ, String, Bool, true, false, not, ◌&&◌, ◌||◌, Option, none, some, List, [], ◌∷◌, ◌==◌, all,
  codes, length, leb, string_eq, if◌then◌else◌,
}
use pinterest_mcp_docker.Persistence.Repository.{is_truthy}
use pinterest_mcp_docker.Client.Pins.{PinArgs, PinItem}

pub data Tool : Type 0 where
  create_pin update_pin delete_pin get_pin_analytics list_boards create_board : Tool
  get_board_pins search_pins get_account_analytics bulk_create_pins get_trending : Tool

pub record CreatePinInput : Type 0 where
  pub pin : PinArgs
  pub dry_run : Bool

pub record UpdatePinInput : Type 0 where
  pub pin_id : String
  pub title : Option String
  pub description : Option String
  pub link : Option String
  pub board_id : Option String

pub record DeletePinInput : Type 0 where
  pub pin_id : String

pub record GetPinAnalyticsInput : Type 0 where
  pub pin_id : String
  pub start_date : String
  pub end_date : String
  pub metrics : Option (List String)

pub record ListBoardsInput : Type 0 where
  pub privacy : String

pub record CreateBoardInput : Type 0 where
  pub name : String
  pub description : String
  pub privacy : String

pub record GetBoardPinsInput : Type 0 where
  pub board_id : String
  pub page_size : ℕ

pub record SearchPinsInput : Type 0 where
  pub query : String
  pub page_size : ℕ

pub record GetAccountAnalyticsInput : Type 0 where
  pub start_date : String
  pub end_date : String
  pub metrics : Option (List String)

pub record BulkCreatePinsInput : Type 0 where
  pub board_id : String
  pub pins : List PinItem
  pub dry_run : Bool

pub record GetTrendingInput : Type 0 where
  pub interest : String
  pub region : String

-- `spec.model`.
abbrev pub Input : Tool → Type 0
Input create_pin = CreatePinInput
Input update_pin = UpdatePinInput
Input delete_pin = DeletePinInput
Input get_pin_analytics = GetPinAnalyticsInput
Input list_boards = ListBoardsInput
Input create_board = CreateBoardInput
Input get_board_pins = GetBoardPinsInput
Input search_pins = SearchPinsInput
Input get_account_analytics = GetAccountAnalyticsInput
Input bulk_create_pins = BulkCreatePinsInput
Input get_trending = GetTrendingInput

-- `Field(min_length=…, max_length=…)`, in code points.
abbrev pub within : ℕ → ℕ → String → Bool
within least most s = leb least (length (codes s)) && leb (length (codes s)) most

abbrev pub within_some : ℕ → Option String → Bool
within_some most none = true
within_some most (some s) = within 0 most s

-- Exactly one image source.
abbrev pub check_image_source : Option String → Option String → Bool
check_image_source image_url image_path =
    (is_truthy image_url && not (is_truthy image_path))
    || (not (is_truthy image_url) && is_truthy image_path)

unfoldable pub is_pin_item : PinItem → Bool
is_pin_item i =
    within 1 100 i.title
    && within 0 800 i.description
    && within_some 2048 i.image_url
    && within_some 1024 i.image_path
    && within_some 2048 i.link
    && within_some 500 i.alt_text
    && check_image_source i.image_url i.image_path

abbrev pub few_metrics : Option (List String) → Bool
few_metrics none = true
few_metrics (some metrics) = leb (length metrics) 20

abbrev pub is_page_size : ℕ → Bool
is_page_size n = leb 1 n && leb n 250

-- The constraints of each input; `is_date` is whether `datetime.date.fromisoformat` accepts a text.
unfoldable pub is_valid : (String → Bool) → (t : Tool) → Input t → Bool
unfolding is_pin_item
is_valid is_date create_pin i =
    within 1 100 i.pin.board_id
    && within 1 100 i.pin.title
    && within 0 800 i.pin.description
    && within_some 2048 i.pin.image_url
    && within_some 1024 i.pin.image_path
    && within_some 2048 i.pin.link
    && within_some 500 i.pin.alt_text
    && check_image_source i.pin.image_url i.pin.image_path
is_valid is_date update_pin i =
    within 1 100 i.pin_id
    && within_some 100 i.title
    && within_some 800 i.description
    && within_some 2048 i.link
    && within_some 100 i.board_id
is_valid is_date delete_pin i = within 1 100 i.pin_id
is_valid is_date get_pin_analytics i =
    within 1 100 i.pin_id && is_date i.start_date && is_date i.end_date && few_metrics i.metrics
is_valid is_date list_boards i =
    i.privacy == "ALL" || i.privacy == "PUBLIC" || i.privacy == "SECRET"
is_valid is_date create_board i =
    within 1 100 i.name
    && within 0 500 i.description
    && (i.privacy == "PUBLIC" || i.privacy == "SECRET")
is_valid is_date get_board_pins i = within 1 100 i.board_id && is_page_size i.page_size
is_valid is_date search_pins i = within 1 200 i.query && is_page_size i.page_size
is_valid is_date get_account_analytics i =
    is_date i.start_date && is_date i.end_date && few_metrics i.metrics
is_valid is_date bulk_create_pins i =
    within 1 100 i.board_id
    && leb 1 (length i.pins)
    && leb (length i.pins) 50
    && all is_pin_item i.pins
is_valid is_date get_trending i = within 0 100 i.interest && within 0 10 i.region

pub record ToolSpec : Type 0 where
  pub name : String
  pub read_only : Bool
  pub destructive : Bool
  pub idempotent : Bool
  pub open_world : Bool

abbrev reads : String → Bool → ToolSpec
reads name open_world = record {
  name = name;
  read_only = true;
  destructive = false;
  idempotent = false;
  open_world = open_world;
}

abbrev writes : String → ToolSpec
writes name = record {
  name = name;
  read_only = false;
  destructive = false;
  idempotent = false;
  open_world = true;
}

-- The entries of `REGISTRY`, without their descriptions.
unfoldable pub spec : Tool → ToolSpec
spec create_pin = writes "create_pin"
spec update_pin = writes "update_pin"
spec delete_pin = record {
  name = "delete_pin";
  read_only = false;
  destructive = true;
  idempotent = true;
  open_world = false;
}
spec get_pin_analytics = reads "get_pin_analytics" false
spec list_boards = reads "list_boards" false
spec create_board = writes "create_board"
spec get_board_pins = reads "get_board_pins" false
spec search_pins = reads "search_pins" true
spec get_account_analytics = reads "get_account_analytics" false
spec bulk_create_pins = writes "bulk_create_pins"
spec get_trending = reads "get_trending" true

abbrev pub registry : List Tool
registry =
    create_pin ∷ update_pin ∷ delete_pin ∷ get_pin_analytics ∷ list_boards ∷ create_board
    ∷ get_board_pins ∷ search_pins ∷ get_account_analytics ∷ bulk_create_pins ∷ get_trending ∷ []

abbrev pub find_tool : String → List Tool → Option Tool
find_tool name [] = none
find_tool name (t ∷ ts) =
    let rest = find_tool name ts in if (spec t).name == name then some t else rest

-- `REGISTRY.get(name)`.
unfoldable pub tool_named : String → Option Tool
unfolding spec
tool_named name = find_tool name registry
