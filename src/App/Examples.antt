-- ===== src/App/Examples.antt =====
-- Calls of tools at a concrete client, for src/pinterest_mcp/app.py, tools.py and client.py.
use pinterest_mcp_docker.Common.{
  String, true, false, ◌≡◌, refl, Option, none, some, List, [], ◌∷◌, string_eq,
}
use pinterest_mcp_docker.Persistence.Json.{Json, text, dict, Fields, end, field}
use pinterest_mcp_docker.Security.{Network, Address, failed}
use pinterest_mcp_docker.Security.Local.{Files}
use pinterest_mcp_docker.Client.Requests.{security_error, other, returned, content, Env, State}
use pinterest_mcp_docker.Client.Requests.Sends.{Sends}
use pinterest_mcp_docker.Client.Pins.{Host, PinItem, PinArgs}
use pinterest_mcp_docker.Client.Pins
use pinterest_mcp_docker.Tools.{Tool, create_pin, delete_pin, list_boards, Input, tool_named, spec}
use pinterest_mcp_docker.App.{Runtime, handler, model_of, call_tool}
use pinterest_mcp_docker.App.Calls.{IsGet, call_tool-read_only, call_tool-dry_run}

abbrev outside : Address
outside = record {
  is_loopback = false;
  is_private = false;
  is_link_local = false;
  is_multicast = false;
  is_reserved = false;
  is_unspecified = false;
  is_global = true;
}

abbrev network : Network
network = record {
  urlparse = λ url. record {
    scheme = "https";
    hostname = some "example.com";
    bad_port = false;
    port = none;
  };
  urljoin = λ base location. location;
  ip_address = λ ip. some outside;
  getaddrinfo = λ hop host port. some ("93.184.216.34" ∷ []);
  get = λ hop url. failed;
}

abbrev files : Files
files = record {
  resolve_strict = λ path. none;
  resolve = λ path. [];
  stat_size = λ path. none;
  header = λ path. none;
  read_bytes = λ path. none;
}

abbrev host : Host
host = record {
  network = network;
  files = files;
  url_error = λ url. security_error url;
  path_error = λ path. security_error path;
  read_error = λ path. other "OSError";
  local_paths_enabled = false;
  allowed_image_dir = "/images";
  max_image_bytes = 100;
}

-- The API answers each request with an object that has a category.
abbrev pinned : Json
pinned = dict (field "id" (text "1") (field "category" (text "art") end))

abbrev env : Env
env = record {
  clock = λ n. n;
  grant = λ n. none;
  token_error = λ n. "RuntimeError";
  answer = λ n token r. content (some pinned);
}

abbrev start : State
start = record {
  client = record {
    access_token = some "t";
    refresh_token = none;
    token_expiry = none;
    saved = none;
  };
  timestamps = [];
  readings = 0;
  sent = [];
}

abbrev item : String → PinItem
item title = record {
  title = title;
  description = "";
  image_url = some "https://example.com/a.png";
  image_path = none;
  link = none;
  alt_text = none;
}

abbrev parse : (t : Tool) → Fields → Option (Input t)
parse create_pin fs = some (record { pin = Pins.pin_of "b" (item "one"); dry_run = true })
parse delete_pin fs = some (record { pin_id = "7" })
parse list_boards fs = some (record { privacy = "ALL" })
parse _ fs = none

abbrev runtime : Runtime
runtime = record { parse = parse; is_date = λ s. true; repr = λ s. s; new_client = returned start }

named_list : tool_named "list_boards" ≡ some list_boards
unfolding tool_named string_eq
named_list = refl

reads_list : (spec list_boards).read_only ≡ true
unfolding spec
reads_list = refl

call_tool-read_only_example :
    (s' : State) × ((call_tool runtime env host "list_boards" end (some start)).1 ≡ some s')
    × Sends IsGet start s'
call_tool-read_only_example =
    call_tool-read_only runtime env host "list_boards" end start list_boards named_list reads_list

named_create : tool_named "create_pin" ≡ some create_pin
unfolding tool_named string_eq
named_create = refl

abbrev dry_input : Input create_pin
dry_input = record { pin = Pins.pin_of "b" (item "one"); dry_run = true }

valid_create : model_of runtime create_pin end ≡ some dry_input
unfolding model_of string_eq
valid_create = refl

call_tool-dry_run_example :
    (call_tool runtime env host "create_pin" end (some start)).1 ≡ some start
call_tool-dry_run_example =
    call_tool-dry_run runtime env host "create_pin" end start create_pin dry_input named_create
      valid_create refl

abbrev delete_input : Input delete_pin
delete_input = record { pin_id = "7" }

abbrev deleted : State
deleted = (handler env host delete_pin delete_input start).1

abbrev two : List PinItem
two = item "one" ∷ item "two" ∷ []

abbrev done : State
done = (Pins.bulk_create_pins env host "b" two false start).1
