-- ===== src/Client/Boards.antt =====
-- src/pinterest_mcp/client.py: boards, search, and the analytics of the account.
use pinterest_mcp_docker.Common.{ℕ, String, Option, none, some, List, [], ◌∷◌, ◌<>◌}
use pinterest_mcp_docker.Common.Int.{pos}
use pinterest_mcp_docker.Persistence.Json.{Json, text, int, Fields, end, field}
use pinterest_mcp_docker.Client.Requests.{get, post, Env, Act, ◌>>=◌, request, items_of}
use pinterest_mcp_docker.Client.Pins.{metrics_or}

unfoldable pub list_boards : Env → String → Act Json
unfolding request
list_boards E privacy =
    request E (record {
      method = get;
      path = "/boards";
      params = field "privacy" (text privacy) end;
      json = none;
    })
    >>= items_of

unfoldable pub create_board : Env → String → String → String → Act Json
unfolding request
create_board E name description privacy = request E (record {
  method = post;
  path = "/boards";
  params = end;
  json = some (
      field "name" (text name)
        (field "description" (text description) (field "privacy" (text privacy) end)));
})

abbrev pub page : ℕ → Fields
page page_size = field "page_size" (int (pos page_size)) end

unfoldable pub get_board_pins : Env → String → ℕ → Act Json
unfolding request
get_board_pins E board_id page_size =
    request E (record {
      method = get;
      path = "/boards/" <> (board_id <> "/pins");
      params = page page_size;
      json = none;
    })
    >>= items_of

unfoldable pub search_pins : Env → String → ℕ → Act Json
unfolding request
search_pins E query page_size =
    request E (record {
      method = get;
      path = "/search/pins";
      params = field "query" (text query) (page page_size);
      json = none;
    })
    >>= items_of

abbrev pub account_metrics : List String
account_metrics = "IMPRESSION" ∷ "SAVE" ∷ "OUTBOUND_CLICK" ∷ "PIN_CLICK" ∷ "ENGAGEMENT" ∷ []

unfoldable pub get_account_analytics : Env → String → String → Option (List String) → Act Json
unfolding request
get_account_analytics E start_date end_date metrics = request E (record {
  method = get;
  path = "/user_account/analytics";
  params = field "start_date" (text start_date) (
      field "end_date" (text end_date)
        (field "metric_types" (text (metrics_or account_metrics metrics)) end));
  json = none;
})

unfoldable pub get_trending : Env → String → String → Act Json
unfolding request
get_trending E interest region = request E (record {
  method = get;
  path = "/trends/keywords";
  params = field "interests" (text interest) (field "region" (text region) end);
  json = none;
})
