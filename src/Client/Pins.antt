-- ===== src/Client/Pins.antt =====
-- src/pinterest_mcp/client.py: the operations on pins.
pub mod Bulk
use pinterest_mcp_docker.Common.{
  ℕ, String, Bool, true, false, not, ◌&&◌, Option, none, some, List, [], ◌∷◌, ◌<>◌, string_eq,
  if◌then◌else◌,
}
use pinterest_mcp_docker.Persistence.Json.{
  Json, bool, text, arr, dict, null, Items, nil, cons, Fields, end, field,
}
use pinterest_mcp_docker.Persistence.Repository.{is_truthy}
use pinterest_mcp_docker.Persistence.Encryption.Base64.{b64encode}
use pinterest_mcp_docker.Security.{Network, validate_public_url}
use pinterest_mcp_docker.Security.Local.{Files, resolve_local_image_path}
use pinterest_mcp_docker.Client.Requests.{
  Exception, security_error, other, Outcome, returned, raised, get, post, patch, delete, Request,
  Env, Act, pure, raise, ◌>>=◌, request, rate_limited_pin,
}

-- What the client is run on, and the settings that it reads; the exceptions of the checks are told
-- by what they refused.
pub record Host : Type 0 where
  pub network : Network
  pub files : Files
  pub url_error : String → Exception
  pub path_error : String → Exception
  pub read_error : String → Exception
  pub local_paths_enabled : Bool
  pub allowed_image_dir : String
  pub max_image_bytes : ℕ

-- The arguments of `create_pin`.
pub record PinArgs : Type 0 where
  pub board_id : String
  pub title : String
  pub description : String
  pub image_url : Option String
  pub image_path : Option String
  pub link : Option String
  pub alt_text : Option String

-- A pin of `bulk_create_pins`, which all go to one board.
pub record PinItem : Type 0 where
  pub title : String
  pub description : String
  pub image_url : Option String
  pub image_path : Option String
  pub link : Option String
  pub alt_text : Option String

abbrev pub pin_of : String → PinItem → PinArgs
pin_of board_id pin = record {
  board_id = board_id;
  title = pin.title;
  description = pin.description;
  image_url = pin.image_url;
  image_path = pin.image_path;
  link = pin.link;
  alt_text = pin.alt_text;
}

abbrev pub text_of : Option String → String
text_of none = ""
text_of (some t) = t

abbrev pub json_text : Option String → Json
json_text none = null
json_text (some t) = text t

abbrev pub url_source : String → Fields
url_source url = field "source_type" (text "image_url") (field "url" (text url) end)

abbrev pub base64_source : String → List ℕ → Fields
base64_source mime bytes =
    field "source_type" (text "image_base64")
      (field "content_type" (text mime) (field "data" (text (b64encode bytes)) end))

abbrev pub local_source : Host → String → Outcome Fields
local_source H path =
    if not H.local_paths_enabled
    then raised (security_error "Local image paths are disabled in HTTP transport mode.")
    else elim (resolve_local_image_path H.files path H.allowed_image_dir H.max_image_bytes) [
      | none ↦ raised (H.path_error path)
      | some (resolved, content_type) ↦ elim (H.files.read_bytes resolved) [
        | none ↦ raised (H.read_error path)
        | some img_bytes ↦ returned (base64_source content_type img_bytes)
      ]
    ]

abbrev pub remote_source : Host → String → Outcome Fields
remote_source H url = elim (validate_public_url H.network 0 url) [
  | none ↦ raised (H.url_error url)
  | some (validated_url, resolved_ip) ↦ returned (url_source validated_url)
]

-- The `media_source` of a pin: a local image goes before a remote one.
unfoldable pub media_source : Host → Option String → Option String → Outcome Fields
unfolding resolve_local_image_path validate_public_url
media_source H image_url image_path =
    if not (is_truthy image_url) && not (is_truthy image_path)
    then raised (other "ValueError")
    else if is_truthy image_path
    then local_source H (text_of image_path)
    else remote_source H (text_of image_url)

abbrev pub if_truthy : String → Option String → Fields
if_truthy key v = if is_truthy v then field key (text (text_of v)) end else end

abbrev pub append : Fields → Fields → Fields
append end fs = fs
append (field k v rest) fs = field k v (append rest fs)

abbrev pub payload : PinArgs → Fields → Fields
payload args media =
    append
      (field "board_id" (text args.board_id) (
        field "title" (text args.title)
          (field "description" (text args.description) (field "media_source" (dict media) end))))
      (append (if_truthy "link" args.link) (if_truthy "alt_text" args.alt_text))

-- The answer of a dry run.
abbrev pub validated : PinArgs → Json
validated args = dict (
    field "dry_run" (bool true) (
      field "status" (text "validated") (
        field "board_id" (text args.board_id) (
          field "title" (text args.title) (
            field "image_source"
              (json_text (if is_truthy args.image_path then args.image_path else args.image_url))
              (field "link" (json_text args.link) end))))))

abbrev pub lift : {A : Type 0} → Outcome A → Act A
lift o s = (o, s)

unfoldable pub create_pin : Env → Host → PinArgs → Bool → Act Json
unfolding media_source rate_limited_pin
create_pin E H args dry_run = lift (media_source H args.image_url args.image_path) >>= λ media.
    if dry_run then pure (validated args) else rate_limited_pin E (payload args media)

abbrev pub if_given : String → Option String → Fields
if_given key none = end
if_given key (some v) = field key (text v) end

unfoldable pub update_pin :
    Env → String → Option String → Option String → Option String → Option String → Act Json
unfolding request
update_pin E pin_id title description link board_id = request E (record {
  method = patch;
  path = "/pins/" <> pin_id;
  params = end;
  json = some (
      append (if_given "title" title) (
        append (if_given "description" description)
          (append (if_given "link" link) (if_given "board_id" board_id))));
})

unfoldable pub delete_pin : Env → String → Act Json
unfolding request
delete_pin E pin_id =
    request E (record { method = delete; path = "/pins/" <> pin_id; params = end; json = none })

-- `",".join(metrics)`.
abbrev pub join_commas : List String → String
join_commas [] = ""
join_commas (m ∷ []) = m
join_commas (m ∷ n ∷ ms) = m <> ("," <> join_commas (n ∷ ms))

abbrev pub metrics_or : List String → Option (List String) → String
metrics_or defaults none = join_commas defaults
metrics_or defaults (some metrics) = join_commas metrics

abbrev pub pin_metrics : List String
pin_metrics = "IMPRESSION" ∷ "SAVE" ∷ "PIN_CLICK" ∷ "OUTBOUND_CLICK" ∷ "ENGAGEMENT" ∷ []

unfoldable pub get_pin_analytics : Env → String → String → String → Option (List String) → Act Json
unfolding request
get_pin_analytics E pin_id start_date end_date metrics = request E (record {
  method = get;
  path = "/pins/" <> (pin_id <> "/analytics");
  params = field "start_date" (text start_date) (
      field "end_date" (text end_date) (
        field "metric_types" (text (metrics_or pin_metrics metrics))
          (field "app_types" (text "ALL") end)));
  json = none;
})

-- The loop of `bulk_create_pins`; an exception ends it, and the results so far are lost.
unfoldable pub create_all : Env → Host → String → List PinItem → Bool → Act Items
unfolding create_pin
create_all E H board_id [] dry_run = pure nil
create_all E H board_id (pin ∷ pins) dry_run =
    create_pin E H (pin_of board_id pin) dry_run >>= λ result.
    create_all E H board_id pins dry_run >>= λ results. pure (cons result results)

unfoldable pub bulk_create_pins : Env → Host → String → List PinItem → Bool → Act Json
unfolding create_all
bulk_create_pins E H board_id pins dry_run =
    create_all E H board_id pins dry_run >>= λ results. pure (arr results)
