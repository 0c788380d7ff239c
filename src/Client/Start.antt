-- ===== src/Client/Start.antt =====
-- src/pinterest_mcp/client.py: the construction of a client from its arguments, the settings, the
-- environment and the token file. A token file holds texts and a time, as it is saved.
pub mod Ready
mod Examples
use pinterest_mcp_docker.Common.{
  ℕ, String, Bool, true, false, not, ◌&&◌, ◌||◌, Option, none, some, List, [], ◌∷◌, ◌==◌, string_eq,
  if◌then◌else◌,
}
use pinterest_mcp_docker.Persistence.Repository.{is_truthy}
use pinterest_mcp_docker.Config.{Settings}
use pinterest_mcp_docker.Client.Tokens.{Client}

-- What is there under a name: the argument, the variable of the environment.
pub record Given : Type 0 where
  pub client_id : Option String
  pub client_secret : Option String
  pub access_token : Option String
  pub refresh_token : Option String

-- `a or b`.
abbrev pub first_truthy : Option String → Option String → Option String
first_truthy a b = if is_truthy a then a else b

-- The text of a secret of the settings, where the settings hold one.
abbrev pub or_empty : Option String → Option String
or_empty none = some ""
or_empty (some t) = some t

-- `a or (settings or "") or os.environ.get(name, "")`.
abbrev pub first_text : Option String → Option String → Option String → Option String
first_text a setting variable = first_truthy (first_truthy a (or_empty setting)) (or_empty variable)

-- `a or settings or os.environ.get(name)`.
abbrev pub first_token : Option String → Option String → Option String → Option String
first_token a setting variable = first_truthy (first_truthy a setting) variable

-- The token file: not there, not readable as a dict, or a dict; the expiry is `get("expiry", 0)`,
-- with none for a null.
pub record SavedTokens : Type 0 where
  pub access_token : Option String
  pub refresh_token : Option String
  pub expiry : Option ℕ

pub data TokenFile : Type 0 where
  missing unreadable : TokenFile
  readable : SavedTokens → TokenFile

-- `_load_token_file`, where an exception is logged only.
abbrev pub load_token_file : TokenFile → Client → Client
load_token_file missing c = c
load_token_file unreadable c = c
load_token_file (readable t) c = record c {
  access_token = t.access_token;
  refresh_token = t.refresh_token;
  token_expiry = t.expiry;
}

abbrev pub direct : Given → Given → Settings → Client
direct args env s = record {
  access_token = first_token args.access_token s.access_token env.access_token;
  refresh_token = first_token args.refresh_token s.refresh_token env.refresh_token;
  token_expiry = none;
  saved = none;
}

pub record Built : Type 0 where
  pub client_id : Option String
  pub client_secret : Option String
  pub tokens : Client

abbrev pub with_file : TokenFile → Client → Client
with_file file c = if is_truthy c.access_token then c else load_token_file file c

-- `PinterestClient.__init__`.
unfoldable pub create_client : Given → Given → Settings → TokenFile → Built
create_client args env s file = record {
  client_id = first_text args.client_id s.client_id env.client_id;
  client_secret = first_text args.client_secret s.client_secret env.client_secret;
  tokens = with_file file (direct args env s);
}
