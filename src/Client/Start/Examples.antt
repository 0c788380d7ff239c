-- ===== src/Client/Start/Examples.antt =====
-- A client of src/pinterest_mcp/client.py whose token file has no refresh token.
use pinterest_mcp_docker.Common.{◌≡◌, refl, true, none, some, string_eq, nat_eq}
use pinterest_mcp_docker.Persistence.Session.{ok}
use pinterest_mcp_docker.Persistence.Repository.{is_truthy}
use pinterest_mcp_docker.Config.{Settings}
use pinterest_mcp_docker.Config.Derived.{pinterest_credentials_ready}
use pinterest_mcp_docker.Http.Routes.Examples.{served}
use pinterest_mcp_docker.Client.Tokens.{ensure_token}
use pinterest_mcp_docker.Client.Start.{Given, SavedTokens, missing, readable, create_client}
use pinterest_mcp_docker.Client.Start.Ready.{create_client-overwritten}

abbrev nothing : Given
nothing = record {
  client_id = none;
  client_secret = none;
  access_token = none;
  refresh_token = none;
}

abbrev configured : Settings
configured = record served {
  client_id = some "id";
  client_secret = some "secret";
  refresh_token = some "r";
}

abbrev once : SavedTokens
once = record { access_token = some "a"; refresh_token = none; expiry = some 1000 }

keeps_setting : (create_client nothing nothing configured missing).tokens.refresh_token ≡ some "r"
unfolding create_client string_eq
keeps_setting = refl

has_refresh : is_truthy configured.refresh_token ≡ true
unfolding string_eq
has_refresh = refl

has_id : is_truthy configured.client_id ≡ true
unfolding string_eq
has_id = refl

has_secret : is_truthy configured.client_secret ≡ true
unfolding string_eq
has_secret = refl

create_client-overwritten_example :
    (pinterest_credentials_ready none configured ≡ ok true)
    × ((ensure_token 2000 2001 2002 none
          (create_client nothing nothing configured (readable once)).tokens).0
        ≡ none)
create_client-overwritten_example =
    create_client-overwritten nothing nothing configured once none 2000 2001 2002 1000 none refl
      has_refresh has_id has_secret refl refl refl refl refl refl
