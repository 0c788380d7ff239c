-- ===== src/Persistence/Repository/Examples.antt =====
-- The theorems on src/pinterest_mcp/persistence/repository.py at a small database.
use pinterest_mcp_docker.Common.{◌≡◌, refl, nat_eq, string_eq, none, some, [], ◌∷◌, arith}
use pinterest_mcp_docker.Persistence.Models.{
  ImmediateOperation, User, PinterestConnection, ConnectionStatus, Store,
}
use pinterest_mcp_docker.Persistence.Session.{add_operation, ok, add_connection}
use pinterest_mcp_docker.Persistence.Repository.{
  get_decrypted_tokens, save_initial_connection, reconnect_connection, update_tokens_versioned,
  disconnect_connection, encrypt_pair,
}
use pinterest_mcp_docker.Persistence.Repository.Renewal.{owners_isolated}
use pinterest_mcp_docker.Persistence.Repository.Operations.{create_operation}
use pinterest_mcp_docker.Persistence.Scenario.{toy_cipher, uuids, no_rows, grant, no_account}

abbrev owner : User
owner = record {
  id = 1;
  issuer = "iss";
  subject = "sub";
  provider_account_id = "77";
  lifecycle_status = "active";
}

abbrev linked : PinterestConnection
linked = record {
  id = 4;
  owner_id = 1;
  provider_account_id = "77";
  account_username = none;
  account_type = none;
  encrypted_access_token = "!acc";
  encrypted_refresh_token = some "!ref";
  access_token_expires_at = 9;
  refresh_token_expires_at = none;
  scopes = "";
  key_id = "primary";
  credential_version = 1;
  status = ConnectionStatus.active;
}

abbrev unlinked_store : Store
unlinked_store = record no_rows { users = owner ∷ []; draws = 2 }

abbrev linked_store : Store
linked_store = record unlinked_store { connections = linked ∷ [] }

abbrev saved : Store
saved = (save_initial_connection toy_cipher uuids 1 "77" grant no_account unlinked_store).1

abbrev first_connection : PinterestConnection
first_connection = record linked {
  encrypted_access_token = "!a2";
  encrypted_refresh_token = some "!r2";
  access_token_expires_at = 0;
}

saves :
    save_initial_connection toy_cipher uuids 1 "77" grant no_account unlinked_store
    ≡ (ok first_connection, saved)
unfolding save_initial_connection encrypt_pair add_connection nat_eq string_eq
saves = refl

abbrev again : Store
again = (reconnect_connection toy_cipher 1 "77" grant no_account linked_store).1

abbrev gone : Store
gone = (disconnect_connection 1 linked_store).1

abbrev renewed_store : Store
renewed_store = (update_tokens_versioned toy_cipher 1 1 grant linked_store).1

owners_isolated_example :
    ((get_decrypted_tokens toy_cipher 1
        (save_initial_connection toy_cipher uuids 2 "88" grant no_account linked_store).1).0
      ≡ (get_decrypted_tokens toy_cipher 1 linked_store).0)
    × ((get_decrypted_tokens toy_cipher 1
          (update_tokens_versioned toy_cipher 2 1 grant linked_store).1).0
        ≡ (get_decrypted_tokens toy_cipher 1 linked_store).0)
    × ((get_decrypted_tokens toy_cipher 1 (disconnect_connection 2 linked_store).1).0
        ≡ (get_decrypted_tokens toy_cipher 1 linked_store).0)
owners_isolated_example =
    owners_isolated toy_cipher uuids 2 1 1 "88" grant no_account linked_store (omega arith)

abbrev recorded : Store
recorded = (create_operation 1 "k" "create_pin" "h" "pending" unlinked_store).1

abbrev operation : ImmediateOperation
operation = record {
  operation_key = "k";
  owner_id = 1;
  tool_name = "create_pin";
  payload_hash = "h";
  dispatch_state = "pending";
  response_payload = none;
  error_message = none;
}

records :
    create_operation 1 "k" "create_pin" "h" "pending" unlinked_store ≡ (ok operation, recorded)
unfolding create_operation add_operation nat_eq string_eq
records = refl
