-- ===== src/Persistence/History/Examples.antt =====
-- The theorems on histories of src/pinterest_mcp/persistence at concrete histories.
use pinterest_mcp_docker.Common.{◌≡◌, refl, nat_eq, string_eq, option_eq, none, some, [], ◌∷◌}
use pinterest_mcp_docker.Common.Rows.{select}
use pinterest_mcp_docker.Persistence.Models.{
  PinterestConnection, ConnectionStatus, PendingCredential, PendingStatus, pending_status_eq,
  connection_status_eq, Store,
}
use pinterest_mcp_docker.Persistence.Session.{Error, err, owned_by, transact}
use pinterest_mcp_docker.Persistence.Repository.{disconnect_connection}
use pinterest_mcp_docker.Persistence.Pending.{process_pending, parse_action}
use pinterest_mcp_docker.Persistence.Pending.Validation.{binding_fields}
use pinterest_mcp_docker.Persistence.Pending.Rows.{expire_pending}
use pinterest_mcp_docker.Persistence.Pending.Complete.{cancel}
use pinterest_mcp_docker.Persistence.Invariant.{IsValid}
use pinterest_mcp_docker.Persistence.History.{History, done, then, request, expire, History-IsValid}
use pinterest_mcp_docker.Persistence.History.Final.{
  row_of, closed_is_final, never_completed, disconnected_never_completes,
}
use pinterest_mcp_docker.Persistence.Scenario.{
  toy_cipher, toy_library, uuids, no_rows, at_second, stage_payload, complete_payload,
  cancel_payload, the_binding,
}
use pinterest_mcp_docker.Persistence.Tests.{
  opened, staged, staged_has, complete_bound, complete_asks, no_rows-IsValid,
}

abbrev cancelled : Store
cancelled = (process_pending toy_library toy_cipher uuids (at_second 1050) cancel_payload staged).1

abbrev closed : PendingCredential
closed = record opened { encrypted_payload = none; status = PendingStatus.cancelled }

cancelled_has : row_of "t1" cancelled ≡ some closed
unfolding process_pending binding_fields string_eq nat_eq parse_action pending_status_eq cancel
cancelled_has = refl

-- The connection of the account of the login.
abbrev linked : PinterestConnection
linked = record {
  id = 4;
  owner_id = 1;
  provider_account_id = "77";
  account_username = none;
  account_type = none;
  encrypted_access_token = "!acc";
  encrypted_refresh_token = some "!ref";
  access_token_expires_at = at_second 4600;
  refresh_token_expires_at = some (at_second 87400);
  scopes = "user_accounts:read";
  key_id = "primary";
  credential_version = 1;
  status = ConnectionStatus.active;
}

-- A second login that has been staged while the account is connected.
abbrev reopened : Store
reopened = record staged { connections = linked ∷ [] }

reopened_linked : select (owned_by 1) reopened.connections ≡ some linked
unfolding nat_eq
reopened_linked = refl

disconnected_never_completes_example :
    (e : Error) × (process_pending toy_library toy_cipher uuids
        (at_second 1100)
        complete_payload
        (disconnect_connection 1 reopened).1
      ≡ (err e, (disconnect_connection 1 reopened).1))
disconnected_never_completes_example =
    disconnected_never_completes "t1" toy_library toy_cipher uuids 1 reopened
      (disconnect_connection 1 reopened).1 linked opened (at_second 1100) complete_payload
      the_binding reopened_linked staged_has refl refl done complete_bound refl complete_asks

expired_later :
    History toy_library toy_cipher uuids cancelled
      (transact (expire_pending (at_second 1300)) cancelled).1
expired_later = then done (expire (at_second 1300))

closed_is_final_example :
    row_of "t1" (transact (expire_pending (at_second 1300)) cancelled).1 ≡ some closed
closed_is_final_example =
    closed_is_final "t1" toy_library toy_cipher uuids cancelled
      (transact (expire_pending (at_second 1300)) cancelled).1 closed expired_later cancelled_has
      (λ h. cc h)

never_completed_example :
    (e : Error) × (process_pending toy_library toy_cipher uuids
        (at_second 1100)
        complete_payload
        (transact (expire_pending (at_second 1300)) cancelled).1
      ≡ (err e, (transact (expire_pending (at_second 1300)) cancelled).1))
never_completed_example =
    never_completed "t1" toy_library toy_cipher uuids cancelled
      (transact (expire_pending (at_second 1300)) cancelled).1 closed (at_second 1100)
      complete_payload the_binding expired_later cancelled_has (λ h. cc h) (λ h. cc h)
      complete_bound refl complete_asks

-- The store after a login, both requests in their own transactions.
abbrev first_login : Store
first_login =
    (transact (process_pending toy_library toy_cipher uuids (at_second 1000) stage_payload)
      no_rows).1

abbrev logged_in : Store
logged_in =
    (transact (process_pending toy_library toy_cipher uuids (at_second 1100) complete_payload)
      first_login).1

History-IsValid_example : IsValid logged_in
History-IsValid_example =
    History-IsValid toy_library toy_cipher uuids no_rows logged_in
      (then (then done (request (at_second 1000) stage_payload))
        (request (at_second 1100) complete_payload))
      no_rows-IsValid
