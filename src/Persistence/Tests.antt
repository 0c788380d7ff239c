-- ===== src/Persistence/Tests.antt =====
-- Runs of the handoff of src/pinterest_mcp/persistence/pending.py, and the theorems at them.
use pinterest_mcp_docker.Common.{
  ◌≡◌, refl, nat_eq, string_eq, option_eq, none, some, [], ◌∷◌, arith,
}
use pinterest_mcp_docker.Common.Rows.{select}
use pinterest_mcp_docker.Persistence.Json.{get}
use pinterest_mcp_docker.Persistence.Models.{
  PendingCredential, PendingStatus, pending_status_eq, connection_status_eq, Store,
}
use pinterest_mcp_docker.Persistence.Session.{
  ok, add_user, add_connection, add_receipt, add_pending, pending_of,
}
use pinterest_mcp_docker.Persistence.Repository.{create_user, encrypt_pair, save_initial_connection}
use pinterest_mcp_docker.Persistence.Pending.{process_pending, parse_action, staging, completing}
use pinterest_mcp_docker.Persistence.Pending.Validation.{
  binding_fields, validate_tokens, check_deadline, float_limit,
}
use pinterest_mcp_docker.Persistence.Pending.Rows.{reply}
use pinterest_mcp_docker.Persistence.Pending.Stage.{stage}
use pinterest_mcp_docker.Persistence.Pending.Complete.{complete, open_envelope}
use pinterest_mcp_docker.Persistence.Pending.Staging.{
  ProvisionsNothing, stage-ProvisionsNothing, stage_retry,
}
use pinterest_mcp_docker.Persistence.Pending.Transitions.{Later}
use pinterest_mcp_docker.Persistence.Pending.Lifecycle.{process_pending-Later}
use pinterest_mcp_docker.Persistence.Completion.Retry.{complete_retry}
use pinterest_mcp_docker.Persistence.Invariant.{IsValid}
use pinterest_mcp_docker.Persistence.History.Final.{row_of}
use pinterest_mcp_docker.Persistence.Scenario.{
  toy_cipher, toy_library, toy_cipher-IsLawful, uuids, no_rows, at_second, stage_payload,
  complete_payload, the_binding, digest64,
}

abbrev pub opened : PendingCredential
opened = record {
  transaction_id = "t1";
  issuer = "iss";
  binding = digest64;
  provider_account_id = "77";
  payload_hash = "compact";
  encrypted_payload = some "!staged";
  expires_at = at_second 1200;
  received_at = at_second 1000;
  expected_version = 0;
  status = PendingStatus.pending;
  completed_subject = none;
}

abbrev pub staged : Store
staged = record no_rows { pendings = opened ∷ []; draws = 1 }

stages :
    process_pending toy_library toy_cipher uuids (at_second 1000) stage_payload no_rows
    ≡ (ok (reply "staged" "t1"), staged)
unfolding process_pending nat_eq string_eq binding_fields parse_action stage validate_tokens
    check_deadline float_limit add_pending
stages = refl

abbrev completed : Store
completed =
    (process_pending toy_library toy_cipher uuids (at_second 1100) complete_payload staged).1

completes :
    process_pending toy_library toy_cipher uuids (at_second 1100) complete_payload staged
    ≡ (ok (reply "completed" "t1"), completed)
unfolding process_pending binding_fields string_eq nat_eq parse_action complete pending_status_eq
    open_envelope create_user add_user save_initial_connection encrypt_pair add_connection
    add_receipt
completes = refl

stage_bound : binding_fields stage_payload ≡ ok the_binding
unfolding binding_fields string_eq nat_eq
stage_bound = refl

pub complete_bound : binding_fields complete_payload ≡ ok the_binding
unfolding binding_fields string_eq nat_eq
complete_bound = refl

stage_asks : parse_action (get "action" stage_payload) ≡ ok staging
unfolding parse_action get string_eq
stage_asks = refl

pub complete_asks : parse_action (get "action" complete_payload) ≡ ok completing
unfolding parse_action get string_eq
complete_asks = refl

pub staged_has : select (pending_of "t1") staged.pendings ≡ some opened
unfolding string_eq
staged_has = refl

still_due : check_deadline (at_second 1010) (get "expires_at" stage_payload) ≡ ok (at_second 1200)
unfolding check_deadline get string_eq float_limit
still_due = refl

pub no_rows-IsValid : IsValid no_rows
no_rows-IsValid = record {
  users = record { ids = tt; identities = tt; accounts = tt };
  connections = record { owners = tt; linked = tt };
  receipts = tt;
  pendings = record { transactions = tt; sealed = tt };
  transactions = tt;
  operations = tt;
}

complete_retry_example :
    process_pending toy_library toy_cipher uuids (at_second 1150) complete_payload completed
    ≡ (ok (reply "completed" "t1"), completed)
complete_retry_example =
    complete_retry toy_library toy_cipher uuids toy_cipher-IsLawful (at_second 1100)
      (at_second 1150) complete_payload the_binding opened staged completed (reply "completed" "t1")
      complete_bound complete_asks staged_has refl completes (omega arith)

stage_retry_example :
    process_pending toy_library toy_cipher uuids (at_second 1010) stage_payload staged
    ≡ (ok (reply "staged" "t1"), staged)
stage_retry_example =
    stage_retry toy_library toy_cipher uuids (at_second 1000) (at_second 1010) stage_payload
      the_binding no_rows staged (reply "staged" "t1") (at_second 1200) stage_bound stage_asks refl
      stages still_due

stage-ProvisionsNothing_example :
    ProvisionsNothing no_rows
      (process_pending toy_library toy_cipher uuids (at_second 1000) stage_payload no_rows).1
stage-ProvisionsNothing_example =
    stage-ProvisionsNothing toy_library toy_cipher uuids (at_second 1000) stage_payload no_rows
      stage_asks

process_pending-Later_example : Later (row_of "t1" staged) (
    row_of "t1"
      (process_pending toy_library toy_cipher uuids (at_second 1100) complete_payload staged).1)
process_pending-Later_example =
    process_pending-Later toy_library toy_cipher uuids "t1" (at_second 1100) complete_payload staged
