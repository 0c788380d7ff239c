-- ===== src/Persistence/Pending.antt =====
-- src/pinterest_mcp/persistence/pending.py: the two-stage credential handoff. `process_pending` is
-- one session; `now` is the clock as it is read after the account lock has been obtained.
pub mod Validation
pub mod Rows
pub mod Stage
pub mod Complete
pub mod Requests
pub mod Provisioning
pub mod Staging
pub mod Transitions
pub mod Lifecycle
use pinterest_mcp_docker.Common.{
  ℕ, ◌+◌, String, Bool, true, false, not, ◌&&◌, ◌||◌, Option, none, some, List, [], ◌∷◌, ◌==◌,
  string_eq, nat_eq, option_eq, if◌then◌else◌, leb,
}
use pinterest_mcp_docker.Common.Rows.{select, modify_row, update}
use pinterest_mcp_docker.Persistence.Models.{
  User, PinterestConnection, ConnectionStatus, PendingCredential, PendingStatus,
  connection_status_eq, pending_status_eq,
}
use pinterest_mcp_docker.Persistence.Cipher.{Cipher, OwnerId, pending_v1}
use pinterest_mcp_docker.Persistence.Session.{
  Error, ingress_security, value_error, type_error, Result, ok, err, Session, pure, raise, lift,
  gets, write, raise_if, draw, ◌>>=◌, ◌>>◌, receipt_of, pending_of, add_receipt, add_pending,
}
use pinterest_mcp_docker.Persistence.Json.{Json, null, text, arr, Fields, dict, get}
use pinterest_mcp_docker.Persistence.Pending.Validation.{
  Binding, required_text, binding_fields, validate_tokens, check_deadline, as_dict, as_text,
  as_seconds, index,
}
use pinterest_mcp_docker.Persistence.Repository.{
  Credentials, Account, get_by_issuer_subject, get_by_provider_account, get_for_owner, create_user,
  save_initial_connection,
}
use pinterest_mcp_docker.Persistence.Pending.Rows.{
  Library, envelope_aad, Reply, reply, version_of, of_account, write_pending, check_row,
}
use pinterest_mcp_docker.Persistence.Pending.Stage.{stage}
use pinterest_mcp_docker.Persistence.Pending.Complete.{unavailable, cancel, complete}

-- The action of a request: anything else is refused.
pub data Action : Type 0 where
  staging completing cancelling : Action

action_of : String → Result Action
action_of name =
    if name == "stage"
    then ok staging
    else if name == "complete"
    then ok completing
    else if name == "cancel"
    then ok cancelling
    else err (ingress_security "Invalid handoff action")

-- A list or a dict cannot be looked up in a set.
unfoldable pub parse_action : Json → Result Action
unfolding action_of
parse_action (text name) = action_of name
parse_action (arr items) = err type_error
parse_action (dict fields) = err type_error
parse_action _ = err (ingress_security "Invalid handoff action")

module _ (L : Library) (C : Cipher) (uuid4 : ℕ → ℕ) (now : ℕ) where
  -- The branch of the action, once the row has been found and checked.
  unfoldable pub dispatch : Action → Binding → Fields → Option PendingCredential → Session Reply
  dispatch staging b payload row = stage L C now b payload row
  dispatch cancelling b payload none = raise unavailable
  dispatch cancelling b payload (some row) = cancel b row
  dispatch completing b payload none = raise unavailable
  dispatch completing b payload (some row) = complete L C uuid4 now b payload row

  unfoldable pub process_pending : Fields → Session Reply
  unfolding dispatch get
  process_pending payload = do
    b ← lift (binding_fields payload)
    action ← lift (parse_action (get "action" payload))
    row ← gets λ s. select (pending_of b.transaction) s.pendings
    check_row b row
    dispatch action b payload row
