-- ===== src/Persistence/Pending/Rows.antt =====
-- src/pinterest_mcp/persistence/pending.py: the rows of the handoff, their expiry, and the
-- replies.
use pinterest_mcp_docker.Common.{
  ℕ, ◌+◌, String, Bool, not, ◌&&◌, Option, none, some, List, [], ◌∷◌, ◌==◌, string_eq, nat_eq,
  option_eq, if◌then◌else◌, leb,
}
use pinterest_mcp_docker.Common.Rows.{modify_row, update}
use pinterest_mcp_docker.Persistence.Models.{
  PinterestConnection, PendingCredential, PendingStatus, connection_status_eq, pending_status_eq,
}
use pinterest_mcp_docker.Persistence.Cipher.{OwnerId, pending_v1}
use pinterest_mcp_docker.Persistence.Session.{
  ingress_security, Session, pure, gets, write, raise_if, ◌>>=◌, ◌>>◌, pending_of,
}
use pinterest_mcp_docker.Persistence.Json.{Json}
use pinterest_mcp_docker.Persistence.Pending.Validation.{Binding}

-- The library calls of this module: SHA-256 in hexadecimal, and the JSON printer (keys sorted, with
-- compact and with default separators; keys as they stand, compact) and parser.
pub record Library : Type 0 where
  pub sha256 : String → String
  pub dumps_sorted_compact : Json → String
  pub dumps_sorted : Json → String
  pub dumps_compact : Json → String
  pub loads : String → Option Json

abbrev pub envelope_aad : PendingCredential → OwnerId
envelope_aad row = pending_v1 row.transaction_id row.issuer row.binding row.expires_at

-- `WHERE expires_at <= now AND status = 'pending'`.
abbrev pub is_overdue : ℕ → PendingCredential → Bool
is_overdue now r = leb r.expires_at now && r.status == PendingStatus.pending

abbrev pub expired_row : PendingCredential → PendingCredential
expired_row r = record r { encrypted_payload = none; status = PendingStatus.expired }

-- The rows that a bulk update changes.
unfoldable pub count_overdue : ℕ → List PendingCredential → ℕ
count_overdue now [] = 0
count_overdue now (r ∷ rs) = (if is_overdue now r then 1 else 0) + count_overdue now rs

unfoldable pub expire_pending : ℕ → Session ℕ
unfolding count_overdue
expire_pending now = do
  changed ← gets λ s. count_overdue now s.pendings
  write λ s. record s { pendings = update (is_overdue now) expired_row s.pendings }
  pure changed

pub record Reply : Type 0 where
  pub status : String
  pub transaction_id : String

abbrev pub reply : String → String → Reply
reply status transaction = record { status = status; transaction_id = transaction }

-- The row of a transaction must carry the issuer, binding and account of the request.
abbrev pub is_bound : Binding → PendingCredential → Bool
is_bound b row =
    row.issuer == b.issuer && row.binding == b.binding && row.provider_account_id == b.account

abbrev pub check_row : Binding → Option PendingCredential → Session (Unit {0})
check_row b none = pure tt
check_row b (some row) =
    raise_if (not (is_bound b row)) (ingress_security "Transaction binding mismatch")

abbrev pub version_of : Option PinterestConnection → ℕ
version_of none = 0
version_of (some c) = c.credential_version

-- The connection of an account, whoever owns it.
abbrev pub of_account : String → PinterestConnection → Bool
of_account account c = c.provider_account_id == account

-- An attribute write on the pending row of a transaction, and its flush.
unfoldable pub write_pending : String → (PendingCredential → PendingCredential) → Session (Unit {0})
write_pending transaction f =
    write λ s. record s { pendings = modify_row (pending_of transaction) f s.pendings }
