-- ===== src/Persistence/History.antt =====
-- The database over time (src/pinterest_mcp/persistence): a history is a sequence of committed or
-- rolled back sessions, each at its own clock. Sessions are serialised by the account lock and the
-- row locks of the source, so one is one step.
pub mod Final
mod Examples
use pinterest_mcp_docker.Common.{ℕ, ◌≡◌, refl, String, Option}
use pinterest_mcp_docker.Persistence.Models.{Store}
use pinterest_mcp_docker.Persistence.Cipher.{Cipher}
use pinterest_mcp_docker.Persistence.Json.{Fields}
use pinterest_mcp_docker.Persistence.Session.{transact}
use pinterest_mcp_docker.Persistence.Repository.{
  Credentials, disconnect_connection, update_tokens_versioned,
}
use pinterest_mcp_docker.Persistence.Pending.Rows.{Library, expire_pending}
use pinterest_mcp_docker.Persistence.Pending.{process_pending}
use pinterest_mcp_docker.Persistence.Invariant.{IsValid}
use pinterest_mcp_docker.Persistence.Invariant.Requests.{process_pending-IsValid}
use pinterest_mcp_docker.Persistence.Invariant.Methods.{
  expire_pending-IsValid, disconnect-IsValid, update_tokens-IsValid, transact-IsValid,
}
use pinterest_mcp_docker.Persistence.Invariant.Operations.{
  create_operation-IsValid, complete_operation-IsValid,
}
use pinterest_mcp_docker.Persistence.Repository.Operations.{create_operation, complete_operation}
use pinterest_mcp_docker.Persistence.Ingress.Payload.{Python, Handoff}
use pinterest_mcp_docker.Persistence.Ingress.Credential.{persist}
use pinterest_mcp_docker.Persistence.Ingress.Persisted.{persist-IsValid}

module _ (L : Library) (C : Cipher) (uuid4 : ℕ → ℕ) where
  -- One session: a handoff request, the cleanup, a disconnection, a renewal of tokens, a handoff in
  -- one stage, or the start or the end of an immediate operation.
  pub data Step (s : Store) : Store → Type 0 where
    request :
        (now : ℕ) (payload : Fields) → Step s (transact (process_pending L C uuid4 now payload) s).1
    expire : (now : ℕ) → Step s (transact (expire_pending now) s).1
    disconnect : (owner : ℕ) → Step s (transact (disconnect_connection owner) s).1
    renew :
        (owner version : ℕ) (t : Credentials)
        → Step s (transact (update_tokens_versioned C owner version t) s).1
    hand_over :
        (py : Python) (now at : ℕ) (hash : String) (h : Handoff)
        → Step s (transact (persist C py uuid4 now at hash h) s).1
    operate :
        (owner : ℕ) (key tool hash state : String)
        → Step s (transact (create_operation owner key tool hash state) s).1
    finish :
        (owner : ℕ) (key state : String) (response error : Option String)
        → Step s (transact (complete_operation owner key state response error) s).1

  pub data History (s : Store) : Store → Type 0 where
    done : History s s
    then : {t u : Store} → History s t → Step t u → History s u

  Step-IsValid : (s t : Store) → Step s t → IsValid s → IsValid t
  Step-IsValid s _ (request now payload) v =
      transact-IsValid (process_pending L C uuid4 now payload) s v
        (process_pending-IsValid L C uuid4 now payload s v)
  Step-IsValid s _ (expire now) v =
      transact-IsValid (expire_pending now) s v (expire_pending-IsValid now s v)
  Step-IsValid s _ (disconnect owner) v =
      transact-IsValid (disconnect_connection owner) s v (disconnect-IsValid owner s v)
  Step-IsValid s _ (renew owner version t) v =
      transact-IsValid (update_tokens_versioned C owner version t) s v
        (update_tokens-IsValid C owner version t s v)
  Step-IsValid s _ (hand_over py now at hash h) v =
      transact-IsValid (persist C py uuid4 now at hash h) s v
        (persist-IsValid C py uuid4 now at hash h s v)
  Step-IsValid s _ (operate owner key tool hash state) v =
      transact-IsValid (create_operation owner key tool hash state) s v
        (create_operation-IsValid owner key tool hash state s v)
  Step-IsValid s _ (finish owner key state response error) v =
      transact-IsValid (complete_operation owner key state response error) s v
        (complete_operation-IsValid owner key state response error s v)

  -- After every history of the sessions above from a valid database, each committed or rolled back,
  -- the database is valid: no two users share an id, an identity or an account, no two receipts or
  -- staged credentials a transaction, and no two operations a key; an owner has one connection, every
  -- connection and receipt is to the account of its owner, and ciphertext is staged exactly for the
  -- pending transactions.
  pub History-IsValid : (s t : Store) → History s t → IsValid s → IsValid t
  History-IsValid s t done v = v
  History-IsValid s t (then {t = u} h step) v = Step-IsValid u t step (History-IsValid s u h v)
