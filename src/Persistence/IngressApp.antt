-- ===== src/Persistence/IngressApp.antt =====
-- src/pinterest_mcp/persistence/ingress_app.py: the handoff endpoint of the private ingress, over
-- the database and the nonce store. `clocks` are its four clock readings, in order. Cancellation
-- of the maintenance task, routing and TLS are the server's.
pub mod Outcomes
mod Examples
use pinterest_mcp_docker.Common.{
  ℕ, String, Bool, true, false, not, ◌&&◌, ◌||◌, Option, none, some, List, [], ◌∷◌, ◌==◌, contains,
  length, map, string_eq, if◌then◌else◌, ltb,
}
use pinterest_mcp_docker.Common.Texts.{lower}
use pinterest_mcp_docker.Persistence.Models.{Store}
use pinterest_mcp_docker.Persistence.Cipher.{Cipher}
use pinterest_mcp_docker.Persistence.Session.{
  Error, ingress_security, value_error, type_error, Result, ok, err, Session, transact,
}
use pinterest_mcp_docker.Persistence.Json.{Json, text, dict, Fields, get}
use pinterest_mcp_docker.Persistence.Pending.{process_pending}
use pinterest_mcp_docker.Persistence.Pending.Rows.{Library, Reply, expire_pending}
use pinterest_mcp_docker.Persistence.Ingress.Nonces.{Nonces}
use pinterest_mcp_docker.Persistence.Ingress.Signature.{Hashing, Request, authenticate_ingress}

abbrev pub ingress_path : String
ingress_path = "/internal/credential-ingress"

-- An incoming HTTP request: scheme, query, and the headers as they were sent.
pub record Incoming : Type 0 where
  pub scheme : String
  pub query : String
  pub method : String
  pub headers : List (String × String)
  pub body : List ℕ

pub data Response : Type 0 where
  accepted : Reply → Response
  invalid_handoff too_large handoff_unavailable : Response

pub record Clocks : Type 0 where
  pub freshness : ℕ
  pub nonce : ℕ
  pub cleanup : ℕ
  pub request : ℕ

pub record Service : Type 0 where
  pub hashing : Hashing
  pub library : Library
  pub cipher : Cipher
  pub uuid4 : ℕ → ℕ
  pub json_loads : List ℕ → Option Json
  pub shared_secret : String
  pub issuer : String

-- `create_credential_ingress` refuses an empty secret or issuer.
unfoldable pub create_credential_ingress : Service → Result Service
create_credential_ingress v =
    if v.shared_secret == "" || v.issuer == "" then err value_error else ok v

pub record World : Type 0 where
  pub store : Store
  pub nonces : Nonces

-- The `except` clauses.
abbrev pub respond : Error → Response
respond (ingress_security message) = invalid_handoff
respond value_error = invalid_handoff
respond type_error = invalid_handoff
respond _ = handoff_unavailable

abbrev pub repeats : List String → Bool
repeats [] = false
repeats (name ∷ names) = contains names name || repeats names

abbrev pub issuer_mismatch : Result Fields
issuer_mismatch = err (ingress_security "Issuer mismatch")

abbrev pub check_issuer : Service → Fields → Json → Result Fields
check_issuer v payload (text issuer) = if issuer == v.issuer then ok payload else issuer_mismatch
check_issuer v payload _ = issuer_mismatch

abbrev pub payload_of : Service → Option Json → Result Fields
payload_of v none = err value_error
payload_of v (some (dict payload)) = check_issuer v payload (get "issuer" payload)
payload_of v (some _) = issuer_mismatch

-- The payload of a body: a dict with the configured issuer.
unfoldable pub parse_payload : Service → List ℕ → Result Fields
unfolding get
parse_payload v body = payload_of v (v.json_loads body)

abbrev pub signed_request : Incoming → Request
signed_request req = record {
  method = req.method;
  path = ingress_path;
  headers = req.headers;
  body = req.body;
}

abbrev pub answer : Result Reply × Store → Nonces → Response × World
answer (ok r, s) n = (accepted r, record { store = s; nonces = n })
answer (err e, s) n = (respond e, record { store = s; nonces = n })

module _ (v : Service) where
  -- `cleanup`: expiry in a transaction of its own.
  unfoldable pub cleanup : ℕ → Store → Store
  cleanup now s = (transact (expire_pending now) s).1

  -- After authentication.
  unfoldable pub process : Clocks → List ℕ → World → Response × World
  unfolding cleanup
  process clocks body w = elim (parse_payload v body) [
    | err e ↦ (respond e, w)
    | ok payload ↦
        answer
          (transact (process_pending v.library v.cipher v.uuid4 clocks.request payload)
            (cleanup clocks.cleanup w.store))
          w.nonces
  ]

  abbrev pub continue_authenticated :
      Clocks → List ℕ → Store → Result (Unit {0}) × Nonces → Response × World
  continue_authenticated clocks body s (err e, n) = (respond e, record { store = s; nonces = n })
  continue_authenticated clocks body s (ok _, n) =
      process clocks body (record { store = s; nonces = n })

  unfoldable pub handoff : Clocks → Incoming → World → Response × World
  unfolding process
  handoff clocks req w =
      if not (req.scheme == "https") || not (req.query == "")
      then (invalid_handoff, w)
      else if repeats (map (λ (k, _). lower k) req.headers)
      then (invalid_handoff, w)
      else if ltb 65536 (length req.body)
      then (too_large, w)
      else continue_authenticated clocks req.body w.store (
          authenticate_ingress v.hashing v.shared_secret (signed_request req) clocks.freshness
            clocks.nonce w.nonces)
