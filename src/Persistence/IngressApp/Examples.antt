-- ===== src/Persistence/IngressApp/Examples.antt =====
-- The handoff endpoint of src/pinterest_mcp/persistence/ingress_app.py at one signed request.
use pinterest_mcp_docker.Common.{
  ◌≤◌, ◌≡◌, ◌≢◌, refl, nat_eq, string_eq, some, [], ◌∷◌, String, arith, length, true,
}
use pinterest_mcp_docker.Common.Int.{pos}
use pinterest_mcp_docker.Common.Texts.{lower}
use pinterest_mcp_docker.Persistence.Session.{ok, transact, add_pending}
use pinterest_mcp_docker.Persistence.Json.{dict, Fields, get, text}
use pinterest_mcp_docker.Persistence.Pending.{process_pending, parse_action}
use pinterest_mcp_docker.Persistence.Pending.Rows.{reply, expire_pending}
use pinterest_mcp_docker.Persistence.Pending.Stage.{stage}
use pinterest_mcp_docker.Persistence.Pending.Staging.{ProvisionsNothing}
use pinterest_mcp_docker.Persistence.Pending.Validation.{
  binding_fields, validate_tokens, check_deadline, float_limit,
}
use pinterest_mcp_docker.Persistence.Ingress.Nonces.{consume_nonce, default_ttl}
use pinterest_mcp_docker.Persistence.Ingress.Nonces.Replay.{consume_all}
use pinterest_mcp_docker.Persistence.Ingress.Signature.{
  Hashing, finite, authenticate, authenticate_ingress, compute_hmac_signature,
}
use pinterest_mcp_docker.Persistence.Ingress.Accepted.{Signed, authenticate_ingress-replay}
use pinterest_mcp_docker.Persistence.IngressApp.{
  Incoming, accepted, invalid_handoff, Clocks, Service, World, parse_payload, signed_request,
  cleanup, handoff,
}
use pinterest_mcp_docker.Persistence.IngressApp.Outcomes.{handoff-refused, handoff-accepted}
use pinterest_mcp_docker.Persistence.Scenario.{
  toy_cipher, toy_library, uuids, no_rows, at_second, stage_payload,
}

abbrev hashing : Hashing
hashing = record {
  sha256 = λ body. "digest";
  hmac_sha256 = λ secret message. "sig";
  float = λ t. finite (pos (at_second 1000));
}

abbrev service : Service
service = record {
  hashing = hashing;
  library = toy_library;
  cipher = toy_cipher;
  uuid4 = uuids;
  json_loads = λ body. some (dict stage_payload);
  shared_secret = "secret";
  issuer = "iss";
}

abbrev signed : Incoming
signed = record {
  scheme = "https";
  query = "";
  method = "POST";
  headers = ("X-Signature", "sig") ∷ ("X-Timestamp", "1000") ∷ ("X-Nonce", "n1") ∷ [];
  body = [];
}

abbrev plain : Incoming
plain = record signed { scheme = "http" }

abbrev clocks : Clocks
clocks = record {
  freshness = at_second 1000;
  nonce = at_second 1000;
  cleanup = at_second 1000;
  request = at_second 1000;
}

abbrev world : World
world = record { store = no_rows; nonces = [] }

accepts : (handoff service clocks signed world).0 ≡ accepted (reply "staged" "t1")
unfolding handoff string_eq nat_eq lower authenticate_ingress authenticate compute_hmac_signature
    consume_nonce parse_payload transact process_pending binding_fields parse_action expire_pending
    stage validate_tokens check_deadline float_limit add_pending
accepts = refl

refuses : (handoff service clocks plain world).0 ≡ invalid_handoff
unfolding handoff string_eq
refuses = refl

handoff-refused_example : ProvisionsNothing no_rows (handoff service clocks plain world).1.store
handoff-refused_example = handoff-refused service clocks plain world (λ r h. cc (refuses, h))

handoff-accepted_example :
    (signed.scheme ≡ "https")
    × (signed.query ≡ "")
    × (length signed.body ≤ 65536)
    × ((nonce : String) × Signed hashing "secret" (signed_request signed) (at_second 1000) nonce)
    × (payload : Fields) × (service.json_loads [] ≡ some (dict payload))
    × (get "issuer" payload ≡ text service.issuer)
    × (process_pending toy_library toy_cipher uuids
          (at_second 1000)
          payload
          (cleanup service (at_second 1000) no_rows)
        ≡ (ok (reply "staged" "t1"), (handoff service clocks signed world).1.store))
handoff-accepted_example =
    handoff-accepted service clocks signed world (reply "staged" "t1") accepts

authenticates :
    (authenticate_ingress hashing "secret"
      (signed_request signed)
      (at_second 1000)
      (at_second 1000)
      []).0
    ≡ ok tt
unfolding authenticate_ingress authenticate compute_hmac_signature consume_nonce string_eq nat_eq
    lower
authenticates = refl

authenticate_ingress-replay_example :
    (authenticate_ingress hashing "secret"
      (signed_request signed)
      (at_second 1200)
      (at_second 1200)
      (consume_all
        ((at_second 1100, "n2") ∷ [])
        default_ttl
        (authenticate_ingress hashing "secret"
          (signed_request signed)
          (at_second 1000)
          (at_second 1000)
          []).1)).0
    ≢ ok tt
authenticate_ingress-replay_example =
    authenticate_ingress-replay hashing "secret" (signed_request signed) (at_second 1000)
      (at_second 1000) (at_second 1200) (at_second 1200) ((at_second 1100, "n2") ∷ []) []
      (omega arith) (omega arith) authenticates (omega arith, tt)

first_use : (consume_nonce 0 "n1" 100 []).0 ≡ true
unfolding consume_nonce
first_use = refl
