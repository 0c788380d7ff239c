-- ===== src/Persistence/Ingress/Examples.antt =====
-- The handoff in one stage of src/pinterest_mcp/persistence/ingress.py at one payload.
use pinterest_mcp_docker.Common.{◌≡◌, refl, nat_eq, string_eq, none, String}
use pinterest_mcp_docker.Common.Int.{pos}
use pinterest_mcp_docker.Persistence.Models.{Store}
use pinterest_mcp_docker.Persistence.Json.{int, null}
use pinterest_mcp_docker.Persistence.Session.{ok, add_user, add_connection, add_receipt}
use pinterest_mcp_docker.Persistence.Repository.{create_user, save_initial_connection, encrypt_pair}
use pinterest_mcp_docker.Persistence.Ingress.Payload.{Python, Handoff}
use pinterest_mcp_docker.Persistence.Ingress.Credential.{persisted, persist}
use pinterest_mcp_docker.Persistence.Ingress.Persisted.{persist-IsValid}
use pinterest_mcp_docker.Persistence.Invariant.{IsValid}
use pinterest_mcp_docker.Persistence.Tests.{no_rows-IsValid}
use pinterest_mcp_docker.Persistence.Scenario.{toy_cipher, uuids, no_rows, no_account}

abbrev python : Python
python = record { loads = λ body. none; str = λ j. "77"; float = λ j. ok 3600 }

abbrev handed : Handoff
handed = record {
  transaction_id = "t1";
  issuer = "iss";
  subject = "sub";
  provider_account_id = "77";
  access_token = "acc";
  refresh_token = none;
  expires_in = int (pos 3600);
  refresh_expires_in = null;
  account = no_account;
}

abbrev the_hash : String
the_hash = "hash"

abbrev kept : Store
kept = (persist toy_cipher python uuids 5 6 "hash" handed no_rows).1

persists :
    persist toy_cipher python uuids 5 6 "hash" handed no_rows ≡ (ok (persisted 0 1 "t1"), kept)
unfolding persist create_user add_user save_initial_connection encrypt_pair add_connection
    add_receipt nat_eq string_eq
persists = refl

persist-IsValid_example : IsValid kept
persist-IsValid_example =
    persist-IsValid toy_cipher python uuids 5 6 "hash" handed no_rows no_rows-IsValid
