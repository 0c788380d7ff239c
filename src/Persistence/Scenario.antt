-- ===== src/Persistence/Scenario.antt =====
-- Concrete data for the tests of src/pinterest_mcp/persistence: a cipher that marks a text, a
-- library whose parser knows one text, and a login of one account.
use Prim.Native.String.{String, char_at}
use pinterest_mcp_docker.Common.{ℕ, ◌*◌, refl, Bool, true, false, none, some, []}
use pinterest_mcp_docker.Common.Int.{pos}
use pinterest_mcp_docker.Persistence.Models.{second, Store}
use pinterest_mcp_docker.Persistence.Cipher.{Cipher, IsLawful}
use pinterest_mcp_docker.Persistence.Session.{Result, ok, err, decryption}
use pinterest_mcp_docker.Persistence.Json.{int, text, dict, Fields, end, field}
use pinterest_mcp_docker.Persistence.Repository.{Credentials, Account}
use pinterest_mcp_docker.Persistence.Pending.Rows.{Library}
use pinterest_mcp_docker.Persistence.Pending.Validation.{Binding}

abbrev mark : String → String
mark plain = String.◌∷◌ (char_at "!" 0) plain

abbrev unmark : String → Result String
unmark String.[] = err (decryption "empty")
unmark (String.◌∷◌ c plain) = ok plain

abbrev pub toy_cipher : Cipher
toy_cipher = record {
  primary_key_id = "primary";
  encrypt = λ n plain owner account. ok (mark plain);
  decrypt = λ sealed owner account. unmark sealed;
}

abbrev is_marked : String → Bool
is_marked String.[] = false
is_marked (String.◌∷◌ c plain) = true

pub toy_cipher-IsLawful : IsLawful toy_cipher
toy_cipher-IsLawful = record {
  decrypt-encrypt = λ n plain owner account. (mark plain, refl, (λ h. cc h), refl);
}

abbrev pub at_second : ℕ → ℕ
at_second n = n * second

abbrev pub tokens : Fields
tokens = field "access_token" (text "acc") (
    field "refresh_token" (text "ref") (
      field "scope" (text "user_accounts:read") (
        field "expires_in" (int (pos 3600))
          (field "refresh_token_expires_in" (int (pos 86400)) end))))

abbrev pub digest64 : String
digest64 = "0123456789abcdef0123456789abcdef0123456789abcdef0123456789abcdef"

abbrev pub bound : Fields → Fields
bound rest = field "transaction_id" (text "t1") (
    field "issuer" (text "iss")
      (field "binding" (text digest64) (field "provider_account_id" (text "77") rest)))

abbrev pub stage_payload : Fields
stage_payload =
    field "action" (text "stage")
      (bound (field "expires_at" (int (pos 1200)) (field "tokens" (dict tokens) end)))

abbrev pub complete_payload : Fields
complete_payload = field "action" (text "complete") (bound (field "subject" (text "sub") end))

abbrev pub cancel_payload : Fields
cancel_payload = field "action" (text "cancel") (bound end)

abbrev pub the_binding : Binding
the_binding = record { transaction = "t1"; issuer = "iss"; binding = digest64; account = "77" }

abbrev pub toy_library : Library
toy_library = record {
  sha256 = λ t. t;
  dumps_sorted_compact = λ j. "compact";
  dumps_sorted = λ j. "sorted";
  dumps_compact = λ j. "staged";
  loads = λ t. some (dict stage_payload);
}

abbrev pub uuids : ℕ → ℕ
uuids n = n

abbrev pub no_rows : Store
no_rows = record {
  users = [];
  connections = [];
  receipts = [];
  operations = [];
  pendings = [];
  draws = 0;
}

abbrev pub grant : Credentials
grant = record {
  access_token = "a2";
  refresh_token = some "r2";
  access_token_expires_at = 0;
  refresh_token_expires_at = none;
}

abbrev pub no_account : Account
no_account = record { scopes = ""; account_username = none; account_type = none }
