-- ===== src/Logging/Examples.antt =====
-- Records of src/pinterest_mcp/logging_setup.py at concrete texts.
use mathlib.Core.Option
use pinterest_mcp_docker.Common.{
  ℕ, ◌≡◌, ◌≢◌, ◌⊎◌, ◌∷◌, [], ℕ, none, refl, ap, ◌==◌, String, Bool, true, false, none, some, ◌++◌,
  codes, nat_eq, string_eq,
}
use pinterest_mcp_docker.Logging.Redaction.{Text, redact}
use pinterest_mcp_docker.Logging.{
  LogRecord, rendered, filter, format_text, structured, plain, handle,
}
use pinterest_mcp_docker.Logging.Emitted.{traced, Shows, handle-redact}

abbrev no_letters : ℕ → Bool
no_letters c = false

bearer : redact no_letters (codes "Bearer abcdefgh1 ok") ≡ codes "Bearer [REDACTED] ok"
unfolding redact nat_eq
bearer = refl

short_bearer : redact no_letters (codes "bearer abc") ≡ codes "bearer abc"
unfolding redact nat_eq
short_bearer = refl

header : redact no_letters (codes "Set-Cookie: sid") ≡ codes "Set-Cookie=[REDACTED]"
unfolding redact nat_eq
header = refl

secret_field : redact no_letters (codes "{'API_KEY': 'k'}") ≡ codes "{API_KEY=[REDACTED]'}"
unfolding redact nat_eq
secret_field = refl

token : redact no_letters (codes "pina_0123456789abcdef") ≡ codes "[REDACTED]"
unfolding redact nat_eq
token = refl

-- The pattern for headers ends a value at the first space.
basic_header :
    redact no_letters (codes "Authorization: Basic dXNlcg==")
    ≡ codes "Authorization=[REDACTED] dXNlcg=="
unfolding redact nat_eq
basic_header = refl

second_cookie : redact no_letters (codes "Cookie: a=1; sid=2") ≡ codes "Cookie=[REDACTED] sid=2"
unfolding redact nat_eq
second_cookie = refl

abbrev head : String → String → Text
head level name = codes "E: "

abbrev failure : LogRecord
failure = record {
  level = "ERROR";
  name = "pinterest_mcp";
  msg = codes "failed %s";
  args = some (some (codes "failed password=p"));
  exc_info = some (codes "api_key=k");
  exc_text = none;
  stack_info = none;
}

as_text :
    handle no_letters head "text" failure
    ≡ plain (some (codes "E: failed password=[REDACTED]\napi_key=k"))
unfolding handle filter format_text redact string_eq nat_eq
as_text = refl

abbrev secret : Text
secret = b'k' ∷ codes "=1"

abbrev failure_line : Text
failure_line = codes "E: " ++ redact no_letters (rendered failure)

text_other : ◌≢◌ {A = String} "text" "json"
unfolding string_eq
text_other e = let unlike : false ≡ true = ap (λ s. ◌==◌ {A = String} s "json") e in cc unlike

handle-redact_example :
    (handle no_letters head "json" failure
      ≡ structured (
          some (record {
            level = "ERROR";
            logger = "pinterest_mcp";
            msg = redact no_letters (rendered failure);
            exc = Option.map (redact no_letters) failure.exc_info;
          })))
    × (handle no_letters head "text" (traced none none none failure) ≡ plain (some failure_line))
    × ((redact no_letters secret ≡ [])
        ⊎ Shows failure_line
            (redact no_letters secret)
            (handle no_letters head "text" (traced failure.exc_info (some secret) none failure)))
    × Shows failure_line secret
        (handle no_letters head "text" (traced (some secret) none none failure))
    × Shows failure_line secret
        (handle no_letters head "text" (traced none none (some secret) failure))
handle-redact_example = handle-redact no_letters head "text" failure b'k' (codes "=1") text_other
