-- ===== src/Persistence/Ingress/Payload.antt =====
-- src/pinterest_mcp/persistence/ingress.py: the payload of the handoff in one stage. Python's `str`
-- and `float` of a JSON value, in microseconds, are parameters. A column or a cipher that is given
-- another type than a text is a value error, found when the field is read.
use pinterest_mcp_docker.Common.{ℕ, String, not, ◌||◌, Option, none, some, List, ◌==◌, string_eq}
use pinterest_mcp_docker.Common.Int.{pos}
use pinterest_mcp_docker.Persistence.Session.{
  ingress_security, value_error, attribute_error, Result, ok, err,
}
use pinterest_mcp_docker.Persistence.Session.Results.{◌>>=◌, ◌>>◌, reject_if}
use pinterest_mcp_docker.Persistence.Json.{
  Json, null, int, text, dict, Fields, end, get, get_or, truthy,
}
use pinterest_mcp_docker.Persistence.Repository.{Account}

pub record Python : Type 0 where
  pub loads : List ℕ → Option Json
  pub str : Json → String
  pub float : Json → Result ℕ

-- What a payload holds, once it is complete.
pub record Handoff : Type 0 where
  pub transaction_id : String
  pub issuer : String
  pub subject : String
  pub provider_account_id : String
  pub access_token : String
  pub refresh_token : Option String
  pub expires_in : Json
  pub refresh_expires_in : Json
  pub account : Account

abbrev pub text_value : Json → Result String
text_value (text t) = ok t
text_value _ = err value_error

abbrev pub text_or_none : Json → Result (Option String)
text_or_none null = ok none
text_or_none (text t) = ok (some t)
text_or_none _ = err value_error

-- `value.get`, which only a dict has.
abbrev pub with_get : Json → Result Fields
with_get (dict fields) = ok fields
with_get _ = err attribute_error

-- Step 2: the fields of the payload.
unfoldable pub parse_handoff : Python → Json → Result Handoff
unfolding get get_or
parse_handoff py json = do
  payload ← with_get json
  let account = py.str (get_or "provider_account_id" payload (text ""))
  let tokens = get_or "tokens" payload (dict end)
  reject_if
      (not (truthy (get "transaction_id" payload))
        || not (truthy (get "issuer" payload))
        || not (truthy (get "subject" payload))
        || account == ""
        || not (truthy tokens))
      (ingress_security "Missing required fields in ingress payload")
  tokens ← with_get tokens
  reject_if (not (truthy (get "access_token" tokens)))
      (ingress_security "Missing access_token in token payload")
  transaction_id ← text_value (get "transaction_id" payload)
  issuer ← text_value (get "issuer" payload)
  subject ← text_value (get "subject" payload)
  access_token ← text_value (get "access_token" tokens)
  refresh_token ← text_or_none (get "refresh_token" tokens)
  scopes ← text_value (get_or "scope" tokens (text "boards:read pins:read"))
  username ← text_or_none (get "account_username" payload)
  kind ← text_or_none (get "account_type" payload)
  ok (record {
    transaction_id = transaction_id;
    issuer = issuer;
    subject = subject;
    provider_account_id = account;
    access_token = access_token;
    refresh_token = refresh_token;
    expires_in = get_or "expires_in" tokens (int (pos 3600));
    refresh_expires_in = get "refresh_token_expires_in" tokens;
    account = record { scopes = scopes; account_username = username; account_type = kind };
  })
