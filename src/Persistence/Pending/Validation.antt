-- ===== src/Persistence/Pending/Validation.antt =====
-- The checks of src/pinterest_mcp/persistence/pending.py on a parsed request.
use Prim.Native.Nat.{◌^◌}
use pinterest_mcp_docker.Common.{
  ℕ, ◌+◌, ◌-◌, ◌*◌, String, Bool, true, false, not, ◌&&◌, ◌||◌, List, [], ◌∷◌, ◌==◌, length, all,
  any, codes, string_eq, nat_eq, if◌then◌else◌, leb, ltb,
}
use pinterest_mcp_docker.Common.Int.{pos, negsuc}
use pinterest_mcp_docker.Persistence.Models.{second}
use pinterest_mcp_docker.Persistence.Session.{
  Error, ingress_security, type_error, key_error, overflow_error, Result, ok, err,
}
use pinterest_mcp_docker.Persistence.Session.Results.{◌>>=◌, ◌>>◌, reject_if}
use pinterest_mcp_docker.Persistence.Json.{
  Json, int, float, text, dict, Fields, end, field, get, is_space, split_runs,
}

abbrev pub is_control : ℕ → Bool
is_control c = ltb c 32 || c == 127

abbrev pub invalid_metadata : Error
invalid_metadata = ingress_security "Invalid handoff metadata"

check_text : Json → ℕ → Result String
check_text (text value) maximum = do
  reject_if (all is_space (codes value) || ltb maximum (length (codes value))) invalid_metadata
  reject_if (any is_control (codes value)) invalid_metadata
  ok value
check_text _ maximum = err invalid_metadata

unfoldable pub required_text : Fields → String → ℕ → Result String
unfolding check_text get
required_text payload key maximum = check_text (get key payload) maximum

pub record Binding : Type 0 where
  pub transaction : String
  pub issuer : String
  pub binding : String
  pub account : String

abbrev pub is_digit : ℕ → Bool
is_digit c = leb b'0' c && leb c b'9'

abbrev pub is_hex : ℕ → Bool
is_hex c = is_digit c || (leb b'a' c && leb c b'f')

abbrev pub is_empty : List ℕ → Bool
is_empty [] = true
is_empty (c ∷ cs) = false

unfoldable pub binding_fields : Fields → Result Binding
unfolding required_text
binding_fields payload = do
  transaction ← required_text payload "transaction_id" 128
  issuer ← required_text payload "issuer" 512
  binding ← required_text payload "binding" 64
  account ← required_text payload "provider_account_id" 64
  reject_if
      (not (all is_hex (codes binding) && length (codes binding) == 64)
        || not (all is_digit (codes account) && not (is_empty (codes account))))
      (ingress_security "Invalid transaction binding")
  ok (record { transaction = transaction; issuer = issuer; binding = binding; account = account })

abbrev pub is_separator : ℕ → Bool
is_separator c = c == b',' || is_space c

abbrev same_codes : List ℕ → List ℕ → Bool
same_codes [] [] = true
same_codes (c ∷ cs) (d ∷ ds) = c == d && same_codes cs ds
same_codes _ _ = false

unfoldable pub grants : String → String → Bool
unfolding split_runs
grants scope scopes =
    any (same_codes (codes scope)) (split_runs is_separator false [] (codes scopes))

-- `type(value) is int and 0 < value <= 315360000`, at most ten years.
abbrev pub is_lifetime : Json → Bool
is_lifetime (int (pos n)) = ltb 0 n && leb n 315360000
is_lifetime _ = false

token_fields : Json → Result Fields
token_fields (dict tokens) = ok tokens
token_fields _ = err (ingress_security "Invalid token envelope")

unfoldable pub validate_tokens : Fields → Result (Unit {0})
unfolding token_fields required_text grants get
validate_tokens payload = do
  tokens ← token_fields (get "tokens" payload)
  required_text tokens "access_token" 16384
  required_text tokens "refresh_token" 16384
  scopes ← required_text tokens "scope" 512
  reject_if (not (grants "user_accounts:read" scopes))
      (ingress_security "Missing account permission")
  reject_if (not (is_lifetime (get "expires_in" tokens))) (ingress_security "Invalid token expiry")
  reject_if (not (is_lifetime (get "refresh_token_expires_in" tokens)))
      (ingress_security "Invalid token expiry")

-- The least integer that no float can hold: `math.isfinite` raises on it and on all above.
unfoldable pub float_limit : ℕ
float_limit = 2 ^ 1024 - 2 ^ 970

abbrev pub invalid_deadline : Error
invalid_deadline = ingress_security "Invalid or expired transaction deadline"

-- The window `now < deadline <= now + 300`, on a number of microseconds.
within_window : ℕ → ℕ → Result ℕ
within_window now deadline =
    if ltb now deadline && leb deadline (now + 300 * second)
    then ok deadline
    else err invalid_deadline

-- The deadline of a stage request: an int or a float, finite, and in the window.
unfoldable pub check_deadline : ℕ → Json → Result ℕ
unfolding within_window
check_deadline now (int (pos n)) =
    if leb float_limit n then err overflow_error else within_window now (n * second)
check_deadline now (int (negsuc n)) =
    if leb float_limit (n + 1) then err overflow_error else err invalid_deadline
check_deadline now (float (pos n)) = within_window now n
check_deadline now _ = err invalid_deadline

-- `envelope["…"]`.
unfoldable pub index : String → Fields → Result Json
index key end = err key_error
index key (field name v rest) = if name == key then ok v else index key rest

-- The use of a value as a dict, a text or a number of seconds.
unfoldable pub as_dict : Json → Result Fields
as_dict (dict fields) = ok fields
as_dict _ = err type_error

unfoldable pub as_text : Json → Result String
as_text (text t) = ok t
as_text _ = err type_error

unfoldable pub as_seconds : Json → Result ℕ
as_seconds (int (pos n)) = ok (n * second)
as_seconds _ = err type_error
