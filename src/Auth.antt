-- ===== src/Auth.antt =====
-- src/pinterest_mcp/auth.py: the callback that the login helper waits for. A request line is its
-- bytes; the URL parser is a parameter.
pub mod Waiting
pub mod First
mod Examples
use Prim.Native.Char.{Char, code}
use pinterest_mcp_docker.Common.{
  ℕ, ◌*◌, String, Bool, true, false, not, ◌&&◌, ◌||◌, Option, none, some, List, [], ◌∷◌, ◌==◌, all,
  codes, length, ltb, nat_eq, string_eq, if◌then◌else◌,
}
use pinterest_mcp_docker.Persistence.Session.{Result, ok, err}
use pinterest_mcp_docker.Persistence.Ingress.Signature.{compare_digest}

-- `urlsplit`, which refuses some targets, with the path; and the first value of a field of its
-- query by `parse_qs`.
pub record Target : Type 0 where
  pub path : List ℕ
  pub field : String → Option String

abbrev pub UrlSplit : Type 0
UrlSplit = List ℕ → Option Target

abbrev pub max_callback_request_line : ℕ
max_callback_request_line = 8 * 1024

abbrev pub is_empty : List ℕ → Bool
is_empty [] = true
is_empty (c ∷ cs) = false

-- `.rstrip("\r\n")`.
unfoldable pub strip_line : List ℕ → List ℕ
strip_line [] = []
strip_line (c ∷ cs) =
    let rest = strip_line cs in if (c == 13 || c == 10) && is_empty rest then [] else c ∷ rest

-- The text before the first space and the text after it.
unfoldable pub cut : List ℕ → Option (List ℕ × List ℕ)
cut [] = none
cut (c ∷ cs) =
    let rest = cut cs in
    if c == 32
    then some ([], cs)
    else elim rest [ none ↦ none | some (before, after) ↦ some (c ∷ before, after) ]

-- `.split(" ", 2)` into exactly three parts: the method and the target.
unfoldable pub split_request : List ℕ → Option (List ℕ × List ℕ)
unfolding cut
split_request line = elim (cut line) [
  | none ↦ none
  | some (method, rest) ↦ elim (cut rest) [
    | none ↦ none
    | some (target, version) ↦ some (method, target)
  ]
]

abbrev pub Reply : Type 0
Reply = ℕ × String

abbrev pub equal_codes : List ℕ → List ℕ → Bool
equal_codes [] [] = true
equal_codes (a ∷ as_) (b ∷ bs) = a == b && equal_codes as_ bs
equal_codes _ _ = false

-- The future that holds the code, once it has come.
abbrev pub Future : Type 0
Future = Option String

abbrev pub invalid_request : Result Reply
invalid_request = ok (400, "Invalid callback request.")

abbrev pub invalid_state : Result Reply
invalid_state = ok (400, "Invalid OAuth state. Please restart authorization.")

abbrev pub set_result : String → Future → Result Reply × Future
set_result code none = (ok (200, "Authorized. You can close this window."), some code)
set_result code (some done) = (ok (400, "Authorization is already complete."), some done)

-- What follows from the comparison of the states, which raises on a text that is not ASCII.
abbrev pub compared : String → Future → Result Bool → Result Reply × Future
compared code future (err e) = (err e, future)
compared code future (ok false) = (invalid_state, future)
compared code future (ok true) = set_result code future

abbrev pub check_state : String → String → Future → Option String → Result Reply × Future
check_state expected_state code future none = (invalid_state, future)
check_state expected_state code future (some received) =
    compared code future (compare_digest received expected_state)

abbrev pub check_code : String → Target → Future → Option String → Result Reply × Future
check_code expected_state t future none = (ok (400, "No authorization code in callback."), future)
check_code expected_state t future (some code) =
    if code == ""
    then (ok (400, "No authorization code in callback."), future)
    else check_state expected_state code future (t.field "state")

abbrev pub check_target : String → List ℕ → Future → Option Target → Result Reply × Future
check_target expected_state method future none = (invalid_request, future)
check_target expected_state method future (some t) =
    if not (equal_codes method (codes "GET")) || not (equal_codes t.path (codes "/callback"))
    then (ok (404, "Not found."), future)
    else check_code expected_state t future (t.field "code")

abbrev pub check_request :
    UrlSplit → String → Future → Option (List ℕ × List ℕ) → Result Reply × Future
check_request U expected_state future none = (invalid_request, future)
check_request U expected_state future (some (method, target)) =
    check_target expected_state method future (U target)

-- `_process_callback_request`; an error is an exception that the connection ends by, unanswered.
unfoldable pub process_callback_request :
    UrlSplit → List ℕ → String → Future → Result Reply × Future
unfolding split_request strip_line compare_digest
process_callback_request U request_line expected_state future =
    if ltb max_callback_request_line (length request_line)
    then (invalid_request, future)
    else if not (all (λ c. ltb c 128) request_line)
    then (invalid_request, future)
    else check_request U expected_state future (split_request (strip_line request_line))

-- The connections that the local server takes, one after another.
unfoldable pub receive : UrlSplit → String → List (List ℕ) → Future → Future
unfolding process_callback_request
receive U expected_state [] future = future
receive U expected_state (line ∷ lines) future =
    receive U expected_state lines (process_callback_request U line expected_state future).1

-- `_run_local_server`: the code, or none for the RuntimeError at the timeout; the lines are those
-- that come before it.
unfoldable pub run_local_server : UrlSplit → String → List (List ℕ) → Option String
unfolding receive
run_local_server U expected_state lines = receive U expected_state lines none
