-- ===== src/Auth/First.antt =====
-- The first callback that the login helper of src/pinterest_mcp/auth.py takes.
use mathlib.Core.Path.{subst}
use pinterest_mcp_docker.Common.{
  ℕ, ◌≡◌, ◌≢◌, ◌↔◌, inl, inr, refl, sym, ap, ◌∙◌, String, true, false, none, some, List, [], ◌∷◌,
  ◌==◌, codes, length, ltb, nat_eq, string_eq, arith, Bool-cases, Option-cases,
}
use pinterest_mcp_docker.Persistence.Session.{ok}
use pinterest_mcp_docker.Persistence.Ingress.Signature.{compare_digest, is_ascii}
use pinterest_mcp_docker.Auth.{
  Target, UrlSplit, max_callback_request_line, strip_line, split_request, process_callback_request,
  check_request, check_target, check_code, check_state, compared, receive, run_local_server,
}
use pinterest_mcp_docker.Auth.Waiting.{IsCallback, set-IsCallback, set-stays}

same_digest : (e : String) → is_ascii e ≡ true → compare_digest e e ≡ ok true
unfolding compare_digest
same_digest e h = ground arith

code-sends :
    (e : String) (t : Target) (code : String)
    → is_ascii e ≡ true
    → code ≢ ""
    → t.field "state" ≡ some e
    → (check_code e t none (some code)).1 ≡ some code
code-sends e t code ascii full state = elim (Bool-cases (code == "")) [
  | inl empty ↦ ground arith
  | inr other ↦
      cc (other, ap (check_state e code none) state, ap (compared code none) (same_digest e ascii))
]

-- A callback sets its code, where the state that was sent is ASCII.
callback-sets :
    (U : UrlSplit) (e : String) (line : List ℕ) (code : String)
    → is_ascii e ≡ true
    → IsCallback U e line code
    → (process_callback_request U line e none).1 ≡ some code
unfolding process_callback_request nat_eq
callback-sets U e line code ascii c =
    let short : ltb max_callback_request_line (length line) ≡ false = ground (arith, c.short) in
    let whole : (process_callback_request U line e none)
        ≡ check_request U e none (split_request (strip_line line)) =
      cc (short, c.ascii) in
    let cut = ap (check_request U e none) c.split in
    let parsed = ap (check_target e (codes "GET") none) c.parsed in
    let field : c.query "code" ≡ some code = c.given in
    ap (λ r. r.1)
      (whole
        ∙ cut
        ∙ parsed
        ∙ ap (check_code e (record { path = codes "/callback"; field = c.query }) none) field)
    ∙ code-sends e (record { path = codes "/callback"; field = c.query }) code ascii c.full c.state

-- The first line of a list that is a callback has the code.
pub data IsFirst (U : UrlSplit) (e : String) : List (List ℕ) → String → Type 0 where
  here :
      {line : List ℕ} {lines : List (List ℕ)} {code : String}
      → IsCallback U e line code
      → IsFirst U e (line ∷ lines) code
  later :
      {line : List ℕ} {lines : List (List ℕ)} {code : String}
      → ((other : String) → ¬ IsCallback U e line other)
      → IsFirst U e lines code
      → IsFirst U e (line ∷ lines) code

receive-stays :
    (U : UrlSplit) (e : String) (lines : List (List ℕ)) (done : String)
    → receive U e lines (some done) ≡ some done
unfolding receive
receive-stays U e [] done = refl
receive-stays U e (line ∷ lines) done =
    ap (receive U e lines) (set-stays U e line done) ∙ receive-stays U e lines done

some-injective : {a b : String} → some a ≡ some b → a ≡ b
some-injective h = cc h

receive-IsFirst :
    (U : UrlSplit) (e : String) (lines : List (List ℕ)) (code : String)
    → is_ascii e ≡ true
    → receive U e lines none ≡ some code
    → IsFirst U e lines code
unfolding receive
receive-IsFirst U e [] code ascii h = absurd (cc h)
receive-IsFirst U e (line ∷ lines) code ascii h =
    elim (Option-cases (process_callback_request U line e none).1) [
      | inl unset ↦
          later (λ other c. absurd (cc (unset, callback-sets U e line other ascii c)))
            (receive-IsFirst U e lines code ascii (sym (ap (receive U e lines) unset) ∙ h))
      | inr (got, set) ↦
          let same =
            some-injective
              (sym (receive-stays U e lines got) ∙ sym (ap (receive U e lines) set) ∙ h) in
          here (subst (IsCallback U e line) same (set-IsCallback U e line got set))
    ]

IsFirst-receive :
    (U : UrlSplit) (e : String) (lines : List (List ℕ)) (code : String)
    → is_ascii e ≡ true
    → IsFirst U e lines code
    → receive U e lines none ≡ some code
unfolding receive
IsFirst-receive U e [] code ascii h = elim h [ ]
IsFirst-receive U e (line ∷ lines) code ascii (here c) =
    ap (receive U e lines) (callback-sets U e line code ascii c) ∙ receive-stays U e lines code
IsFirst-receive U e (line ∷ lines) code ascii (later unlike rest) =
    elim (Option-cases (process_callback_request U line e none).1) [
      | inl unset ↦ ap (receive U e lines) unset ∙ IsFirst-receive U e lines code ascii rest
      | inr (got, set) ↦ absurd (unlike got (set-IsCallback U e line got set))
    ]

-- With a state that is ASCII, the login helper gets a code exactly if it is the code of the first
-- callback among the request lines that arrive: a GET request of "/callback", of at most 8192
-- bytes and in ASCII, with a code that is not empty and the state that was sent. Any other request
-- before it, and anything after it, changes nothing.
pub run_local_server-IsFirst :
    (U : UrlSplit) (expected_state : String) (lines : List (List ℕ)) (code : String)
    → is_ascii expected_state ≡ true
    → (run_local_server U expected_state lines ≡ some code) ↔ IsFirst U expected_state lines code
unfolding run_local_server
run_local_server-IsFirst U expected_state lines code ascii = (
  receive-IsFirst U expected_state lines code ascii,
  IsFirst-receive U expected_state lines code ascii,
)
