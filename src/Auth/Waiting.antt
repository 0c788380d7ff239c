-- ===== src/Auth/Waiting.antt =====
-- Which authorization code the login helper of src/pinterest_mcp/auth.py gets.
use Prim.Native.Char.{code}
use pinterest_mcp_docker.Common.{
  ℕ, ◌≤◌, ◌≡◌, ◌≢◌, inl, inr, refl, ap, String, Bool, true, false, not, ◌||◌, Option, none, some,
  List, [], ◌∷◌, ◌==◌, all, codes, length, ltb, nat_eq, string_eq, if◌then◌else◌, arith, Bool-cases,
}
use pinterest_mcp_docker.Persistence.Session.{Result, ok, err}
use pinterest_mcp_docker.Persistence.Ingress.Signature.{compare_digest}
use pinterest_mcp_docker.Auth.{
  Target, UrlSplit, max_callback_request_line, strip_line, split_request, equal_codes, Future,
  process_callback_request, check_request, check_target, check_code, check_state, compared,
}

equal_codes-eq : (xs ys : List ℕ) → equal_codes xs ys ≡ true → xs ≡ ys
equal_codes-eq [] [] h = refl
equal_codes-eq [] (y ∷ ys) h = cc h
equal_codes-eq (x ∷ xs) [] h = cc h
equal_codes-eq (x ∷ xs) (y ∷ ys) h = ground (arith, equal_codes-eq xs ys)

pub equal_codes_self : (xs : List ℕ) → equal_codes xs xs ≡ true
equal_codes_self [] = refl
equal_codes_self (x ∷ xs) = ground (arith, equal_codes_self xs)

-- A callback with a code: a GET request of "/callback" in ASCII and of a bounded length, with the
-- state that was sent along, and a code that is not empty.
pub record IsCallback (U : UrlSplit) (expected_state : String) (line : List ℕ) (code : String)
    : Type 0 where
  pub short : length line ≤ max_callback_request_line
  pub ascii : all (λ c. ltb c 128) line ≡ true
  pub target : List ℕ
  pub split : split_request (strip_line line) ≡ some (codes "GET", target)
  pub query : String → Option String
  pub parsed : U target ≡ some (record { path = codes "/callback"; field = query })
  pub given : query "code" ≡ some code
  pub full : code ≢ ""
  pub state : query "state" ≡ some expected_state

some-injective : {A : Type 0} {a b : A} → some a ≡ some b → a ≡ b
some-injective h = cc h

if-same :
    {A : Type 0} (b : Bool) (r q : A × Future) (future : Future)
    → r.1 ≡ future
    → q.1 ≡ future
    → (if b then r else q).1 ≡ future
if-same true r q future h k = h
if-same false r q future h k = k

-- Each step keeps a code that is set.
compared-stays :
    (code done : String) (r : Result Bool) → (compared code (some done) r).1 ≡ some done
compared-stays code done (err e) = refl
compared-stays code done (ok false) = refl
compared-stays code done (ok true) = refl

state-stays :
    (expected_state code done : String) (received : Option String)
    → (check_state expected_state code (some done) received).1 ≡ some done
state-stays expected_state code done none = refl
state-stays expected_state code done (some received) =
    compared-stays code done (compare_digest received expected_state)

code-stays :
    (expected_state : String) (t : Target) (done : String) (code : Option String)
    → (check_code expected_state t (some done) code).1 ≡ some done
code-stays expected_state t done none = refl
code-stays expected_state t done (some code) =
    if-same (code == "") _ (check_state expected_state code (some done) (t.field "state"))
      (some done) refl (state-stays expected_state code done (t.field "state"))

target-stays :
    (expected_state : String) (method : List ℕ) (done : String) (t : Option Target)
    → (check_target expected_state method (some done) t).1 ≡ some done
target-stays expected_state method done none = refl
target-stays expected_state method done (some t) =
    if-same (not (equal_codes method (codes "GET")) || not (equal_codes t.path (codes "/callback")))
      _ (check_code expected_state t (some done) (t.field "code")) (some done) refl
      (code-stays expected_state t done (t.field "code"))

request-stays :
    (U : UrlSplit) (expected_state done : String) (r : Option (List ℕ × List ℕ))
    → (check_request U expected_state (some done) r).1 ≡ some done
request-stays U expected_state done none = refl
request-stays U expected_state done (some (method, target)) =
    target-stays expected_state method done (U target)

-- A code that was set stays.
pub set-stays :
    (U : UrlSplit) (expected_state : String) (line : List ℕ) (done : String)
    → (process_callback_request U line expected_state (some done)).1 ≡ some done
unfolding process_callback_request
set-stays U expected_state line done =
    if-same (ltb max_callback_request_line (length line)) _ _ (some done) refl (
      if-same (not (all (λ c. ltb c 128) line)) _
        (check_request U expected_state (some done) (split_request (strip_line line))) (some done)
        refl (request-stays U expected_state done (split_request (strip_line line))))

-- Each step that sets a code has seen what a callback has.
compared-sets :
    (code got : String) (r : Result Bool)
    → (compared code none r).1 ≡ some got
    → (r ≡ ok true) × (code ≡ got)
compared-sets code got (err e) h = absurd (cc h)
compared-sets code got (ok false) h = absurd (cc h)
compared-sets code got (ok true) h = (refl, some-injective h)

same_state :
    (received expected_state : String)
    → compare_digest received expected_state ≡ ok true
    → received ≡ expected_state
unfolding compare_digest
same_state received expected_state h = ground arith

state-sets :
    (expected_state code got : String) (received : Option String)
    → (check_state expected_state code none received).1 ≡ some got
    → (received ≡ some expected_state) × (code ≡ got)
state-sets expected_state code got none h = absurd (cc h)
state-sets expected_state code got (some received) h =
    let (same, e) = compared-sets code got (compare_digest received expected_state) h in
    (ap some (same_state received expected_state same), e)

code-sets :
    (expected_state : String) (t : Target) (got : String) (code : Option String)
    → (check_code expected_state t none code).1 ≡ some got
    → (code ≡ some got) × (got ≢ "") × (t.field "state" ≡ some expected_state)
code-sets expected_state t got none h = absurd (cc h)
code-sets expected_state t got (some code) h = elim (Bool-cases (code == "")) [
  | inl empty ↦ ground arith
  | inr full ↦
      let (state, e) = state-sets expected_state code got (t.field "state") (ground arith) in
      (ap some e, ground arith, state)
]

target-sets :
    (expected_state : String) (method : List ℕ) (got : String) (o : Option Target)
    → (check_target expected_state method none o).1 ≡ some got
    → (method ≡ codes "GET")
      × (query : String → Option String) × (o
          ≡ some (record { path = codes "/callback"; field = query }))
      × (query "code" ≡ some got)
      × (got ≢ "")
      × (query "state" ≡ some expected_state)
target-sets expected_state method got none h = absurd (cc h)
target-sets expected_state method got (some t) h =
    elim (Bool-cases
      (not (equal_codes method (codes "GET")) || not (equal_codes t.path (codes "/callback")))) [
        | inl other ↦ absurd (cc (other, h))
        | inr right ↦
            let m : equal_codes method (codes "GET") ≡ true = ground arith in
            let p : equal_codes t.path (codes "/callback") ≡ true = ground arith in
            let rest : (check_code expected_state t none (t.field "code")).1 ≡ some got =
              ground arith in
            let (given, full, state) = code-sets expected_state t got (t.field "code") rest in
            let path = equal_codes-eq t.path (codes "/callback") p in
            (
              equal_codes-eq method (codes "GET") m,
              t.field,
              (λ i. some (record { path = path i; field = t.field })),
              given,
              full,
              state,
            )
      ]

request-sets :
    (U : UrlSplit) (expected_state got : String) (r : Option (List ℕ × List ℕ))
    → (check_request U expected_state none r).1 ≡ some got
    → (target : List ℕ) × (r ≡ some (codes "GET", target))
      × (query : String → Option String) × (U target
          ≡ some (record { path = codes "/callback"; field = query }))
      × (query "code" ≡ some got)
      × (got ≢ "")
      × (query "state" ≡ some expected_state)
request-sets U expected_state got none h = absurd (cc h)
request-sets U expected_state got (some (method, target)) h =
    let (m, query, parsed, given, full, state) =
      target-sets expected_state method got (U target) h in
    (target, ap (λ m. some (m, target)) m, query, parsed, given, full, state)

-- A line that sets a code is a callback with it.
pub set-IsCallback :
    (U : UrlSplit) (expected_state : String) (line : List ℕ) (got : String)
    → (process_callback_request U line expected_state none).1 ≡ some got
    → IsCallback U expected_state line got
unfolding process_callback_request
set-IsCallback U expected_state line got h =
    elim (Bool-cases (ltb max_callback_request_line (length line))) [
      | inl long ↦ absurd (cc (long, h))
      | inr short ↦ elim (Bool-cases (all (λ c. ltb c 128) line)) [
        | inr other ↦ absurd (cc (short, other, h))
        | inl ascii ↦
            let split = split_request (strip_line line) in
            let rest : (check_request U expected_state none split).1 ≡ some got =
              cc (short, ascii, h) in
            let (target, cut, query, parsed, given, full, state) =
              request-sets U expected_state got split rest in
            record {
              short = ground arith;
              ascii = ascii;
              target = target;
              split = cut;
              query = query;
              parsed = parsed;
              given = given;
              full = full;
              state = state;
            }
      ]
    ]
