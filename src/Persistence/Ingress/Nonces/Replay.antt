-- ===== src/Persistence/Ingress/Nonces/Replay.antt =====
-- MemoryNonceStore (src/pinterest_mcp/persistence/ingress.py): a nonce is accepted at most once
-- during its lifetime, whatever other nonces are consumed in between.
use pinterest_mcp_docker.Common.{
  ℕ, ◌+◌, ◌≤◌, ◌≡◌, refl, String, true, false, List, [], ◌∷◌, ◌++◌, string_eq, arith, inl, inr, ◌⊎◌,
}
use pinterest_mcp_docker.Persistence.Ingress.Nonces.{Nonces, has_nonce, clean, consume_nonce}

-- The store holds the nonce until `until` at least.
abbrev pub HeldUntil : String → ℕ → Nonces → Type 0
HeldUntil nonce until [] = ⊥
HeldUntil nonce until ((n, exp) ∷ rest) = ((n ≡ nonce) × (until ≤ exp)) ⊎ HeldUntil nonce until rest

has_nonce_held :
    (nonce : String) (until : ℕ) (store : Nonces)
    → HeldUntil nonce until store
    → has_nonce nonce store ≡ true
unfolding has_nonce
has_nonce_held nonce until [] h = absurd h
has_nonce_held nonce until ((n, exp) ∷ rest) (inl (e, _)) = ground arith
has_nonce_held nonce until ((n, exp) ∷ rest) (inr h) =
    ground (arith, has_nonce_held nonce until rest h)

clean_held :
    (now : ℕ) (nonce : String) (until : ℕ) (store : Nonces)
    → now ≤ until
    → HeldUntil nonce until store
    → HeldUntil nonce until (clean now store)
unfolding clean
clean_held now nonce until [] p h = absurd h
clean_held now nonce until ((n, exp) ∷ rest) p h = ground (arith, clean_held now nonce until rest p)

append_held :
    (nonce : String) (until : ℕ) (store : Nonces) (n : String) (exp : ℕ)
    → HeldUntil nonce until store
    → HeldUntil nonce until (store ++ (n, exp) ∷ [])
append_held nonce until [] n exp h = absurd h
append_held nonce until ((m, e) ∷ rest) n exp (inl h) = inl h
append_held nonce until ((m, e) ∷ rest) n exp (inr h) = inr (append_held nonce until rest n exp h)

last_held :
    (nonce : String) (until : ℕ) (store : Nonces)
    → HeldUntil nonce until (store ++ (nonce, until) ∷ [])
last_held nonce until [] = inl (refl, omega arith)
last_held nonce until ((m, e) ∷ rest) = inr (last_held nonce until rest)

-- The clock readings and nonces of later calls, in order, and the store after them.
unfoldable pub consume_all : List (ℕ × String) → ℕ → Nonces → Nonces
consume_all [] ttl store = store
consume_all ((now, nonce) ∷ calls) ttl store =
    consume_all calls ttl (consume_nonce now nonce ttl store).1

-- No call was made after `until`.
abbrev pub CallsBy : ℕ → List (ℕ × String) → Type 0
CallsBy until [] = Unit
CallsBy until ((now, _) ∷ calls) = (now ≤ until) × CallsBy until calls

pub CallsBy-later :
    (until later : ℕ) (calls : List (ℕ × String))
    → until ≤ later
    → CallsBy until calls
    → CallsBy later calls
CallsBy-later until later [] p c = tt
CallsBy-later until later ((now, nonce) ∷ calls) p (h, c) =
    (omega arith, CallsBy-later until later calls p c)

consume_held :
    (now : ℕ) (other : String) (ttl : ℕ) (nonce : String) (until : ℕ) (store : Nonces)
    → now ≤ until
    → HeldUntil nonce until store
    → HeldUntil nonce until (consume_nonce now other ttl store).1
unfolding consume_nonce
consume_held now other ttl nonce until store p h = ground (
  arith,
  clean_held now nonce until store p h,
  append_held nonce until (clean now store) other (now + ttl),
)

consume_all_held :
    (calls : List (ℕ × String)) (ttl : ℕ) (nonce : String) (until : ℕ) (store : Nonces)
    → CallsBy until calls
    → HeldUntil nonce until store
    → HeldUntil nonce until (consume_all calls ttl store)
unfolding consume_all
consume_all_held [] ttl nonce until store c h = h
consume_all_held ((now, other) ∷ calls) ttl nonce until store (p, c) h =
    consume_all_held calls ttl nonce until _ c (consume_held now other ttl nonce until store p h)

accepted_held :
    (now : ℕ) (nonce : String) (ttl : ℕ) (store : Nonces)
    → (consume_nonce now nonce ttl store).0 ≡ true
    → HeldUntil nonce (now + ttl) (consume_nonce now nonce ttl store).1
unfolding consume_nonce
accepted_held now nonce ttl store h = ground (arith, last_held nonce (now + ttl) (clean now store))

-- After a nonce has been accepted, it is refused at every time up to its expiry, whatever calls
-- with other nonces or the same one came in between, none of them after the expiry.
pub consume_nonce-replay :
    (now later ttl : ℕ) (nonce : String) (calls : List (ℕ × String)) (store : Nonces)
    → (consume_nonce now nonce ttl store).0 ≡ true
    → CallsBy (now + ttl) calls
    → later ≤ now + ttl
    → (consume_nonce later nonce ttl
        (consume_all calls ttl (consume_nonce now nonce ttl store).1)).0
      ≡ false
unfolding consume_nonce
consume_nonce-replay now later ttl nonce calls store ok c p =
    let held =
      consume_all_held calls ttl nonce (now + ttl) _ c (accepted_held now nonce ttl store ok) in
    rw (has_nonce_held nonce (now + ttl) _ (clean_held later nonce (now + ttl) _ p held)) refl
