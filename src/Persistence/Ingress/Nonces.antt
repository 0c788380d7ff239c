-- ===== src/Persistence/Ingress/Nonces.antt =====
-- MemoryNonceStore (src/pinterest_mcp/persistence/ingress.py): nonces with their expiry times, in
-- microseconds, in the order of insertion.
pub mod Replay
use pinterest_mcp_docker.Common.{
  ℕ, ◌+◌, String, Bool, true, false, Option, none, some, List, [], ◌∷◌, ◌++◌, ◌==◌, string_eq,
  if◌then◌else◌, ltb,
}
use pinterest_mcp_docker.Persistence.Models.{second}

abbrev pub Nonces : Type 0
Nonces = List (String × ℕ)

-- `n in self._nonces`.
unfoldable pub has_nonce : String → Nonces → Bool
has_nonce nonce [] = false
has_nonce nonce ((n, exp) ∷ rest) = if n == nonce then true else has_nonce nonce rest

-- The entries with `exp < now` are deleted.
unfoldable pub clean : ℕ → Nonces → Nonces
clean now [] = []
clean now ((n, exp) ∷ rest) =
    let kept = clean now rest in if ltb exp now then kept else (n, exp) ∷ kept

-- True, with the nonce stored until `now + ttl`, if no entry that is still alive has it.
unfoldable pub consume_nonce : ℕ → String → ℕ → Nonces → Bool × Nonces
unfolding has_nonce clean
consume_nonce now nonce ttl store =
    let alive = clean now store in
    if has_nonce nonce alive then (false, alive) else (true, alive ++ (nonce, now + ttl) ∷ [])

-- The default `ttl_seconds`.
abbrev pub default_ttl : ℕ
default_ttl = 601000000
