-- ===== src/Client/RateLimit.antt =====
-- src/pinterest_mcp/client.py: the limit of ten pins a minute, on the clock in microseconds.
pub mod Bounded
use pinterest_mcp_docker.Common.{
  ℕ, ◌+◌, ◌-◌, ◌*◌, ◌≤◌, Bool, Option, none, some, List, [], ◌∷◌, ◌++◌, length, ltb, leb,
  if◌then◌else◌,
}
use pinterest_mcp_docker.Persistence.Models.{second}

abbrev pub pin_rate_limit : ℕ
pin_rate_limit = 10

abbrev pub pin_rate_window : ℕ
pin_rate_window = 60 * second

-- `[t for t in timestamps if now - t < window]`.
unfoldable pub recent : ℕ → List ℕ → List ℕ
recent now [] = []
recent now (t ∷ ts) =
    let rest = recent now ts in if ltb now (t + pin_rate_window) then t ∷ rest else rest

abbrev pub until_free : ℕ → List ℕ → ℕ
until_free now [] = 0
until_free now (t ∷ ts) = (t + pin_rate_window) - now

-- How long a call sleeps before it sends its request.
unfoldable pub sleep_for : ℕ → List ℕ → ℕ
unfolding recent
sleep_for now ts =
    if leb pin_rate_limit (length (recent now ts)) then until_free now (recent now ts) else 0

-- The timestamps after a call that read the clock at `now`; `finish` is the reading after the
-- request, and none if the request failed.
unfoldable pub rate_limited_pin : ℕ → Option ℕ → List ℕ → List ℕ
unfolding recent
rate_limited_pin now none ts = recent now ts
rate_limited_pin now (some finish) ts = recent now ts ++ finish ∷ []

-- The timestamps that calls one after another can lead to, and the clock after the last one.
pub data Reached : List ℕ → ℕ → Type 0 where
  start : (clock : ℕ) → Reached [] clock
  pin :
      {ts : List ℕ} {clock : ℕ} (now finish : ℕ)
      → Reached ts clock
      → clock ≤ now
      → now + sleep_for now ts ≤ finish
      → Reached (rate_limited_pin now (some finish) ts) finish
  fail :
      {ts : List ℕ} {clock : ℕ} (now finish : ℕ)
      → Reached ts clock
      → clock ≤ now
      → now + sleep_for now ts ≤ finish
      → Reached (rate_limited_pin now none ts) finish
