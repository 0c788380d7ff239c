-- ===== src/Client/Tokens.antt =====
-- src/pinterest_mcp/client.py: the access token and its renewal. The clock is read in microseconds;
-- each reading is an argument, and so is the token endpoint's answer. A successful answer is
-- taken to hold texts for tokens, and a lifetime that is a number to be one of whole seconds.
pub mod Renewal
use pinterest_mcp_docker.Common.{
  ℕ, ◌+◌, ◌*◌, String, Bool, true, false, not, ◌&&◌, ◌||◌, Option, none, some, List, [], ◌∷◌, ◌++◌,
  ◌==◌, ltb, string_eq, if◌then◌else◌,
}
use pinterest_mcp_docker.Persistence.Models.{second}
use pinterest_mcp_docker.Persistence.Repository.{is_truthy}

pub record Client : Type 0 where
  pub access_token : Option String
  pub refresh_token : Option String
  pub token_expiry : Option ℕ
  -- What `_save_token_file` wrote last.
  pub saved : Option (Option String × Option String × Option ℕ)

-- A successful answer of the token endpoint, and whether the token file can be written after it. A
-- key of the answer may be absent; a refresh token that is there may be null, and a lifetime that is
-- there may be no number.
pub record Grant : Type 0 where
  pub access_token : String
  pub refresh_token : Option (Option String)
  pub expires_in : Option (Option ℕ)
  pub saves : Bool

-- `time.time() < expiry - 60`.
abbrev pub before_margin : ℕ → ℕ → Bool
before_margin now expiry = ltb (now + 60 * second) expiry

abbrev pub lasts : ℕ → Option ℕ → Bool
lasts now none = true
lasts now (some expiry) = before_margin now expiry

abbrev pub known_to_last : ℕ → Option ℕ → Bool
known_to_last now none = false
known_to_last now (some expiry) = before_margin now expiry

abbrev pub or_default : {A : Type 0} → Option A → A → A
or_default none d = d
or_default (some a) d = a

-- `data.get("expires_in", 3600)` as a time; none if it cannot be added to one.
abbrev pub lifetime : Option (Option ℕ) → Option ℕ
lifetime none = some (3600 * second)
lifetime (some none) = none
lifetime (some (some n)) = some (n * second)

abbrev pub save_token_file : Client → Client
save_token_file c = record c { saved = some (c.access_token, c.refresh_token, c.token_expiry) }

-- The client with the tokens of an answer, before the expiry is known.
abbrev pub with_tokens : Grant → Client → Client
with_tokens g c = record c {
  access_token = some g.access_token;
  refresh_token = or_default g.refresh_token c.refresh_token;
}

abbrev pub expiring : ℕ → Client → Client
expiring expiry c = record c { token_expiry = some expiry }

-- The client after a renewal that returned.
abbrev pub granted : ℕ → Grant → Client → Client
granted expiry g c = save_token_file (expiring expiry (with_tokens g c))

-- What follows a successful answer; the Boolean tells whether it returned.
abbrev pub take_grant : ℕ → Grant → Client → Bool × Client
take_grant now g c = elim (lifetime g.expires_in) [
  | none ↦ (false, with_tokens g c)
  | some n ↦
      if g.saves
      then (true, granted (now + n) g c)
      else (false, expiring (now + n) (with_tokens g c))
]

-- `_refresh`, under its lock: `now` is the check after the lock was obtained, `later` the reading
-- after the answer, which is none if the request failed. The Boolean tells whether it returned.
unfoldable pub refresh : ℕ → ℕ → Option Grant → Client → Bool × Client
refresh now later answer c =
    if is_truthy c.access_token && known_to_last now c.token_expiry
    then (true, c)
    else elim answer [ none ↦ (false, c) | some g ↦ take_grant later g c ]

-- Whether `_ensure_token`, begun at `start`, calls the token endpoint: it asks for a renewal, and the
-- check after the lock was obtained does not find the token renewed.
abbrev pub renews : ℕ → ℕ → Client → Bool
renews start now c =
    not (is_truthy c.access_token && lasts start c.token_expiry)
    && (is_truthy c.refresh_token
        && not (is_truthy c.access_token && known_to_last now c.token_expiry))

-- The token that a caller gets, if it is there.
abbrev pub token_or_raise : Bool × Client → Option String × Client
token_or_raise (false, c) = (none, c)
token_or_raise (true, c) = if is_truthy c.access_token then (c.access_token, c) else (none, c)

-- `_ensure_token`; none is an error raised.
unfoldable pub ensure_token : ℕ → ℕ → ℕ → Option Grant → Client → Option String × Client
unfolding refresh
ensure_token start now later answer c =
    let renew = token_or_raise (refresh now later answer c) in
    if is_truthy c.access_token && lasts start c.token_expiry
    then (c.access_token, c)
    else if is_truthy c.refresh_token
    then renew
    else (none, c)
