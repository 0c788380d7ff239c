-- ===== src/Persistence/Cipher.antt =====
-- What the repositories and the handoff use of a `CredentialCipher`
-- (src/pinterest_mcp/persistence/encryption.py), and what they may rely on. The number that
-- `encrypt` takes says which random draw its nonce is.
use pinterest_mcp_docker.Common.{ℕ, String, ◌≡◌, ◌≢◌}
use pinterest_mcp_docker.Persistence.Session.{Result, ok}

-- The `owner_id` that is bound into the authenticated data: the UUID of a user, or the array that
-- `envelope_aad` serialises for a pending credential.
pub data OwnerId : Type 0 where
  uuid : ℕ → OwnerId
  pending_v1 : String → String → String → ℕ → OwnerId

pub record Cipher : Type 0 where
  pub primary_key_id : String
  pub encrypt : ℕ → String → OwnerId → String → Result String
  pub decrypt : String → OwnerId → String → Result String

pub record IsLawful (C : Cipher) : Type 0 where
  -- Every text can be encrypted, and is read back under the same owner and account.
  pub decrypt-encrypt :
      (n : ℕ) (plain : String) (owner : OwnerId) (account : String)
      → (sealed : String) × (C.encrypt n plain owner account ≡ ok sealed)
        × (sealed ≢ "")
        × (C.decrypt sealed owner account ≡ ok plain)
