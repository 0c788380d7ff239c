-- ===== src/Persistence/Ingress.antt =====
-- src/pinterest_mcp/persistence/ingress.py: the private ingress.
pub mod Nonces
pub mod Signature
pub mod Accepted
pub mod Payload
pub mod Credential
pub mod Persisted
mod Examples
