-- ===== src/Persistence.antt =====
-- src/pinterest_mcp/persistence: the tables, the sessions over them, the repositories, the pending
-- credential handoff and the private ingress.
pub mod Models
pub mod Session
pub mod Cipher
pub mod Json
pub mod Encryption
pub mod Repository
pub mod Pending
pub mod Invariant
pub mod Completion
pub mod History
pub mod Scenario
pub mod Tests
pub mod Ingress
pub mod IngressApp
