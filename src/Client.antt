-- ===== src/Client.antt =====
-- src/pinterest_mcp/client.py: the client of the Pinterest API.
pub mod Tokens
pub mod Requests
pub mod Pins
pub mod Boards
pub mod RateLimit
pub mod Start
mod Examples
