-- ===== src/Client/RateLimit/Bounded.antt =====
-- The limit of src/pinterest_mcp/client.py holds for calls one after another.
