-- ===== src/App/Flags.antt =====
-- Which answers of src/pinterest_mcp/app.py are flagged as errors.
use pinterest_mcp_docker.Persistence.Json.{Json}
use pinterest_mcp_docker.Client.Requests.{Outcome, returned, raised}
use pinterest_mcp_docker.App.{sanitize_error}

-- The answer to the outcome of a handler.
abbrev pub content_of : Outcome Json → Json
content_of (returned j) = j
content_of (raised exc) = sanitize_error exc
