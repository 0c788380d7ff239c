-- ===== src/Lib.antt =====
-- A verification library for the Pinterest MCP server (src/pinterest_mcp).
--
-- The program. A broker outside the server logs users in to Pinterest and hands their credentials
-- over a private, signed endpoint. The endpoint checks the signature, the freshness and the nonce
-- of a request, and runs it in one database transaction: `stage` stores the encrypted credentials
-- of a transaction, `complete` provisions the user and the connection from them, `cancel` drops
-- them. A cleanup expires what is overdue, and a disconnection cancels what is staged for the
-- account. The client of the tools holds a token of its own and renews it. The HTTP application
-- stands behind an authentication that the configuration selects, and keeps the events of its
-- streams for replay.
--
-- The files.
-- - Common and its children: shared names, Boolean tests, decidable equality as an interface,
--   lists, tables as lists of rows (Rows), distinct keys (Distinct), integers and case mapping.
-- - Persistence/Models, Session: the tables of persistence/models.py; a session is an action on
--   the store that returns or raises and keeps what it wrote; `transact` commits or rolls back.
--   Session/Inserts, Results and Holds carry the lemmas on inserts and on sequences.
-- - Persistence/Cipher, Json: the interface of a cipher with its law, and JSON values.
-- - Persistence/Repository: persistence/repository.py, a function for each method, and
--   Repository/Operations for the immediate operations. Tables, Writes, Stored and Renewal hold
--   what each method leaves alone, may write, and stores.
-- - Persistence/Pending: persistence/pending.py, `process_pending` and its children Validation,
--   Rows, Stage and Complete. Requests and Provisioning invert a run; Transitions is the state
--   machine of a row, and Lifecycle and Staging place each action in it.
-- - Persistence/Completion: what a successful completion leaves, and retries.
-- - Persistence/Ingress, IngressApp: persistence/ingress.py and ingress_app.py; Nonces, Signature,
--   Payload and Credential model the first, Accepted and Persisted hold their theorems.
-- - Persistence/Invariant: the invariant of the database under every session; Persistence/History:
--   sequences of sessions as an indexed data type, and what holds after every history.
-- - Persistence/Encryption: persistence/encryption.py, with its Base64 texts in Base64 and the keys
--   from the environment in Keys. Envelope, Opened, Sealed and Keys/Reloaded hold its theorems.
-- - EventStore: event_store.py; Streams and Replay hold its theorems.
-- - Config: config.py. Http: the guard of http_app.py, and in Routes its routes and what they reach.
-- - Oauth: oauth.py, whose verdict on a token the routes use. Auth: the callback of auth.py.
-- - Client: client.py; Start is the construction, Tokens and RateLimit the tokens and the limit,
--   Requests, Pins and Boards the requests and the operations.
-- - Security: security.py, the URL check and the download, in Local the local images and in
--   TokenFile the token file.
-- - Tools: tools.py. App: `call_tool` of app.py over the client, the tools and the security checks.
-- - Logging: logging_setup.py; Pattern is the part of regular expressions that its patterns use,
--   Redaction the patterns.
-- - Scenario holds concrete data; Tests and Examples run the definitions on it and apply the
--   theorems to it.
--
-- Conventions and bounds. A time is a whole number of microseconds, so nothing is rounded; UUIDs
-- and nonces are the numbers of random draws, counted in the store. Where the code reads the
-- clock, the reading is an argument. Loops run over lists by structural recursion, or over the
-- number of hops of a download, so no fuel is used. Sessions are serialised, as the row and
-- account locks of the source do. SHA-256, HMAC, AES-GCM, the JSON printer and parser, the float
-- parser, the URL and address parsers, the network, the HTTP router and the JWT library are
-- parameters; of the cipher the repositories assume only the law in Persistence/Cipher. The
-- authenticated data of a ciphertext is a structured value in place of its JSON text. What the
-- client sends includes the renewals of its token. The path of a request's URL is the one its router
-- sees. A completion
-- reads all fields of the envelope before the expiry check, and a wrongly typed one is an error
-- either way. Case mapping is that of ASCII. A token file holds texts and a time, as it is saved.
--
-- Not modelled: database engines, migrations, entry points and the Java extension of the broker,
-- each a part of its own; the Redis store, TLS and scheduled tasks, which only call other
-- libraries; the browser and the exchange of the code in the login helper; the reading of the
-- environment and the comma-separated lists of the settings.
pub mod App
pub mod Auth
pub mod Client
pub mod Common
pub mod Config
pub mod EventStore
pub mod Http
pub mod Logging
pub mod Oauth
pub mod Persistence
pub mod Security
pub mod Tools
