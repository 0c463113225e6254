-- ===== src/Lib.antt =====
-- The hub of rdoc-camhub: a server that lets operators sign in, enrolls cameras under a subdomain
-- of their own, and keeps their DNS records at Cloudflare in step with their addresses.
--
-- The parts and their files:
-- - Store (internal/db, internal/migrations): the tables as lists of rows with the columns that the
--   statements read or write. Store has the rows, the environment of a request (the clocks of hub and
--   database, and which statements the database carries out) and what a statement, a COMMIT and a ROLLBACK
--   do. Store/Users, Store/Sessions, Store/Tokens, Store/Devices and Store/Dns have one function per
--   method of the stores; a SQL statement is one step, with the constraints of the schema.
-- - RateLimit (internal/httpapi/rate_limit.go): the token bucket per address. Tokens are counted in
--   units of 1/window, so that the refill of the source, which uses floats, is exact here; in the
--   source a token may be whole a moment earlier or later by rounding errors.
-- - Http (internal/httpapi/json.go, cookie.go, principal.go, internal/auth/session.go): requests,
--   responses and cookies. A handler takes a request and a state to a response and a state.
-- - Middleware (internal/httpapi/middleware_auth.go, middleware_csrf.go, middleware_cors.go,
--   trusted_ip.go, rate_limit.go): functions on handlers, with the address of the client and the
--   principal as fields of the request where the source has them in its context.
-- - Subdomain (internal/httpapi/subdomain.go, internal/cloudflare/reserved.go): the labels.
-- - Handlers (internal/httpapi/devices_deps.go, devices_heartbeat.go, devices_register.go,
--   auth.go, admin_enrollment.go): each handler is a chain of functions, one for each phase behind an early return. The state is the
--   database and the calls to Cloudflare so far.
-- - DeviceJwt (internal/devicejwt): the ring of signing keys, Sign and Verify, and the ring file.
-- - Password (internal/auth/password.go, enrollment_tokens.go): what is stored of a secret.
-- - Cloudflare (internal/cloudflare/client.go): the HTTP client, which is a DNSClient of Handlers.
-- - Webui (internal/webui): the pages, the redirects by cookie and the split by host.
-- - Router (internal/httpapi/router.go, health.go): the routes of each deployment and their chains.
-- - Config (internal/config/config.go): the configuration from the environment.
-- - Cli (cmd/camhub): the commands; Cli/Serve has the start of the server, which puts the parts
--   together.
-- - Samples: concrete libraries for the tests.
-- - Netip: the addresses and prefixes of the package net/netip. Common: shared lists, bytes, tables.
--
-- Text is a list of bytes and a time is a number of nanoseconds, both over the native numbers. No
-- function runs on fuel, but the search for a free subdomain counts down the 98 suffixes that the
-- source tries.
--
-- Parameters stand for code outside the repository: url.Parse, netip.ParseAddr and Addr.String, the
-- JSON decoder behind the limit on the body, the tables of the package unicode for text beyond ASCII,
-- ed25519, Argon2id, base64, hex, JSON, html/template, chi's choice of a pattern, the transport of
-- HTTP, files and environment variables. The device handlers take the signer of device tokens and the
-- Cloudflare client through the interfaces that the source gives them: every reply is possible.
-- Cli/Serve fills these interfaces with the ring and the client. Random values are inputs.
--
-- Not modelled: logging, the migrations and the connection pool, the listener with its shutdown, the
-- tickers of the background loops, what the commands print, the rounding of the limiter's floats, and a
-- COMMIT that the database carries out but whose reply is lost. Concurrent requests are sequences of
-- calls; a lock or a transaction is one step where nothing else can come between.
pub mod Common
pub mod Netip
pub mod RateLimit
pub mod Store
pub mod Http
pub mod Middleware
pub mod Subdomain
pub mod Handlers
pub mod DeviceJwt
pub mod Password
pub mod Cloudflare
pub mod Webui
pub mod Router
pub mod Config
pub mod Cli
pub mod Samples
