-- ===== src/Lib.antt =====
-- Proxywi: a server with an HTTP and a SOCKS5 proxy, which sends each connection through one of the
-- agents that hold a tunnel to it, and a web GUI over an SQLite database.
--
-- Common: shared names, tests, lists, byte strings (`Common/Text`, ASCII versions of the functions
--   of `strings`; `Common/Integers` is strconv's ParseInt, `Common/Hosts` net.SplitHostPort) and
--   maps as lists of pairs (`Common/Map`).
-- Storage: internal/storage/storage.go. `Storage/Rows` has the tables, `Storage/Query` a statement
--   and a transaction over them; each child is a table's operations, under the names of the methods
--   of `Store`. A statement fails where the list `faults` of the database says so, or where it
--   breaks a UNIQUE or FOREIGN KEY constraint. `Storage/Retention` is also `runRetentionSweep` of
--   cmd/proxywi-server/main.go.
-- Server/RateLimiter, Registry, Hub, Gate: internal/server/ratelimit.go, registry.go, hub.go and
--   security.go. A method is a function from the state to the answer and the state after it: what
--   it does under its mutex, which is one step, so that a run is a sequence of steps. `Allow` and
--   `Publish` read the clock before they take the mutex, so the times of a sequence need not rise,
--   and `Disconnect` closes the session after it has released it. `Publish` shares its lock with
--   other publications; for each channel these come in some order.
-- Server/State: what those parts share, and `logEvent` of the two front ends.
-- Server/Tunnel: internal/tunnel/protocol.go.
-- Server/Socks: internal/server/proxy_socks.go; `Wire` has the messages, and the functions of Socks
--   are `handle` from its start, from the credentials, from the request and from the target on;
--   `Serve` is the accept loop with its semaphore, as events that can or cannot happen.
-- Server/Http: internal/server/proxy_http.go; `Basic` is `parseProxyAuth`, `Headers` the hop-by-hop
--   headers, and the functions of Http are `ServeHTTP` in its parts.
-- Server/Control: `serve` and `authenticateToken` of internal/server/control.go; `Control/Meta` is
--   `readMetaStream`, a sequence of messages and ticks, with the `OnEvent` of main.go.
-- Server/Gui: internal/server/gui. `Sessions`, `Csrf` and `Limits` are the middleware and the
--   logins, `Dashboard`, `Clients`, `Access`, `Logs` (with `Targets`) and `TokenLogs` the handlers,
--   `Routes` the table of gui.go, `Router` a request on its way through guards and handler, and
--   `Stream` the event streams of sse.go.
-- Client: internal/client/client.go. `Session` is `Run`, `Streams` is `handleStream`, `Metrics` is
--   `metaLoop`, `Acl` the ACL, with prefixes as lists of bits; `Backoff` is the loop of
--   cmd/proxywi-client/main.go around `Run`.
-- Config: internal/config/config.go. Languages: internal/i18n/i18n.go.
-- Command: `AdminSet` is cmd/proxywi-server/admin.go, `Bootstrap` the start in main.go.
-- Tests: each theorem at a concrete input.
--
-- How they interact: a front end asks the gate (which reads the users of the storage and the rate
-- limiter), then the registry for an agent, opens a stream there, and logs the request into the
-- storage and the hub. The GUI reads and writes the storage; the tokens that it gives to clients are
-- those that the control channel asks for, the passwords those that the gate compares, and what an
-- agent's `metaLoop` reports is what `readMetaStream` stores and the dashboard shows.
--
-- Bounds and fuel: numbers of Go's int64 are natural numbers without overflow, where the code only
-- adds byte counts, ids and times; times are nanoseconds since Go's zero time in the limiter and
-- Unix seconds in the storage. Loops are structural recursion on the rows, bytes or rounds they go
-- through; `migrationFloor` runs on fuel of the target's size, which is enough where the source's
-- versions rise, and `GenerateUniqueClientName` on the code's own fifty rounds.
--
-- Arguments stand for what is not of this repository: bcrypt (where a theorem needs it: it accepts a
-- password for the hash it made of it), random tokens, the petname generator, SQLite's LIKE, the
-- versions of the migration source, chi's match of a pattern, the parsers of net/netip, the resolver,
-- and the network (whether a stream opens, what an agent replies, what is copied). The order in which
-- a Go map is iterated plays no part or is an argument.
--
-- Not modelled: socket deadlines and the goroutines that copy bytes, which have no state of the
-- program's own; websocket, yamux and JSON; templates, constant headers and files; listeners, the
-- dispatch and the shutdown in main.
pub mod Common
pub mod Storage
pub mod Server
pub mod Client
pub mod Config
pub mod Languages
pub mod Command
pub mod Tests
