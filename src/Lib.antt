-- ===== src/Lib.antt =====
-- gxydb-api: the server that follows users in and out of the rooms of a video conference, and
-- keeps the gateways (Janus) that carry them in line with its database. This library models the
-- parts that decide what is written and who may ask for it, and proves what they promise.
--
-- The parts, and the files of the repository that they are translated from:
-- - Base: lists, maps as association lists, integers, text, and the tests that the code uses.
-- - Errors, Models, World: error values (pkg/errs/types.go and the error types of api/session.go),
--   the rows of the database (models/*.go), and the state that handlers share: the tables, the
--   caches, and the number of calls that left the process. `Env` says how each such call ends,
--   what the clock shows and which ids the server gives, so a theorem for every `Env` covers every
--   pattern of failures. A function that changes the state is an `Action`.
-- - Tx: `InTx` of pkg/sqlutil/tx.go. Tx/Atomic is about its atomicity.
-- - Cache: api/cache.go, with a child for each cache; Cache/Laws is about reloading.
-- - Session: `V1SessionManager` of api/session.go. `handle_event`, `handle_protocol` and
--   `update_session` are `HandleEvent`, `HandleProtocol` and `UpsertSession`; Session/Table has
--   their statements on the tables. Session/Enter, Leave and Update are about what each does, for
--   which Session/Client writes out the row that a client's data makes, Session/Safety about
--   requests that fail, Session/Presence about where users are after any run
--   of requests, Session/Stale about a user who is in the cache only. Session/Cleaner is the
--   cleaner of dead sessions, and Session/Cleaned is about it.
-- - Auth: middleware/auth.go, middleware/permissions.go and middleware/context.go, with the roles
--   of common/consts.go in Auth/Roles. Auth/Protected is about who gets to the router.
--   Auth/Failover is the verifier that tries one issuer after another.
-- - Tokens: `GatewayTokensManager.syncGatewayTokens` of domain/gateways.go and what it calls.
--   Tokens/Plan is the part that only computes, Tokens/Store and Tokens/Converge are about the
--   steps, Tokens/Synced about the whole. Tokens/Rounds is `SyncAll`, Tokens/Active `ActiveToken`,
--   and Tokens/Registry the registry of admin APIs.
-- - Admin: the handlers of api/api_admin.go that change the dynamic configuration; Admin/Coherent
--   is about the cache that they reload, Admin/Undone about a change that fails.
--   Admin/RoomHandlers has the handlers of rooms, and Admin/Rooms their transactions, which also
--   tell the gateways: what these carried out is the field `sent` of the state. Admin/Told and
--   Admin/Telling are about the loop over the gateways, Admin/Removed and Admin/Apart about a
--   change that succeeds and one that fails. Admin/Reads has two handlers that read, and
--   `DecodeJSONBody` of pkg/httputil/json.go.
-- - Listing: the parameters and the queries of the handlers of api/api_admin.go that list rows a
--   page at a time; Listing/Requests has the filters and the handlers. Listing/Bounds is about
--   LIMIT and OFFSET, Listing/Pages about what the pages hold, Listing/Wanted about the filters.
-- - V1: the handlers of api/api_v1.go. V1 itself has those that change sessions, and the recovery
--   of a panic (middleware/recovery.go); V1/Rooms makes the answers, V1/Reads has the handlers
--   that read, V1/Changes those that change groups, rooms and composites. V1/Active is about the
--   sessions that a room shows, V1/Answers about requests that are not answered with the status
--   200, V1/Composites about an update of a composite, V1/Stale about a group that is in the cache
--   only.
-- - V2: the handlers of api/api_v2.go, and `ReloadAll` with the reloading of each cache of
--   api/cache.go; V2/Offered is about the gateways that clients are offered, V2/Reloaded about
--   `ReloadAll`.
-- - App: the routes of api/app.go and the way of a request through the middlewares to its handler,
--   `serve`, over all that stands above. App/Allowed and App/Permitted are about who may ask for
--   what, App/Rollback about requests that fail, App/Paths and App/Reading about those that read,
--   App/Matched about the route that the router finds.
-- - Observer: pkg/patterns/observer.go. Monitor: a round of `SyncAll` on the table of gateways,
--   and `Notify` of api/app.go, which it leads to; Monitor/Fresh is about the cache of tokens
--   after it, Monitor/Lifetime about starting and stopping the goroutine.
-- - Collector: the two collectors of instrumentation/periodic.go. Collector/Participants is about
--   the users of rooms, Collector/Stuck about the goroutines that ask the gateways, which are the
--   steps of the relation `Round`.
-- - Network: pkg/httputil/ipaddr.go, and `isAllowedIP` of middleware/auth.go. Network/Forwarded is
--   about headers of proxies, Network/Ranges about addresses that are private.
-- - Settings: common/config.go; Settings/Read is about which environments can be read.
-- - Statistics: domain/room_statistics.go and api/service_protocol.go; Statistics/Counting is
--   about what succeeds, Statistics/Failing about what fails. Mqtt: the listener of api/mqtt.go,
--   through which such messages come too; Mqtt/Delivered is about a message that is delivered
--   to its handler.
-- - Examples, and the files Tests: concrete data, on which the functions are run.
--
-- How they interact: a handler runs its statements in one transaction (Tx), reads rooms, gateways
-- and users from the caches (Cache), and writes users to theirs. The middlewares (Auth) stand
-- before all handlers, and App puts them together. Tokens and Statistics work on rows of their
-- own; Monitor carries what Tokens has written into the cache.
--
-- Loops are structural recursion over the lists that the source ranges over; there is no fuel. A
-- time is a number of nanoseconds and an id is a natural number, which the source holds in 64
-- bits; the counter of a room is checked against the 32 bits of its column.
--
-- Parameters, since their code is elsewhere: Postgres' sequences, clock, operator on JSON, sorting
-- by a clause and matching of regular expressions, encoding/json, net.ParseIP, strconv, os.Getenv,
-- time.ParseDuration, the ARC cache of golang-lru, bcrypt, the verifier of tokens, and the admin
-- API of a gateway; the client of the broker (Eclipse Paho), which
-- acknowledges a message when its handler returns unless that is switched off, and url.Parse; the router of
-- gorilla/mux, which finds one of the routes, net.SplitHostPort, and the order in which goroutines
-- send. The sorting may differ from one query to the next. A call of the admin API may also never
-- return where a collector waits for it (Collector). The encryption of tokens (pkg/crypt), which calls AES of the standard library, is a
-- parameter too. So are the two tests of a room's uid in api/api_admin.go that are no Go, and the
-- uid that is free for a new room, since the query for it adds a number to a text.
--
-- A number of 64 bits wraps in the OFFSET of a list (Listing). A query and those for the relations
-- that it loads are one call.
--
-- Not modelled: start-up and shutting down, CORS, the answer of /metrics, the encoding of HTTP
-- (pkg/httputil), logging, the tickers that start rounds, and other clients of the database
-- between BEGIN and COMMIT. A column `properties` that holds the JSON text null, which makes a nil
-- map, on which a write panics, is not told apart from an empty map. A term of a list of rooms
-- that is a number from 2 ^ 63 on, which the driver of the database refuses, is compared like any
-- other.
pub mod Base
pub mod Errors
pub mod Models
pub mod Cache
pub mod World
pub mod Tx
pub mod Session
pub mod Auth
pub mod Tokens
pub mod Examples
pub mod Statistics
pub mod Admin
pub mod Listing
pub mod V1
pub mod Settings
pub mod V2
pub mod Collector
pub mod Network
pub mod App
pub mod Observer
pub mod Monitor
pub mod Mqtt
