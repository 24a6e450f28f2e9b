-- ===== src/Lib.antt =====
-- Verification of the backend of the interstellar trade platform: colonies with accounts, trades
-- between users of two colonies, and signed messages that travel between colonies in bundles.
--
-- The program has four layers. backend/internal/domain holds the data model, the trade state machine
-- and checked amounts; backend/internal/storage keeps the state, in a file or in PostgreSQL;
-- backend/internal/service has one handler per call, each run as an update of the store, under the
-- mutex of the file store; and backend/internal/httpapi answers requests by these calls. A trade is
-- created and exported by the seller's colony, imported and accepted by the buyer's, settled or
-- refunded by the seller's, and the result is imported by the buyer's.
--
-- Domain.* models backend/internal/domain, under the names of its types and functions: State the
-- stored documents of model.go, Views what handlers return, Payload the messages and what is signed,
-- Status and Trade the state machine of trade_state.go, Amount its limits, Roles `NormalizeRoles`,
-- Clock the timestamps, Errors the errors. Service.* models backend/internal/service: Actor,
-- Session and Ledger are common.go, Offer, Accept, Export and Import are trade.go, Refund, Cancel and
-- Sweep are trade_lifecycle.go, Mint and Admin are admin.go, Approvals is approvals.go, Auth is
-- auth.go, Security is security.go, View, Lists and Page are view.go (with ListApprovals of
-- approvals.go), and Tx holds the writes that all of them make. Storage is
-- backend/internal/storage/store.go, in its form for files; Storage.Postgres is pg_persist.go, with
-- the retries of pg_store.go in Retry. Money.* defines what balances, escrow and supply are and
-- relates the handlers to them; Money.Run puts all calls together.
--
-- Http.* models backend/internal/httpapi: Request what a request holds and the tests on its headers
-- (observability.go, security_handlers.go), Handlers the handlers of handlers.go and, in Account, of
-- security_handlers.go, Routes the table of API.Handler, Middleware what stands before it (server.go,
-- security_handlers.go, handlers.go). Http.Effect and Http.Refines relate requests to the calls of
-- Money.Run.
--
-- A handler takes the host, its inputs, the state and the request, and returns an error or its answer
-- with the new state. The host is what lies outside the program's logic: ed25519 signatures, SHA-256,
-- password hashing and one-time codes, as arbitrary functions. The inputs are what one call reads from
-- the clocks and the random source, by the number of the reading. A map is an association list in
-- which the first entry of a key counts, and a write through a pointer is a write under its key. An
-- identifier, token, key or signature is a number, and 0 is the empty string; a name is the list of its
-- bytes. An amount is an integer with int64 arithmetic written out where the source does not check it.
-- Handlers that read the store before they update it take the state that they read as an argument
-- of its own, so any other call may come in between.
--
-- A request holds its decoded body, or none where decoding fails, the segments of its path, and the
-- values of its headers, with the empty text for a missing one. Texts become identifiers by a function
-- of the settings.
--
-- The one search with fuel is `reachable`, with 10 rounds, which are enough since each of the 9 states
-- is queued at most once. The binary search for a ledger page is recursion on the gap that it still
-- looks at. A client that reads the ledger page by page has fuel for one page more than there are
-- entries.
--
-- The PostgreSQL store is modelled by the statements that it executes for a state and for what it
-- remembers to have loaded; the database is a parameter. The calls of Money.Run and Http are those on
-- the file store.
--
-- Not modelled: how the PostgreSQL store loads a state by its scope (pg_load.go) and its migrations,
-- JSON, the loading of the file, metrics, logs and the audit trail, panics, static files and the
-- shutdown of the server, and the web client.
pub mod Base
pub mod Domain
pub mod Storage
pub mod Service
pub mod Money
pub mod Http
pub mod Tests
