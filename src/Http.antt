-- ===== src/Http.antt =====
-- The package backend/internal/httpapi: requests and answers, the handlers, the routes and the
-- middleware. Decoding JSON, parsing URLs, cookies and addresses belong to Go's library: a request
-- holds what they make of it. Access logs, metrics and the audit trail have no effect on answers and
-- are left out.
pub mod Request
pub mod Handlers
pub mod Routes
pub mod Middleware
pub mod Effect
pub mod Refines
pub mod Safe
