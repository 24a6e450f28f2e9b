-- ===== src/Service.antt =====
-- The package backend/internal/service: one definition for each handler, over the stored state. A
-- handler returns its answer with the new state, or an error and no state.
pub mod Actor
pub mod Ledger
pub mod View
pub mod Lists
pub mod Page
pub mod Tx
pub mod Offer
pub mod Accept
pub mod Export
pub mod Refund
pub mod Import
pub mod Cancel
pub mod Sweep
pub mod Mint
pub mod Approvals
pub mod Admin
pub mod Session
pub mod Auth
pub mod Security
