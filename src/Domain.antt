-- ===== src/Domain.antt =====
-- The package backend/internal/domain: data model, trade state machine, amounts, errors, clock
-- and hashing, without the service that uses them.
pub mod Text
pub mod Errors
pub mod Clock
pub mod Status
pub mod Payload
pub mod State
pub mod Views
pub mod Order
pub mod Amount
pub mod Trade
pub mod Host
pub mod Roles
