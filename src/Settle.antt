-- ===== src/Settle.antt =====
-- The settlement of decisions in PostgreSQL, the `Worker` of backend/internal/redisengine/engine.go:
-- one ledger message at a time, over the rows of one auction.
pub mod Data
pub mod Rows
pub mod Attempt
pub mod Apply
pub mod Worker
pub mod Projection
pub mod Written
pub mod Next
pub mod Decision
pub mod Once
pub mod Conflict
pub mod Accepted
pub mod Log
pub mod Forward
pub mod Tests
