-- ===== src/Engine/Guards.antt =====
-- The guards of the two scripts of redisengine/engine.go compared: with Go's `ClassifyBidAmount`, with
-- one another, and with the fat-finger threshold.
pub mod Mirror
pub mod Recheck
pub mod FatFinger
