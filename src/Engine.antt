-- ===== src/Engine.antt =====
-- The hot decision engine: the two Lua scripts of backend/internal/redisengine/engine.go, which
-- Redis runs atomically, one call after the other.
pub mod Data
pub mod State
pub mod Store
pub mod Place
pub mod Confirm
pub mod Effect
pub mod Run
pub mod Guards
pub mod Rebuild
pub mod Tests
