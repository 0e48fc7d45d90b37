-- ===== src/Settle/Conflict.antt =====
-- A settlement of redisengine/engine.go that meets another bid under its client bid id.
