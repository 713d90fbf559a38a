-- ===== src/Engine.antt =====
-- The chess engine: pkg/engine and services/engine-worker.
pub mod Uci
pub mod Client
pub mod Examples
