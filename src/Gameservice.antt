-- ===== src/Gameservice.antt =====
-- The game service, after services/game-service.
pub mod Mapping
pub mod Server
pub mod History
pub mod Examples
