-- ===== src/Fanout.antt =====
-- The spectator fanout: services/fanout/internal/hub.
pub mod Hub
pub mod Manager
pub mod Examples
