-- ===== src/Engine.antt =====
-- internal/engine/engine.go, as far as the monitor and the nodes ask it: who owns the sockets.
pub mod Sockets
pub mod Summary
mod Tests
