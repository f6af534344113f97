-- ===== src/Store.antt =====
-- internal/database/store.go: the tables that the services change.
pub mod Rules
pub mod Nodes
mod Tests
