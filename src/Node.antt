-- ===== src/Node.antt =====
-- internal/node: the service that owns the proxy nodes, their ports and their firewall rules.
pub mod Ports
pub mod Sync
pub mod Panel
pub mod Reconcile
pub mod Mutations
mod Tests
mod Transactions
