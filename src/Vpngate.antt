-- ===== src/Vpngate.antt =====
-- internal/vpngate: the use of public VPNGate servers.
pub mod Sanitize
mod Tests
