-- ===== src/Upstream.antt =====
-- internal/upstream: the client of the external TSA, and the checks on where it may connect.
pub mod Client
pub mod Address
pub mod Allowlist
