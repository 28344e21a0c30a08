-- ===== src/Limits.antt =====
-- internal/api/middleware: the limits on requests.
pub mod Velocity
