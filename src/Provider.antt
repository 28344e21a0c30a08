-- ===== src/Provider.antt =====
-- internal/service/provider: the providers of transfers and their circuit breakers.
pub mod Breaker
pub mod Manager
pub mod Bulk
