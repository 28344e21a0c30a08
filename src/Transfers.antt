-- ===== src/Transfers.antt =====
-- internal/service/transfer_service.go, internal/service/transfer_batch.go and the types they share
-- with the provider manager.
pub mod Types
pub mod Table
pub mod Prepare
pub mod Service
pub mod Effect
pub mod Funds
pub mod Payments
pub mod Responses
pub mod Batch
pub mod References
pub mod Tally
pub mod Books
