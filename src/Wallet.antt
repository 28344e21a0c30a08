-- ===== src/Wallet.antt =====
-- Business wallets: internal/domain/wallet.go, internal/repository/postgres/wallet_repo.go and
-- wallet_transaction_repo.go, internal/service/wallet_service.go.
pub mod Store
pub mod Service
pub mod Updates
pub mod Locks
pub mod Deposits
pub mod Withdrawals
pub mod Redelivery
pub mod Effects
pub mod Reconciled
