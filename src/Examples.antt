-- ===== src/Examples.antt =====
-- The theorems at concrete values, and runs of the definitions.
mod Taxes
mod Payrolls
mod Wallets
mod Runs
mod Breakers
mod Providers
mod Batches
mod Transfers
mod Leaves
mod Limits
mod Settings
