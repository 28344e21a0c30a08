-- ===== src/Payroll.antt =====
-- Payroll: internal/domain/payroll.go and the payroll services of internal/service.
pub mod Types
pub mod Calculation
pub mod Loans
pub mod Lifecycle
