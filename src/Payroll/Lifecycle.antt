-- ===== src/Payroll/Lifecycle.antt =====
-- The life of one payroll run: internal/service/payroll_service.go and payroll_processing.go.
pub mod Store
pub mod Transfers
pub mod Processing
pub mod Approval
pub mod Once
pub mod Steps
pub mod History
pub mod Closed
