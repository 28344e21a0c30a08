-- ===== src/Payroll/Calculation.antt =====
-- internal/service/payroll_calculation.go: one employee's entry, and the run over all employees.
pub mod Entries
pub mod Runs
pub mod Details
pub mod Totals
pub mod Payable
pub mod RunTotals
pub mod Outcome
