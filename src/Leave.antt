-- ===== src/Leave.antt =====
-- internal/service/leave_service.go, internal/domain/leave.go and
-- internal/repository/postgres/leave_repo.go: leave requests and balances.
pub mod Days
pub mod Store
pub mod Service
pub mod Keys
pub mod Requests
pub mod Balances
pub mod Fair
pub mod Submitting
pub mod Approving
pub mod History
