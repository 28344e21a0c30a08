-- ===== src/Tax.antt =====
-- The statutory tax engines (internal/service/tax): Nigeria, Ghana and the choice between them.
pub mod Types
pub mod Brackets
pub mod Schedule
pub mod Nigeria
pub mod Ghana
pub mod Selector
