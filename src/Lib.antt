-- ===== src/Lib.antt =====
-- PayFlow: payroll for businesses in Nigeria and Ghana, paid from a business wallet.
--
-- A payroll run is calculated from cadres, loans and adjustments with the statutory deductions of
-- the business's country; it is submitted, approved and paid out as one batch of bank transfers.
-- The money is in wallets whose every movement is mirrored in a double-entry ledger. A transfer locks
-- its amount in the wallet, is sent through a chain of payment providers, each behind a circuit
-- breaker, and is withdrawn when the provider reports it settled. Employees take leave from yearly
-- balances; settings are stored encrypted; a limiter bounds the transfers of a business.
--
-- The files and what they model (paths from the repository's root):
--   Common          Booleans, lists, signed numbers and int64 words, results, equality of texts
--   Tax             internal/service/tax and its folder ghana: Calculate of both engines, with
--                   applyBrackets, calculateMonthlyPAYE, the contributions, and
--                   CalculateForCountry; Spec and Refinement hold the rules over the natural
--                   numbers and the proof that the int64 code computes them
--   Payroll.Types   internal/domain: cadre.go, employee.go, business.go, loan.go, payroll.go
--   Payroll.Calculation  internal/service/payroll_calculation.go: Entries is
--                   calculateEmployeeEntry, Runs is CalculatePayrollRun
--   Payroll.Loans   internal/service/loan_service.go, and updateLoanBalances
--   Payroll.Lifecycle  internal/service/payroll_service.go (Approval) and payroll_processing.go
--                   (Transfers, Processing), over one run, its loans and the batches asked for
--   Ledger          internal/service/ledger_service.go, internal/repository/postgres/ledger_repo.go
--   Wallet.Store    internal/repository/postgres/wallet_repo.go, wallet_transaction_repo.go
--   Wallet.Service  internal/service/wallet_service.go: locks, RecordDeposit, RecordWithdrawal
--   Provider.Breaker  internal/service/provider/circuit_breaker.go
--   Provider.Manager  internal/service/provider/manager.go: the fallback chain (InitiateTransfer)
--   Provider.Bulk   the same file: the worker pool, batches and their chunks (InitiateBulkTransfer)
--   Transfers.Types, Transfers.Table  internal/domain/transfer.go and
--                   internal/repository/postgres/transfer_repo.go
--   Transfers.Prepare, Transfers.Service  internal/service/transfer_service.go: ExecuteTransfer and
--                   RetryTransfer over the wallet, the table and the providers
--   Transfers.Responses, Transfers.Batch  internal/service/transfer_batch.go: ExecuteBatchTransfer
--   Leave           internal/service/leave_service.go, internal/domain/leave.go and
--                   internal/repository/postgres/leave_repo.go
--   Limits.Velocity  internal/api/middleware/velocity.go
--   Settings        pkg/utils/encryption.go, internal/service/platform_settings_service.go and
--                   internal/repository/postgres/platform_setting_repo.go
--   Examples        the theorems at concrete values
--
-- State is passed explicitly: an operation takes the tables and returns a Go result with the
-- new tables. Every database call that may fail is an argument that says whether it does, so a
-- theorem over all arguments speaks of every pattern of failures. int64 arithmetic wraps
-- (Common.Int64); the wallets' columns refuse what is negative or does not fit, as in
-- PostgreSQL. Loops are structural over lists, but for two: the loop over the chunks of a batch
-- has as much fuel as the batch has transfers, and the loop over the days of a leave as many
-- rounds as days since 1970; theorems show that both suffice. The workers of a batch run under
-- an arbitrary schedule. Other requests are served one after another: two calls at once on the
-- same payroll run or wallet are not modelled.
--
-- Arguments of the model: float64 arithmetic, strings.EqualFold and the calendar
-- (Payroll.Types.Go), the bank name table and fmt.Sprintf (Payroll.Lifecycle.Transfers.Names),
-- and the answers of the transfer service and of the verification query
-- (Payroll.Lifecycle.Processing.Answers); the payment providers, functions of a world that they
-- change, and its clock (Provider.Manager); the texts of fmt (Provider.Bulk.Texts), strconv and
-- rounding (Transfers.Prepare.Parsing), strings.Split and TrimSpace; the year of a time; and
-- crypto with base64 (Settings.Encryption.Cipher).
--
-- Not modelled: the HTTP handlers, mails, caches and logs, which do not touch these tables; the
-- provider adapters and schedulers, which are input and output; the enquiries and listings, which
-- only read; accounts and authentication, plan limits, name matching, anomaly detection and the
-- daily reconciliation.
pub mod Common
pub mod Tax
pub mod Payroll
pub mod Transfers
pub mod Leave
pub mod Limits
pub mod Settings
pub mod Ledger
pub mod Wallet
pub mod Provider
pub mod Examples
