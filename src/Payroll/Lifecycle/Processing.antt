-- ===== src/Payroll/Lifecycle/Processing.antt =====
-- `ProcessPayrollRunInstantly` and `ProcessApprovedPayroll` of
-- internal/service/payroll_processing.go. What the transfer service and the verification query
-- answer are arguments; e-mails are not modelled.
use payflow_backend.Common.{
  ℕ, Bool, true, false, Option, none, some, List, [], ◌∷◌, ◌++◌, ◌||◌, not, ◌==◌, if◌then◌else◌,
  length,
}
use payflow_backend.Common.Errors.{Error, Result, ok, err}
use payflow_backend.Payroll.Types.{Status}
use payflow_backend.Payroll.Loans.{LoanFaults, update_loan_balances}
use payflow_backend.Payroll.Lifecycle.Store.{
  Payee, RunEntry, StoredRun, SingleTransferRequest, World, with_status, find_by_id, update,
}
use payflow_backend.Payroll.Lifecycle.Transfers.{
  Names, batch_load_employees_for_entries, build_transfer_requests,
}

-- The answers to one call: which queries fail, what `ExecuteBatchTransfer` returns (`none` for an
-- error, else the number of successful transfers), and whether the database shows them all.
pub record Answers : Type 0 where
  pub find_fails : Bool
  pub start_fails : Bool
  pub employees : Option (ℕ → Option Payee)
  pub bulk : Option ℕ
  pub mark_failed_fails : Bool
  pub all_verified : Bool
  pub finish_fails : Bool
  pub loan_faults : LoanFaults

abbrev pub is_payable : Status → Bool
is_payable Status.approved = true
is_payable Status.draft = true
is_payable _ = false

abbrev pub id_if_loaded : ℕ → Option Payee → List ℕ
id_if_loaded i none = []
id_if_loaded i (some p) = i ∷ []

-- The entries' employees that are loaded.
unfoldable pub paid_employees : List RunEntry → List ℕ
paid_employees [] = []
paid_employees (e ∷ es) = id_if_loaded e.employee_id e.employee ++ paid_employees es

abbrev pub is_approved : Status → Bool
is_approved Status.approved = true
is_approved _ = false

abbrev pub outcome : Result StoredRun × World → Result (Unit {0}) × World
outcome (ok r, w) = (ok tt, w)
outcome (err e, w) = (err e, w)

module _ (names : Names) (a : Answers) where
  -- The last update, after which loans are repaid if the run is completed.
  unfoldable pub finish : Bool → StoredRun → World → Result StoredRun × World
  unfolding update
  finish success run w =
      let final : StoredRun =
        if success
        then record run { status = Status.completed; payment_reference = some run.id }
        else with_status Status.failed run in
      if a.finish_fails
      then (err Error.other, w)
      else if success
      then (
        ok final,
        record (update false final w) {
          loans = update_loan_balances a.loan_faults (paid_employees run.entries) w.loans;
        },
      )
      else (ok final, update false final w)

  -- After the call of the transfer service.
  unfoldable pub settle : Option ℕ → (transfers : ℕ) → StoredRun → World → Result StoredRun × World
  unfolding update finish
  settle none transfers run w =
      (err Error.other, update a.mark_failed_fails (with_status Status.failed run) w)
  settle (some successful) transfers run w =
      finish (successful == transfers || a.all_verified) run w

  -- With the run in status `processing`, stored and in hand.
  unfoldable pub pay_out : List SingleTransferRequest → StoredRun → World → Result StoredRun × World
  unfolding settle
  pay_out [] run w = (err Error.other, w)
  pay_out (t ∷ ts) run w =
      settle a.bulk (length (t ∷ ts)) run (record w { batches = (t ∷ ts) ∷ w.batches })

  -- The run was found.
  unfoldable pub process_found : Result StoredRun → World → Result StoredRun × World
  unfolding update pay_out build_transfer_requests batch_load_employees_for_entries
  process_found (err e) w = (err e, w)
  process_found (ok run) w =
      let started = with_status Status.processing run in
      let loaded = record started {
        entries = batch_load_employees_for_entries a.employees run.entries;
      } in
      if not (is_payable run.status)
      then (err Error.validation_failed, w)
      else if a.start_fails
      then (err Error.other, w)
      else pay_out (build_transfer_requests names run.id loaded.entries) loaded
          (update false started w)

  -- `ProcessPayrollRunInstantly`
  unfoldable pub process_payroll_run_instantly : ℕ → World → Result StoredRun × World
  unfolding find_by_id process_found
  process_payroll_run_instantly business_id w =
      process_found (find_by_id a.find_fails business_id w) w

  -- `ProcessApprovedPayroll`, the scheduler's call: anything but an approved run is skipped.
  unfoldable pub process_approved_payroll : (find_fails : Bool) → World → Result (Unit {0}) × World
  unfolding process_payroll_run_instantly
  process_approved_payroll true w = (err Error.other, w)
  process_approved_payroll false w =
      if is_approved w.run.status
      then outcome (process_payroll_run_instantly w.run.business_id w)
      else (ok tt, w)
