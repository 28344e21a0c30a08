-- ===== src/Payroll/Loans.antt =====
-- internal/service/loan_service.go, and `updateLoanBalances` of internal/service/payroll_processing.go
-- with the query of internal/repository/postgres/loan_repo.go.
pub mod Laws
use Prim.Native.String.{String}
use payflow_backend.Common.{
  ℕ, Bool, true, false, Option, none, some, List, [], ◌∷◌, ◌&&◌, not, ◌==◌, if◌then◌else◌, map,
}
use payflow_backend.Common.Int.{ℤ, pos, ltb_ℤ, leb_ℤ}
use payflow_backend.Common.Int64.{add64, sub64}
use payflow_backend.Common.Errors.{Error, Result, ok, err}
use payflow_backend.Payroll.Types.{Loan, LoanStatus}

-- `Create`: what the caller filled in, with the derived fields set.
unfoldable pub create : (fails : Bool) → Loan → List Loan → Result Loan × List Loan
create true loan loans = (err Error.other, loans)
create false loan loans =
    let new : Loan = record loan {
      remaining_balance = loan.loan_amount;
      total_repaid = pos 0;
      status = LoanStatus.active;
    } in
    (ok new, new ∷ loans)

abbrev pub is_active : LoanStatus → Bool
is_active LoanStatus.active = true
is_active _ = false

-- The loan after an instalment.
unfoldable pub repay_by : ℤ → Loan → Loan
repay_by deduction_amt loan =
    let remaining = sub64 loan.remaining_balance deduction_amt in
    record loan {
      total_repaid = add64 loan.total_repaid deduction_amt;
      remaining_balance = remaining;
      status = if leb_ℤ remaining (pos 0) then LoanStatus.completed else loan.status;
    }

-- One loan of the loop: the instalment is the monthly deduction, or what remains if that is less.
unfoldable pub repay : Loan → Loan
unfolding repay_by
repay loan =
    if leb_ℤ loan.remaining_balance (pos 0)
    then loan
    else repay_by
        (if ltb_ℤ loan.remaining_balance loan.monthly_deduction
          then loan.remaining_balance
          else loan.monthly_deduction)
        loan

-- `Cancel`: of a loan found by its id.
unfoldable pub cancel : (save_fails : Bool) → ℕ → Option Loan → Result Loan
cancel save_fails business_id none = err Error.not_found
cancel save_fails business_id (some loan) =
    if not (loan.business_id == business_id)
    then err Error.forbidden
    else if not (is_active loan.status)
    then err Error.validation_failed
    else if save_fails
    then err Error.other
    else ok (record loan { status = LoanStatus.cancelled })

-- Which queries for an employee's loans fail, and which loans cannot be saved.
pub record LoanFaults : Type 0 where
  pub load_fails : ℕ → Bool
  pub save_fails : ℕ → Bool

module _ (f : LoanFaults) (employee_id : ℕ) where
  -- The query selects the employee's active loans; a failed save leaves the row.
  unfoldable pub repay_row : Loan → Loan
  unfolding repay
  repay_row loan =
      if loan.employee_id == employee_id && is_active loan.status && not (f.save_fails loan.id)
      then repay loan
      else loan

  unfoldable pub repay_rows : List Loan → List Loan
  unfolding repay_row
  repay_rows loans = if f.load_fails employee_id then loans else map repay_row loans

-- The loop over the run's entries: the ids of the employees that were loaded.
unfoldable pub update_loan_balances : LoanFaults → List ℕ → List Loan → List Loan
unfolding repay_rows
update_loan_balances f [] loans = loans
update_loan_balances f (i ∷ is) loans = update_loan_balances f is (repay_rows f i loans)
