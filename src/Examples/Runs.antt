-- ===== src/Examples/Runs.antt =====
-- A payroll run with one payable employee, and its loan.
use payflow_backend.Common.{
  ◌≤◌, ◌≡◌, refl, true, false, none, some, List, [], ◌∷◌, All, length, replicate, arith,
}
use payflow_backend.Common.Int.{pos, ◌+ℤ◌}
use payflow_backend.Common.Errors.{Error, ok, err}
use payflow_backend.Payroll.Types.{Status, Loan, LoanStatus, Business}
use payflow_backend.Payroll.Loans.{LoanFaults, update_loan_balances}
use payflow_backend.Payroll.Loans.Laws.{IsSettled, update_loan_balances-IsSettled}
use payflow_backend.Payroll.Lifecycle.Store.{Payee, RunEntry, World, find_by_id}
use payflow_backend.Payroll.Lifecycle.Transfers.{
  Names, batch_load_employees_for_entries, build_transfer_requests,
}
use payflow_backend.Payroll.Lifecycle.Processing.{Answers, process_payroll_run_instantly}
use payflow_backend.Payroll.Lifecycle.Approval.{Replies}
use payflow_backend.Payroll.Lifecycle.Once.{Request, serve_all}
use payflow_backend.Payroll.Lifecycle.History.{serve_all_pays_once}
use payflow_backend.Payroll.Lifecycle.Closed.{process-stuck}

abbrev a_loan : Loan
a_loan = record {
  id = 1;
  business_id = 7;
  employee_id = 11;
  loan_amount = pos 100;
  monthly_deduction = pos 30;
  total_repaid = pos 80;
  remaining_balance = pos 20;
  status = LoanStatus.active;
  description = "";
}

abbrev no_loan_faults : LoanFaults
no_loan_faults = record { load_fails = λ i. false; save_fails = λ i. false }

a_loan-IsSettled : IsSettled a_loan
unfolding ◌+ℤ◌
a_loan-IsSettled = (omega arith, omega arith, omega arith, refl, (omega arith, omega arith), tt)

update_loan_balances-IsSettled_example :
    All IsSettled (update_loan_balances no_loan_faults (11 ∷ 12 ∷ []) (a_loan ∷ []))
update_loan_balances-IsSettled_example =
    update_loan_balances-IsSettled no_loan_faults (11 ∷ 12 ∷ []) (a_loan ∷ [])
      (a_loan-IsSettled, tt)

abbrev a_payee : Payee
a_payee = record {
  full_name = "Ada";
  bank_name = "gtb";
  bank_account_number = replicate 10 49;
  bank_account_verified = true;
}

abbrev an_entry : RunEntry
an_entry = record { id = 1; employee_id = 11; net_pay = pos 5000; employee = some a_payee }

abbrev a_world : Status → List RunEntry → World
a_world st entries = record {
  run = record {
    id = 9;
    business_id = 7;
    status = st;
    rejection_reason = "";
    payment_reference = none;
    entries = entries;
  };
  loans = a_loan ∷ [];
  batches = [];
  scheduled = 0;
  next_entry_id = 2;
}

-- Every bank is 058.
abbrev names : Names
names = record {
  bank_code = λ name. some "058";
  sprintf_010s = λ digits. digits;
  sprintf_d = λ n. "5000";
}

abbrev answers : Answers
answers = record {
  find_fails = false;
  start_fails = false;
  employees = none;
  bulk = some 1;
  mark_failed_fails = false;
  all_verified = false;
  finish_fails = false;
  loan_faults = no_loan_faults;
}

abbrev a_business : Business
a_business = record {
  payroll_requires_approval = true;
  payroll_auto_process = true;
  pension_enabled = true;
  nhf_enabled = true;
  nsitf_enabled = true;
  paye_enabled = true;
  currency = "NGN";
  subscription_tier = "free";
}

abbrev replies : Replies
replies = record {
  find_fails = false;
  business = some a_business;
  employees = none;
  schedule_fails = false;
  update_fails = false;
  undo_fails = false;
  refetch_fails = false;
  answers = answers;
}

-- Submitted, approved with automatic payout, and then asked for two more payouts.
abbrev requests : List Request
requests =
    Request.submit replies (some 7)
    ∷ Request.approve replies (some 7)
    ∷ Request.process_now answers 7
    ∷ Request.scheduled answers false
    ∷ []

serve_all_pays_once_example :
    length (serve_all names requests (a_world Status.draft (an_entry ∷ []))).batches ≤ 1
serve_all_pays_once_example =
    serve_all_pays_once names requests (a_world Status.draft (an_entry ∷ [])) refl

abbrev unloaded : RunEntry
unloaded = record { id = 1; employee_id = 11; net_pay = pos 5000; employee = none }

found :
    find_by_id false 7 (a_world Status.approved (unloaded ∷ []))
    ≡ ok (a_world Status.approved (unloaded ∷ [])).run
unfolding find_by_id
found = refl

nobody_payable :
    build_transfer_requests names 9 (batch_load_employees_for_entries none (unloaded ∷ [])) ≡ []
unfolding build_transfer_requests batch_load_employees_for_entries
nobody_payable = refl

process-stuck_example :
    ((process_payroll_run_instantly names answers 7 (a_world Status.approved (unloaded ∷ []))).0
      ≡ err Error.other)
    × ((serve_all names requests
          (process_payroll_run_instantly names answers 7
            (a_world Status.approved (unloaded ∷ []))).1).run.status
        ≡ Status.processing)
process-stuck_example =
    process-stuck names answers 7 (a_world Status.approved (unloaded ∷ [])) requests found refl refl
      nobody_payable
