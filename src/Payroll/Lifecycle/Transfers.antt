-- ===== src/Payroll/Lifecycle/Transfers.antt =====
-- `batchLoadEmployeesForEntries` and `buildTransferRequests` of
-- internal/service/payroll_processing.go. `mapBankNameToCode`, which looks a name up
-- in a Go map after strings.ToLower, is an argument.
use Prim.Native.String.{String}
use payflow_backend.Common.{
  ℕ, ◌-◌, Option, none, some, List, [], ◌∷◌, ◌++◌, if◌then◌else◌, length, drop, map, ltb,
}
use payflow_backend.Common.Int.{ℤ}
use payflow_backend.Payroll.Lifecycle.Store.{Payee, RunEntry, SingleTransferRequest}

-- An entry without its employee takes what the repository returned for it, if anything.
unfoldable pub load_employee : (ℕ → Option Payee) → RunEntry → RunEntry
load_employee emps e = loaded e.employee (emps e.employee_id)
  where
    loaded : Option Payee → Option Payee → RunEntry
    loaded (some p) found = e
    loaded none found = record e { employee = found }

-- `none` when the query fails.
unfoldable pub batch_load_employees_for_entries :
    Option (ℕ → Option Payee) → List RunEntry → List RunEntry
unfolding load_employee
batch_load_employees_for_entries none es = es
batch_load_employees_for_entries (some emps) es = map (load_employee emps) es

-- `mapBankNameToCode`, and `fmt.Sprintf` with "%010s" and "%d".
pub record Names : Type 0 where
  pub bank_code : String → Option String
  pub sprintf_010s : List ℕ → List ℕ
  pub sprintf_d : ℤ → String

-- The last ten characters of a longer number; a shorter one is padded.
unfoldable pub account_number : Names → List ℕ → List ℕ
account_number names digits =
    if ltb 10 (length digits)
    then drop (length digits - 10) digits
    else if ltb (length digits) 10
    then names.sprintf_010s digits
    else digits

module _ (names : Names) (run_id : ℕ) where
  unfoldable pub transfer_of : ℕ → ℤ → Payee → Option String → List SingleTransferRequest
  unfolding account_number
  transfer_of employee_id net_pay p none = []
  transfer_of employee_id net_pay p (some code) =
      record {
        reference = (run_id, employee_id);
        amount = names.sprintf_d net_pay;
        bank_code = code;
        account_number = account_number names p.bank_account_number;
        account_name = p.full_name;
      }
      ∷ []

  -- One round of the loop: an entry without an employee or a known bank is skipped.
  unfoldable pub transfer_for : RunEntry → Option Payee → List SingleTransferRequest
  unfolding transfer_of
  transfer_for e none = []
  transfer_for e (some p) = transfer_of e.employee_id e.net_pay p (names.bank_code p.bank_name)

  unfoldable pub build_transfer_requests : List RunEntry → List SingleTransferRequest
  unfolding transfer_for
  build_transfer_requests [] = []
  build_transfer_requests (e ∷ es) = transfer_for e e.employee ++ build_transfer_requests es
