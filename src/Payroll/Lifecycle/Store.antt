-- ===== src/Payroll/Lifecycle/Store.antt =====
-- The row of one payroll run, the loans, and what the outside world has been asked to do.
use Prim.Native.String.{String}
use payflow_backend.Common.{
  ℕ, Bool, true, false, Option, List, [], ◌∷◌, ◌++◌, suc, ◌+◌, ◌||◌, not, ◌==◌, if◌then◌else◌,
}
use payflow_backend.Common.Int.{ℤ}
use payflow_backend.Common.Errors.{Error, Result, ok, err}
use payflow_backend.Payroll.Types.{Status, Loan}

-- The fields of `Employee` that the payout reads.
pub record Payee : Type 0 where
  pub full_name : String
  pub bank_name : String
  pub bank_account_number : List ℕ
  pub bank_account_verified : Bool

-- The fields of `PayrollRunEntry` that the payout reads; the id of an entry that was never stored is 0,
-- and `employee` may not be loaded.
pub record RunEntry : Type 0 where
  pub id : ℕ
  pub employee_id : ℕ
  pub net_pay : ℤ
  pub employee : Option Payee

pub record StoredRun : Type 0 where
  pub id : ℕ
  pub business_id : ℕ
  pub status : Status
  pub rejection_reason : String
  pub payment_reference : Option ℕ
  pub entries : List RunEntry

-- `SingleTransferRequest`: its reference is the run and the employee, the two numbers of its text.
pub record SingleTransferRequest : Type 0 where
  pub reference : ℕ × ℕ
  pub amount : String
  pub bank_code : String
  pub account_number : List ℕ
  pub account_name : String

-- `batches` lists the bulk transfers asked for, latest first, `scheduled` counts the payout jobs, and
-- `next_entry_id` is the sequence of the entries' table.
pub record World : Type 0 where
  pub run : StoredRun
  pub loans : List Loan
  pub batches : List (List SingleTransferRequest)
  pub scheduled : ℕ
  pub next_entry_id : ℕ

abbrev pub with_status : Status → StoredRun → StoredRun
with_status st run = record run { status = st }

-- `FindByID(id, businessID)`: 0 stands for any business.
unfoldable pub find_by_id : (fails : Bool) → ℕ → World → Result StoredRun
find_by_id fails business_id w =
    if fails || not (business_id == 0 || w.run.business_id == business_id)
    then err Error.other
    else ok w.run

abbrev pub count_new : List RunEntry → ℕ
count_new [] = 0
count_new (e ∷ es) = if e.id == 0 then suc (count_new es) else count_new es

-- The entries that Save inserts, those without an id, with the ids that they get from `next` on.
abbrev pub inserted_entries : (next : ℕ) → List RunEntry → List RunEntry
inserted_entries next [] = []
inserted_entries next (e ∷ es) =
    if e.id == 0
    then record e { id = next } ∷ inserted_entries (suc next) es
    else inserted_entries next es

-- `Update`: Save writes the row of the run and inserts its new entries. It neither changes an entry
-- that has an id nor deletes one that the run no longer lists.
unfoldable pub update : (fails : Bool) → StoredRun → World → World
update true run w = w
update false run w = record w {
  run = record run { entries = w.run.entries ++ inserted_entries w.next_entry_id run.entries };
  next_entry_id = w.next_entry_id + count_new run.entries;
}
