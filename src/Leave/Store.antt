-- ===== src/Leave/Store.antt =====
-- internal/domain/leave.go and internal/repository/postgres/leave_repo.go: the three tables of leave.
-- A balance is unique for an employee, a leave type and a year; ids are given from 1 on.
use Prim.Native.String.{String}
use payflow_backend.Common.{
  ℕ, Bool, true, false, Option, none, some, List, [], ◌∷◌, ◌++◌, ◌&&◌, ◌==◌, if◌then◌else◌,
}
use payflow_backend.Common.Int.{ℤ}
use payflow_backend.Common.Errors.{Error, Result, ok, err}

pub record LeaveType : Type 0 where
  pub id : ℕ
  pub business_id : ℕ
  pub name : String
  pub default_days : ℤ
  pub requires_approval : Bool

pub record LeaveRequest : Type 0 where
  pub id : ℕ
  pub employee_id : ℕ
  pub business_id : ℕ
  pub leave_type_id : ℕ
  pub start_date : ℕ
  pub end_date : ℕ
  pub days : ℤ
  pub reason : String
  pub status : String
  pub approved_by_id : Option ℕ

-- What a balance is kept for.
pub record BalanceKey : Type 0 where
  pub employee_id : ℕ
  pub leave_type_id : ℕ
  pub year : ℕ

pub record LeaveBalance : Type 0 where
  pub key : BalanceKey
  pub entitled : ℤ
  pub used : ℤ
  pub remaining : ℤ

pub record LeaveTables : Type 0 where
  pub types : List LeaveType
  pub requests : List LeaveRequest
  pub balances : List LeaveBalance
  pub next_id : ℕ

abbrev pub same_key : BalanceKey → BalanceKey → Bool
same_key k l =
    (k.employee_id == l.employee_id) && ((k.leave_type_id == l.leave_type_id) && (k.year == l.year))

abbrev pub or_not_found : {A : Type 0} → (fails : Bool) → Option A → Result A
or_not_found true o = err Error.other
or_not_found false none = err Error.not_found
or_not_found false (some a) = ok a

abbrev pub or_next : {A : Type 0} → Bool → A → Option A → Option A
or_next c a o = if c then some a else o

-- `FindByID` of the leave types
unfoldable pub type_with_id : ℕ → List LeaveType → Option LeaveType
type_with_id id [] = none
type_with_id id (t ∷ ts) = or_next (t.id == id) t (type_with_id id ts)

-- `FindByID` of the leave requests
unfoldable pub request_with_id : ℕ → List LeaveRequest → Option LeaveRequest
request_with_id id [] = none
request_with_id id (r ∷ rs) = or_next (r.id == id) r (request_with_id id rs)

-- `FindByEmployeeAndType`
unfoldable pub balance_of : BalanceKey → List LeaveBalance → Option LeaveBalance
balance_of key [] = none
balance_of key (b ∷ bs) = or_next (same_key b.key key) b (balance_of key bs)

-- `Save` of a request, of which ids are unique.
unfoldable pub replace_request : LeaveRequest → List LeaveRequest → List LeaveRequest
replace_request r [] = []
replace_request r (s ∷ ss) = if s.id == r.id then r ∷ ss else s ∷ replace_request r ss

-- `Save` of a balance, of which keys are unique.
unfoldable pub replace_balance : LeaveBalance → List LeaveBalance → List LeaveBalance
replace_balance b [] = []
replace_balance b (c ∷ cs) = if same_key c.key b.key then b ∷ cs else c ∷ replace_balance b cs

abbrev pub unless_taken : Option LeaveBalance → LeaveBalance → List LeaveBalance → List LeaveBalance
unless_taken none b bs = bs ++ (b ∷ [])
unless_taken (some c) b bs = bs

-- `Create` of a balance: the unique index refuses a second one.
unfoldable pub create_balance :
    (fails : Bool) → LeaveBalance → List LeaveBalance → List LeaveBalance
unfolding balance_of
create_balance true b bs = bs
create_balance false b bs = unless_taken (balance_of b.key bs) b bs
