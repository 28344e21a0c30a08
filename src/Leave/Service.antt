-- ===== src/Leave/Service.antt =====
-- internal/service/leave_service.go: submitting, approving and rejecting a request. `year_of` stands
-- for the method `Year` of the package time; a `…Calls` record says which database calls fail.
use Prim.Native.String.{String}
use payflow_backend.Common.{
  ℕ, ◌+◌, Bool, true, false, Option, none, some, [], ◌∷◌, ◌++◌, not, ltb, if◌then◌else◌,
}
use payflow_backend.Common.Int.{ℤ, pos, leb_ℤ, ltb_ℤ}
use payflow_backend.Common.Int64.{add64, sub64}
use payflow_backend.Common.Errors.{Error, Result, ok, err}
use payflow_backend.Common.Texts.{same_text}
use payflow_backend.Leave.Days.{count_business_days}
use payflow_backend.Leave.Store.{
  LeaveType, LeaveRequest, BalanceKey, LeaveBalance, LeaveTables, or_not_found, type_with_id,
  request_with_id, balance_of, replace_request, replace_balance, create_balance,
}

pub record SubmitCalls : Type 0 where
  pub find_fails : Bool
  pub type_fails : Bool
  pub create_balance_fails : Bool
  pub create_fails : Bool

pub record ApproveCalls : Type 0 where
  pub request_fails : Bool
  pub balance_fails : Bool
  pub update_fails : Bool
  pub deduct_fails : Bool

-- The loop always ends: there is no `none`.
abbrev pub counted : Option ℕ → ℤ
counted none = pos 0
counted (some n) = pos n

unfoldable pub days_of : LeaveRequest → ℤ
unfolding count_business_days
days_of req =
    if leb_ℤ req.days (pos 0)
    then counted (count_business_days req.start_date req.end_date)
    else req.days

-- `CreateLeaveType`
unfoldable pub create_leave_type :
    (fails : Bool) → LeaveType → LeaveTables → Result LeaveType × LeaveTables
create_leave_type true t s = (err Error.other, s)
create_leave_type false t s =
    let row : LeaveType = record t { id = s.next_id } in
    (ok row, record s { types = s.types ++ (row ∷ []); next_id = s.next_id + 1 })

module _ (year_of : ℕ → ℕ) where
  abbrev pub key_of : LeaveRequest → BalanceKey
  key_of req = record {
    employee_id = req.employee_id;
    leave_type_id = req.leave_type_id;
    year = year_of req.start_date;
  }

  -- The balance that a first request of its kind starts.
  abbrev pub new_balance : BalanceKey → LeaveType → LeaveBalance
  new_balance key t = record {
    key = key;
    entitled = t.default_days;
    used = pos 0;
    remaining = t.default_days;
  }

  -- The request is stored if the balance has enough days.
  unfoldable pub submit_with :
      (create_fails : Bool)
      → LeaveRequest
      → LeaveBalance
      → LeaveTables
      → Result LeaveRequest × LeaveTables
  submit_with create_fails req balance s =
      let row : LeaveRequest = record req { id = s.next_id; status = "pending" } in
      if ltb_ℤ balance.remaining req.days
      then (err Error.validation_failed, s)
      else if create_fails
      then (err Error.other, s)
      else (ok row, record s { requests = s.requests ++ (row ∷ []); next_id = s.next_id + 1 })

  unfoldable pub submit_first :
      SubmitCalls
      → LeaveRequest
      → Result LeaveType
      → LeaveTables
      → Result LeaveRequest × LeaveTables
  unfolding submit_with create_balance
  submit_first calls req (err e) s = (err Error.not_found, s)
  submit_first calls req (ok t) s =
      let balance = new_balance (key_of req) t in
      submit_with calls.create_fails req balance
        (record s { balances = create_balance calls.create_balance_fails balance s.balances })

  unfoldable pub submit_found :
      SubmitCalls
      → LeaveRequest
      → Result LeaveBalance
      → LeaveTables
      → Result LeaveRequest × LeaveTables
  unfolding submit_with submit_first type_with_id
  submit_found calls req (ok balance) s = submit_with calls.create_fails req balance s
  submit_found calls req (err e) s =
      submit_first calls req
        (or_not_found calls.type_fails (type_with_id req.leave_type_id s.types)) s

  -- With the days of the request set.
  unfoldable pub submit_days :
      SubmitCalls → LeaveRequest → LeaveTables → Result LeaveRequest × LeaveTables
  unfolding submit_found balance_of
  submit_days calls req s =
      if leb_ℤ req.days (pos 0)
      then (err Error.validation_failed, s)
      else submit_found calls req
          (or_not_found calls.find_fails (balance_of (key_of req) s.balances)) s

  -- `SubmitRequest`
  unfoldable pub submit_request :
      SubmitCalls → LeaveRequest → LeaveTables → Result LeaveRequest × LeaveTables
  unfolding submit_days days_of
  submit_request calls req s =
      if ltb req.end_date req.start_date
      then (err Error.validation_failed, s)
      else submit_days calls (record req { days = days_of req }) s

  abbrev pub deducted : LeaveRequest → LeaveBalance → LeaveBalance
  deducted req b = record b {
    used = add64 b.used req.days;
    remaining = sub64 b.entitled (add64 b.used req.days);
  }

  abbrev pub approved : ℕ → LeaveRequest → LeaveRequest
  approved approver_id req = record req { status = "approved"; approved_by_id = some approver_id }

  -- The two updates; the request stays approved when the second fails.
  unfoldable pub approve_with :
      ApproveCalls → ℕ → LeaveRequest → LeaveBalance → LeaveTables → Result (Unit {0}) × LeaveTables
  unfolding replace_request replace_balance
  approve_with calls approver_id req b s =
      let s' = record s { requests = replace_request (approved approver_id req) s.requests } in
      if ltb_ℤ b.remaining req.days
      then (err Error.validation_failed, s)
      else if calls.update_fails
      then (err Error.other, s)
      else if calls.deduct_fails
      then (err Error.other, s')
      else (ok tt, record s' { balances = replace_balance (deducted req b) s.balances })

  unfoldable pub approve_balance :
      ApproveCalls
      → ℕ
      → LeaveRequest
      → Result LeaveBalance
      → LeaveTables
      → Result (Unit {0}) × LeaveTables
  unfolding approve_with
  approve_balance calls approver_id req (err e) s = (err e, s)
  approve_balance calls approver_id req (ok b) s = approve_with calls approver_id req b s

  unfoldable pub approve_found :
      ApproveCalls → ℕ → Result LeaveRequest → LeaveTables → Result (Unit {0}) × LeaveTables
  unfolding approve_balance balance_of
  approve_found calls approver_id (err e) s = (err Error.not_found, s)
  approve_found calls approver_id (ok req) s =
      if not (same_text req.status "pending")
      then (err Error.validation_failed, s)
      else approve_balance calls approver_id req
          (or_not_found calls.balance_fails (balance_of (key_of req) s.balances)) s

  -- `ApproveRequest`
  unfoldable pub approve_request :
      ApproveCalls → (request_id approver_id : ℕ) → LeaveTables → Result (Unit {0}) × LeaveTables
  unfolding approve_found request_with_id
  approve_request calls request_id approver_id s =
      approve_found calls approver_id
        (or_not_found calls.request_fails (request_with_id request_id s.requests)) s

abbrev pub rejected : ℕ → String → LeaveRequest → LeaveRequest
rejected approver_id reason req = record req {
  status = "rejected";
  approved_by_id = some approver_id;
  reason = reason;
}

unfoldable pub reject_found :
    (update_fails : Bool)
    → ℕ
    → String
    → Result LeaveRequest
    → LeaveTables
    → Result (Unit {0}) × LeaveTables
unfolding replace_request
reject_found update_fails approver_id reason (err e) s = (err Error.not_found, s)
reject_found update_fails approver_id reason (ok req) s =
    if not (same_text req.status "pending")
    then (err Error.validation_failed, s)
    else if update_fails
    then (err Error.other, s)
    else (
      ok tt,
      record s { requests = replace_request (rejected approver_id reason req) s.requests },
    )

-- `RejectRequest`
unfoldable pub reject_request :
    (request_fails update_fails : Bool)
    → (request_id approver_id : ℕ) → String
    → LeaveTables
    → Result (Unit {0}) × LeaveTables
unfolding reject_found request_with_id
reject_request request_fails update_fails request_id approver_id reason s =
    reject_found update_fails approver_id reason
      (or_not_found request_fails (request_with_id request_id s.requests)) s
