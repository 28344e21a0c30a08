-- ===== src/Examples/Leaves.antt =====
-- An employee with ten days of leave, of which three are approved.
use payflow_backend.Common.{ℕ, ◌*◌, ◌≡◌, refl, true, false, none, some, List, [], ◌∷◌, arith}
use payflow_backend.Common.Int.{pos}
use payflow_backend.Leave.Days.{
  a_day, weekday, dates, by_weeks, count_business_days, count_business_days-by_weeks,
}
use payflow_backend.Leave.Store.{LeaveType, LeaveRequest, LeaveTables, balance_of}
use payflow_backend.Leave.Service.{SubmitCalls, ApproveCalls}
use payflow_backend.Leave.Fair.{IsFair}
use payflow_backend.Leave.History.{LeaveCall, serve_all, serve_all-IsFair}

-- From Thursday, the first of January 1970, for twelve days.
count_business_days-by_weeks_example :
    count_business_days 0 (11 * a_day) ≡ some (by_weeks (dates 0 (11 * a_day)) (weekday 0))
count_business_days-by_weeks_example = count_business_days-by_weeks 0 (11 * a_day)

twelve_days : by_weeks (dates 0 (11 * a_day)) (weekday 0) ≡ 8
twelve_days = refl

abbrev annual : LeaveType
annual = record {
  id = 0;
  business_id = 7;
  name = "Annual";
  default_days = pos 10;
  requires_approval = true;
}

abbrev three_days : LeaveRequest
three_days = record {
  id = 0;
  employee_id = 5;
  business_id = 7;
  leave_type_id = 1;
  start_date = 4 * a_day;
  end_date = 6 * a_day;
  days = pos 0;
  reason = "";
  status = "";
  approved_by_id = none;
}

abbrev submit_calls : SubmitCalls
submit_calls = record {
  find_fails = false;
  type_fails = false;
  create_balance_fails = false;
  create_fails = false;
}

abbrev approve_calls : ApproveCalls
approve_calls = record {
  request_fails = false;
  balance_fails = false;
  update_fails = false;
  deduct_fails = false;
}

abbrev first_year : ℕ → ℕ
first_year t = 1970

abbrev leave_history : List LeaveCall
leave_history =
    LeaveCall.create_type false annual
    ∷ LeaveCall.submit submit_calls three_days
    ∷ LeaveCall.approve approve_calls 2 9
    ∷ LeaveCall.approve approve_calls 2 9
    ∷ []

abbrev no_leave : LeaveTables
no_leave = record { types = []; requests = []; balances = []; next_id = 1 }

no_leave-IsFair : IsFair first_year no_leave
unfolding balance_of
no_leave-IsFair = (tt, tt, tt, λ key. refl)

serve_all-IsFair_example : IsFair first_year (serve_all first_year leave_history no_leave)
serve_all-IsFair_example =
    serve_all-IsFair first_year leave_history no_leave
      ((10, refl, omega arith), (tt, (refl, (refl, tt)))) no_leave-IsFair
