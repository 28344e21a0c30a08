-- ===== src/Leave/History.antt =====
-- Leave over any history of calls: the days of each approved request are deducted once, and never
-- more than the employee has.
use Prim.Native.String.{String}
use payflow_backend.Common.{ℕ, ◌≡◌, Bool, true, false, List, [], ◌∷◌, All, All-append}
use payflow_backend.Leave.Store.{LeaveType, LeaveRequest, LeaveTables}
use payflow_backend.Leave.Service.{
  SubmitCalls, ApproveCalls, create_leave_type, submit_request, approve_request, reject_request,
}
use payflow_backend.Leave.Fair.{IsEntitling, IsFair}
use payflow_backend.Leave.Submitting.{submit_request-IsFair}
use payflow_backend.Leave.Approving.{approve_request-IsFair, reject_request-IsFair}

pub data LeaveCall : Type 0 where
  create_type : (fails : Bool) → LeaveType → LeaveCall
  submit : SubmitCalls → LeaveRequest → LeaveCall
  approve : ApproveCalls → (request_id approver_id : ℕ) → LeaveCall
  reject : (request_fails update_fails : Bool) → (request_id approver_id : ℕ) → String → LeaveCall

-- Leave types give a number of days that is not negative; the deduction of approved days is not
-- refused by the database. Any other call may fail.
abbrev pub IsSound : LeaveCall → Type 0
IsSound (LeaveCall.create_type fails t) = IsEntitling t
IsSound (LeaveCall.submit calls req) = Unit
IsSound (LeaveCall.approve calls id approver_id) = calls.deduct_fails ≡ false
IsSound (LeaveCall.reject request_fails update_fails id approver_id reason) = Unit

module _ (year_of : ℕ → ℕ) where
  unfoldable pub serve : LeaveCall → LeaveTables → LeaveTables
  unfolding create_leave_type submit_request approve_request reject_request
  serve (LeaveCall.create_type fails t) s = (create_leave_type fails t s).1
  serve (LeaveCall.submit calls req) s = (submit_request year_of calls req s).1
  serve (LeaveCall.approve calls id approver_id) s =
      (approve_request year_of calls id approver_id s).1
  serve (LeaveCall.reject request_fails update_fails id approver_id reason) s =
      (reject_request request_fails update_fails id approver_id reason s).1

  unfoldable pub serve_all : List LeaveCall → LeaveTables → LeaveTables
  unfolding serve
  serve_all [] s = s
  serve_all (c ∷ cs) s = serve_all cs (serve c s)

  create_leave_type-IsFair :
      (fails : Bool) (t : LeaveType) (s : LeaveTables)
      → IsEntitling t
      → IsFair year_of s
      → IsFair year_of (create_leave_type fails t s).1
  unfolding create_leave_type
  create_leave_type-IsFair true t s entitles fair = fair
  create_leave_type-IsFair false t s entitles (balanced, asking, entitling, even) =
      (balanced, asking, All-append IsEntitling s.types _ entitling (entitles, tt), even)

  serve-IsFair :
      (c : LeaveCall) (s : LeaveTables) → IsSound c → IsFair year_of s → IsFair year_of (serve c s)
  unfolding serve
  serve-IsFair (LeaveCall.create_type fails t) s sound fair =
      create_leave_type-IsFair fails t s sound fair
  serve-IsFair (LeaveCall.submit calls req) s sound fair =
      submit_request-IsFair year_of calls req s fair
  serve-IsFair (LeaveCall.approve calls id approver_id) s sound fair =
      approve_request-IsFair year_of calls id approver_id s sound fair
  serve-IsFair (LeaveCall.reject request_fails update_fails id approver_id reason) s sound fair =
      reject_request-IsFair year_of request_fails update_fails id approver_id reason s fair

  -- Over any history of leave types, submissions, approvals and rejections, from tables that have the
  -- property: each balance splits an entitlement into used and remaining days, neither negative; each
  -- stored request asks for at least one day; and for every employee, leave type and year, the used
  -- days are the days of the approved requests. The types created give a number of days that is not
  -- negative and fits in 64 bits, and the deduction itself is not refused; other calls may fail.
  pub serve_all-IsFair :
      (cs : List LeaveCall) (s : LeaveTables)
      → All IsSound cs
      → IsFair year_of s
      → IsFair year_of (serve_all cs s)
  unfolding serve_all
  serve_all-IsFair [] s sound fair = fair
  serve_all-IsFair (c ∷ cs) s sound fair =
      serve_all-IsFair cs (serve c s) sound.1 (serve-IsFair c s sound.0 fair)
