-- ===== src/Payroll/Lifecycle/Approval.antt =====
-- internal/service/payroll_service.go: submission, approval, rejection, amendment, reversal. Mails
-- are not modelled. `user` is the business of the caller, or `none` when it cannot be fetched.
use Prim.Native.String.{String, ◌++◌}
use payflow_backend.Common.{
  ℕ, ◌+◌, Bool, true, false, Option, none, some, List, [], ◌∷◌, ◌||◌, ◌&&◌, not, ◌==◌,
  if◌then◌else◌,
}
use payflow_backend.Common.Errors.{Error, Result, ok, err}
use payflow_backend.Common.Texts.{same_text}
use payflow_backend.Payroll.Types.{Status, Business}
use payflow_backend.Payroll.Lifecycle.Store.{
  Payee, RunEntry, StoredRun, World, with_status, find_by_id, update,
}
use payflow_backend.Payroll.Lifecycle.Transfers.{Names, batch_load_employees_for_entries}
use payflow_backend.Payroll.Lifecycle.Processing.{Answers, process_payroll_run_instantly}

-- The answers to one call of this file.
pub record Replies : Type 0 where
  pub find_fails : Bool
  pub business : Option Business
  pub employees : Option (ℕ → Option Payee)
  pub schedule_fails : Bool
  pub update_fails : Bool
  -- the update that puts the status back when the job could not be scheduled
  pub undo_fails : Bool
  -- the second `FindByID`, of the automatic payout
  pub refetch_fails : Bool
  pub answers : Answers

abbrev pub is_unverified : Option Payee → Bool
is_unverified none = false
is_unverified (some p) = not p.bank_account_verified

unfoldable pub has_unverified : List RunEntry → Bool
has_unverified [] = false
has_unverified (e ∷ es) = is_unverified e.employee || has_unverified es

abbrev pub is_draft : Status → Bool
is_draft Status.draft = true
is_draft _ = false

abbrev pub is_pending : Status → Bool
is_pending Status.pending_approval = true
is_pending _ = false

abbrev pub is_completed : Status → Bool
is_completed Status.completed = true
is_completed _ = false

-- `SchedulePayout`
abbrev pub with_job : World → World
with_job w = record w { scheduled = w.scheduled + 1 }

abbrev pub saved : Bool → StoredRun → World → Result StoredRun × World
saved true run w = (err Error.other, w)
saved false run w = (ok run, record w { run = run })

module _ (names : Names) (r : Replies) where
  -- `processPayrollRunInstantly`: the run is fetched again.
  unfoldable pub process_again : ℕ → World → Result StoredRun × World
  unfolding process_payroll_run_instantly
  process_again business_id w =
      if r.refetch_fails
      then (err Error.other, w)
      else process_payroll_run_instantly names r.answers business_id w

  -- The draft run and the business are known.
  unfoldable pub submit_to : ℕ → StoredRun → Business → World → Result StoredRun × World
  unfolding process_again has_unverified batch_load_employees_for_entries
  submit_to business_id run business w =
      let loaded : StoredRun = record run {
        entries = batch_load_employees_for_entries r.employees run.entries;
      } in
      if has_unverified loaded.entries && not (same_text business.subscription_tier "free")
      then (err Error.validation_failed, w)
      else if business.payroll_requires_approval
      then saved r.update_fails (with_status Status.pending_approval loaded) w
      else if business.payroll_auto_process
      then process_again business_id w
      else if r.schedule_fails
      then (err Error.other, w)
      else saved r.update_fails (with_status Status.approved loaded) (with_job w)

  unfoldable pub submit_found :
      ℕ → Result StoredRun → Option Business → World → Result StoredRun × World
  unfolding submit_to
  submit_found business_id (err e) business w = (err Error.other, w)
  submit_found business_id (ok run) none w =
      (if is_draft run.status then err Error.other else err Error.validation_failed, w)
  submit_found business_id (ok run) (some business) w =
      if is_draft run.status
      then submit_to business_id run business w
      else (err Error.validation_failed, w)

  -- `SubmitForApproval`
  unfoldable pub submit_for_approval : Option ℕ → World → Result StoredRun × World
  unfolding submit_found find_by_id
  submit_for_approval none w = (err Error.other, w)
  submit_for_approval (some business_id) w =
      submit_found business_id (find_by_id r.find_fails business_id w) r.business w

  -- The approval is stored; then the payout, or its job.
  unfoldable pub approve_stored : ℕ → StoredRun → Business → World → Result StoredRun × World
  unfolding process_again update
  approve_stored business_id run business w =
      if business.payroll_auto_process
      then process_again business_id w
      else if r.schedule_fails
      then (err Error.other, update r.undo_fails (with_status Status.pending_approval run) w)
      else (ok run, with_job w)

  unfoldable pub approve_found :
      ℕ → Result StoredRun → Option Business → World → Result StoredRun × World
  unfolding approve_stored update
  approve_found business_id (err e) business w = (err Error.other, w)
  approve_found business_id (ok run) none w =
      (if is_pending run.status then err Error.other else err Error.validation_failed, w)
  approve_found business_id (ok run) (some business) w =
      let approved = with_status Status.approved run in
      if not (is_pending run.status)
      then (err Error.validation_failed, w)
      else if r.update_fails
      then (err Error.other, w)
      else approve_stored business_id approved business (update false approved w)

  -- `ApprovePayrollRun`
  unfoldable pub approve_payroll_run : Option ℕ → World → Result StoredRun × World
  unfolding approve_found find_by_id
  approve_payroll_run none w = (err Error.other, w)
  approve_payroll_run (some business_id) w =
      approve_found business_id (find_by_id r.find_fails business_id w) r.business w

  unfoldable pub reject_found : String → ℕ → Result StoredRun → World → Result StoredRun × World
  reject_found reason business_id (err e) w = (err e, w)
  reject_found reason business_id (ok run) w =
      if not (is_pending run.status)
      then (err Error.validation_failed, w)
      else if not (business_id == run.business_id)
      then (err Error.forbidden, w)
      else saved r.update_fails (record run { status = Status.rejected; rejection_reason = reason })
          w

  unfoldable pub reject_by : String → Option ℕ → World → Result StoredRun × World
  unfolding reject_found find_by_id
  reject_by reason none w = (err Error.internal_server, w)
  reject_by reason (some business_id) w =
      reject_found reason business_id (find_by_id r.find_fails business_id w) w

  -- `RejectPayrollRun`
  unfoldable pub reject_payroll_run : String → Option ℕ → World → Result StoredRun × World
  unfolding reject_by
  reject_payroll_run reason user w =
      if same_text reason "" then (err Error.validation_failed, w) else reject_by reason user w

  unfoldable pub amend_found :
      Result (List RunEntry) → Result StoredRun → World → Result StoredRun × World
  amend_found recalculated (err e) w = (err Error.other, w)
  amend_found (err e) (ok run) w =
      (err (if is_draft run.status then e else Error.validation_failed), w)
  amend_found (ok entries) (ok run) w =
      if is_draft run.status
      then saved r.update_fails (record run { entries = entries }) w
      else (err Error.validation_failed, w)

  -- `AmendPayrollRun`: `recalculated` has the entries of the new calculation.
  unfoldable pub amend_payroll_run : Result (List RunEntry) → ℕ → World → Result StoredRun × World
  unfolding find_by_id amend_found
  amend_payroll_run recalculated business_id w =
      amend_found recalculated (find_by_id r.find_fails business_id w) w

  unfoldable pub reverse_found : String → Result StoredRun → World → Result StoredRun × World
  reverse_found reason (err e) w = (err Error.other, w)
  reverse_found reason (ok run) w =
      if is_completed run.status
      then saved r.update_fails
          (record run { status = Status.rejected; rejection_reason = "REVERSED: " ++ reason }) w
      else (err Error.validation_failed, w)

  unfoldable pub reverse_by : String → Option ℕ → World → Result StoredRun × World
  unfolding reverse_found find_by_id
  reverse_by reason none w = (err Error.other, w)
  reverse_by reason (some business_id) w =
      reverse_found reason (find_by_id r.find_fails business_id w) w

  -- `ReversePayrollRun`: the money is not moved back.
  unfoldable pub reverse_payroll_run : String → Option ℕ → World → Result StoredRun × World
  unfolding reverse_by
  reverse_payroll_run reason user w =
      if same_text reason "" then (err Error.validation_failed, w) else reverse_by reason user w
