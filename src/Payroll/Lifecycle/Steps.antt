-- ===== src/Payroll/Lifecycle/Steps.antt =====
-- Each request of internal/service/payroll_service.go keeps a run at one payout at most.
use Prim.Native.String.{String}
use payflow_backend.Common.{
  ℕ, ◌≤◌, ◌≡◌, refl, ◌⊎◌, inl, inr, Bool, true, false, Option, none, some, List, not, ◌==◌,
  if◌then◌else◌, if-holds, length, Bool-cases, arith,
}
use payflow_backend.Common.Errors.{Error, Result, ok, err}
use payflow_backend.Payroll.Types.{Status, Business}
use payflow_backend.Payroll.Lifecycle.Store.{
  RunEntry, StoredRun, World, with_status, find_by_id, update,
}
use payflow_backend.Payroll.Lifecycle.Transfers.{Names}
use payflow_backend.Payroll.Lifecycle.Approval.{
  Replies, saved, with_job, is_draft, is_pending, process_again, reject_by, amend_found,
  reverse_found, reverse_by, submit_to, submit_found, submit_for_approval, approve_stored,
  approve_found, approve_payroll_run, reject_found, reject_payroll_run, reverse_payroll_run,
}
use payflow_backend.Payroll.Lifecycle.Once.{
  allowed, IsOnce, After, find_by_id-cases, process_now-IsOnce,
}

-- A save moves the run to a status that allows as many payouts.
pub saved-IsOnce :
    (fails : Bool) (run : StoredRun) (w : World)
    → allowed w.run.status ≤ allowed run.status
    → IsOnce w
    → After (saved fails run w)
saved-IsOnce true run w h k = k
saved-IsOnce false run w h k = omega arith

pub pending_allows : (st : Status) → allowed Status.pending_approval ≤ allowed st
pending_allows st = omega arith

pub draft_allows : (st : Status) (n : ℕ) → is_draft st ≡ true → allowed st ≤ n
draft_allows Status.draft n h = omega arith
draft_allows Status.pending_approval n h = absurd cc
draft_allows Status.approved n h = absurd cc
draft_allows Status.processing n h = absurd cc
draft_allows Status.completed n h = absurd cc
draft_allows Status.rejected n h = absurd cc
draft_allows Status.failed n h = absurd cc

pub pending_is : (st : Status) → is_pending st ≡ true → allowed st ≡ 0
pending_is Status.pending_approval h = refl
pending_is Status.draft h = refl
pending_is Status.approved h = absurd cc
pending_is Status.processing h = absurd cc
pending_is Status.completed h = absurd cc
pending_is Status.rejected h = absurd cc
pending_is Status.failed h = absurd cc

pub allowed_le : (st : Status) → allowed st ≤ 1
allowed_le Status.draft = omega arith
allowed_le Status.pending_approval = omega arith
allowed_le Status.approved = omega arith
allowed_le Status.processing = omega arith
allowed_le Status.completed = omega arith
allowed_le Status.rejected = omega arith
allowed_le Status.failed = omega arith

module _ (names : Names) (r : Replies) where
  pub process_again-IsOnce : (b : ℕ) (w : World) → IsOnce w → After (process_again names r b w)
  unfolding process_again
  process_again-IsOnce b w h =
      if-holds After r.refetch_fails _ _ h (process_now-IsOnce names r.answers b w h)

  pub submit_to-IsOnce :
      (b : ℕ) (run : StoredRun) (business : Business) (w : World)
      → allowed w.run.status ≡ 0
      → IsOnce w
      → After (submit_to names r b run business w)
  unfolding submit_to
  submit_to-IsOnce b run business w z h = if-holds After _ _ _ h (
      if-holds After business.payroll_requires_approval _ _
        (saved-IsOnce r.update_fails _ w (omega arith) h)
        (if-holds After business.payroll_auto_process _ _ (process_again-IsOnce b w h) (
          if-holds After r.schedule_fails _ _ h
            (saved-IsOnce r.update_fails _ (with_job w) (omega arith) h))))

  pub submit_found-IsOnce :
      (b : ℕ) (o : Result StoredRun) (business : Option Business) (w : World)
      → (o ≡ err Error.other) ⊎ (o ≡ ok w.run)
      → IsOnce w
      → After (submit_found names r b o business w)
  unfolding submit_found
  submit_found-IsOnce b o business w (inl p) h = rw p h
  submit_found-IsOnce b o none w (inr p) h = rw p h
  submit_found-IsOnce b o (some business) w (inr p) h =
      rw p (elim (Bool-cases (is_draft w.run.status)) [
        | inl q ↦
            rw q (submit_to-IsOnce b w.run business w (zero (draft_allows w.run.status 0 q)) h)
        | inr q ↦ rw q h
      ])
    where
      zero : allowed w.run.status ≤ 0 → allowed w.run.status ≡ 0
      zero k = omega arith

  pub approve_stored-IsOnce :
      (b : ℕ) (run : StoredRun) (business : Business) (w : World)
      → length w.batches ≡ 0
      → IsOnce w
      → After (approve_stored names r b run business w)
  unfolding approve_stored update
  approve_stored-IsOnce b run business w z h =
      if-holds After business.payroll_auto_process _ _ (process_again-IsOnce b w h)
        (if-holds After r.schedule_fails _ _ (undone r.undo_fails) h)
    where
      undone : (fails : Bool) → IsOnce (update fails (with_status Status.pending_approval run) w)
      undone true = h
      undone false = omega arith

  pub approve_found-IsOnce :
      (b : ℕ) (o : Result StoredRun) (business : Option Business) (w : World)
      → (o ≡ err Error.other) ⊎ (o ≡ ok w.run)
      → IsOnce w
      → After (approve_found names r b o business w)
  unfolding approve_found update
  approve_found-IsOnce b o business w (inl p) h = rw p h
  approve_found-IsOnce b o none w (inr p) h = rw p h
  approve_found-IsOnce b o (some business) w (inr p) h =
      rw p (elim (Bool-cases (is_pending w.run.status)) [
        | inl q ↦ rw q (
            if-holds After r.update_fails _ _ h (
              approve_stored-IsOnce b _ business _ (zero (pending_is w.run.status q))
                (start (pending_is w.run.status q))))
        | inr q ↦ rw q h
      ])
    where
      zero : allowed w.run.status ≡ 0 → length w.batches ≡ 0
      zero k = omega arith

      start : allowed w.run.status ≡ 0 → length w.batches ≤ 0
      start k = omega arith

  pub reject_found-IsOnce :
      (reason : String) (b : ℕ) (o : Result StoredRun) (w : World)
      → (o ≡ err Error.other) ⊎ (o ≡ ok w.run)
      → IsOnce w
      → After (reject_found names r reason b o w)
  unfolding reject_found
  reject_found-IsOnce reason b o w (inl p) h = rw p h
  reject_found-IsOnce reason b o w (inr p) h =
      let rejected : StoredRun = record w.run {
        status = Status.rejected;
        rejection_reason = reason;
      } in
      let inner : Result StoredRun × World =
        if not (b == w.run.business_id)
        then (err Error.forbidden, w)
        else saved r.update_fails rejected w in
      rw p (
        if-holds After (not (is_pending w.run.status)) (err Error.validation_failed, w) inner h
          (if-holds After (not (b == w.run.business_id)) (err Error.forbidden, w)
            (saved r.update_fails rejected w) h
            (saved-IsOnce r.update_fails rejected w (allowed_le w.run.status) h)))

  pub amend_found-IsOnce :
      (entries : Result (List RunEntry)) (o : Result StoredRun) (w : World)
      → (o ≡ err Error.other) ⊎ (o ≡ ok w.run)
      → IsOnce w
      → After (amend_found names r entries o w)
  unfolding amend_found
  amend_found-IsOnce entries o w (inl p) h = rw p h
  amend_found-IsOnce (err e) o w (inr p) h = rw p h
  amend_found-IsOnce (ok entries) o w (inr p) h =
      rw p (if-holds After _ _ _ (saved-IsOnce r.update_fails _ w (same w.run.status) h) h)
    where
      same : (st : Status) → allowed st ≤ allowed st
      same st = omega arith

  pub reverse_found-IsOnce :
      (reason : String) (o : Result StoredRun) (w : World)
      → (o ≡ err Error.other) ⊎ (o ≡ ok w.run)
      → IsOnce w
      → After (reverse_found names r reason o w)
  unfolding reverse_found
  reverse_found-IsOnce reason o w (inl p) h = rw p h
  reverse_found-IsOnce reason o w (inr p) h =
      rw p (if-holds After _ _ _ (saved-IsOnce r.update_fails _ w (allowed_le w.run.status) h) h)

  -- The run that a user of business `b` finds.
  pub submit-IsOnce :
      (u : Option ℕ) (w : World) → IsOnce w → After (submit_for_approval names r u w)
  unfolding submit_for_approval
  submit-IsOnce none w h = h
  submit-IsOnce (some b) w h =
      submit_found-IsOnce b (find_by_id r.find_fails b w) r.business w
        (find_by_id-cases r.find_fails b w) h

  pub approve-IsOnce :
      (u : Option ℕ) (w : World) → IsOnce w → After (approve_payroll_run names r u w)
  unfolding approve_payroll_run
  approve-IsOnce none w h = h
  approve-IsOnce (some b) w h =
      approve_found-IsOnce b (find_by_id r.find_fails b w) r.business w
        (find_by_id-cases r.find_fails b w) h

  pub reject-IsOnce :
      (reason : String) (u : Option ℕ) (w : World)
      → IsOnce w
      → After (reject_payroll_run names r reason u w)
  unfolding reject_payroll_run reject_by
  reject-IsOnce reason none w h = if-holds After _ _ _ h h
  reject-IsOnce reason (some b) w h = if-holds After _ _ _ h (
      reject_found-IsOnce reason b (find_by_id r.find_fails b w) w
        (find_by_id-cases r.find_fails b w) h)

  pub reverse-IsOnce :
      (reason : String) (u : Option ℕ) (w : World)
      → IsOnce w
      → After (reverse_payroll_run names r reason u w)
  unfolding reverse_payroll_run reverse_by
  reverse-IsOnce reason none w h = if-holds After _ _ _ h h
  reverse-IsOnce reason (some b) w h = if-holds After _ _ _ h (
      reverse_found-IsOnce reason (find_by_id r.find_fails b w) w
        (find_by_id-cases r.find_fails b w) h)
