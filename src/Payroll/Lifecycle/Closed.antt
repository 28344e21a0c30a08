-- ===== src/Payroll/Lifecycle/Closed.antt =====
-- A run in status processing, rejected or failed is closed: no request changes anything any more.
use Prim.Native.String.{String}
use payflow_backend.Common.{
  ℕ, ◌≡◌, refl, sym, subst, ap, ◌∙◌, ◌⊎◌, inl, inr, Bool, true, false, Option, none, some, List, [],
  ◌∷◌, if◌then◌else◌,
}
use payflow_backend.Common.Errors.{Error, Result, ok, err}
use payflow_backend.Common.Texts.{same_text}
use payflow_backend.Payroll.Types.{Status, Business}
use payflow_backend.Payroll.Lifecycle.Store.{RunEntry, StoredRun, World, find_by_id, update}
use payflow_backend.Payroll.Lifecycle.Transfers.{
  Names, batch_load_employees_for_entries, build_transfer_requests,
}
use payflow_backend.Payroll.Lifecycle.Processing.{
  Answers, is_payable, pay_out, process_found, process_payroll_run_instantly,
  process_approved_payroll, is_approved,
}
use payflow_backend.Payroll.Lifecycle.Approval.{
  Replies, is_draft, is_pending, is_completed, reject_by, amend_found, reverse_found, reverse_by,
  submit_found, submit_for_approval, approve_found, approve_payroll_run, reject_found,
  reject_payroll_run, amend_payroll_run, reverse_payroll_run,
}
use payflow_backend.Payroll.Lifecycle.Once.{Request, serve, serve_all, find_by_id-cases}

abbrev pub IsClosed : Status → Type 0
IsClosed st = (st ≡ Status.processing) ⊎ ((st ≡ Status.rejected) ⊎ (st ≡ Status.failed))

-- No operation starts from this status.
abbrev NoneStarts : Status → Type 0
NoneStarts st =
    (is_payable st ≡ false)
    × (is_approved st ≡ false)
    × (is_draft st ≡ false)
    × (is_pending st ≡ false)
    × (is_completed st ≡ false)

closed-NoneStarts : (st : Status) → IsClosed st → NoneStarts st
closed-NoneStarts st (inl h) = subst NoneStarts (sym h) (refl, refl, refl, refl, refl)
closed-NoneStarts st (inr (inl h)) = subst NoneStarts (sym h) (refl, refl, refl, refl, refl)
closed-NoneStarts st (inr (inr h)) = subst NoneStarts (sym h) (refl, refl, refl, refl, refl)

module _ (names : Names) (w : World) (closed : NoneStarts w.run.status) where
  process_found-closed :
      (a : Answers) (o : Result StoredRun)
      → (o ≡ err Error.other) ⊎ (o ≡ ok w.run)
      → (process_found names a o w).1 ≡ w
  unfolding process_found
  process_found-closed a o (inl p) = rw p refl
  process_found-closed a o (inr p) = rw p (rw closed.0 refl)

  submit_found-closed :
      (r : Replies) (b : ℕ) (o : Result StoredRun) (business : Option Business)
      → (o ≡ err Error.other) ⊎ (o ≡ ok w.run)
      → (submit_found names r b o business w).1 ≡ w
  unfolding submit_found
  submit_found-closed r b o business (inl p) = rw p refl
  submit_found-closed r b o none (inr p) = rw p refl
  submit_found-closed r b o (some business) (inr p) = rw p (rw closed.2 refl)

  approve_found-closed :
      (r : Replies) (b : ℕ) (o : Result StoredRun) (business : Option Business)
      → (o ≡ err Error.other) ⊎ (o ≡ ok w.run)
      → (approve_found names r b o business w).1 ≡ w
  unfolding approve_found
  approve_found-closed r b o business (inl p) = rw p refl
  approve_found-closed r b o none (inr p) = rw p refl
  approve_found-closed r b o (some business) (inr p) = rw p (rw closed.3 refl)

  reject_found-closed :
      (r : Replies) (reason : String) (b : ℕ) (o : Result StoredRun)
      → (o ≡ err Error.other) ⊎ (o ≡ ok w.run)
      → (reject_found names r reason b o w).1 ≡ w
  unfolding reject_found
  reject_found-closed r reason b o (inl p) = rw p refl
  reject_found-closed r reason b o (inr p) = rw p (rw closed.3 refl)

  amend_found-closed :
      (r : Replies) (entries : Result (List RunEntry)) (o : Result StoredRun)
      → (o ≡ err Error.other) ⊎ (o ≡ ok w.run)
      → (amend_found names r entries o w).1 ≡ w
  unfolding amend_found
  amend_found-closed r entries o (inl p) = rw p refl
  amend_found-closed r (err e) o (inr p) = rw p refl
  amend_found-closed r (ok entries) o (inr p) = rw p (rw closed.2 refl)

  reverse_found-closed :
      (r : Replies) (reason : String) (o : Result StoredRun)
      → (o ≡ err Error.other) ⊎ (o ≡ ok w.run)
      → (reverse_found names r reason o w).1 ≡ w
  unfolding reverse_found
  reverse_found-closed r reason o (inl p) = rw p refl
  reverse_found-closed r reason o (inr p) = rw p (rw closed.4 refl)

  -- Behind a test of the reason.
  behind :
      (c : Bool) (e : Error) (t : Result StoredRun × World)
      → t.1 ≡ w
      → (if c then (err e, w) else t).1 ≡ w
  behind true e t h = refl
  behind false e t h = h

  serve-closed : (q : Request) → serve names q w ≡ w
  unfolding serve submit_for_approval approve_payroll_run reject_payroll_run reject_by
      amend_payroll_run reverse_payroll_run reverse_by process_payroll_run_instantly
      process_approved_payroll
  serve-closed (Request.submit r none) = refl
  serve-closed (Request.submit r (some b)) =
      submit_found-closed r b (find_by_id r.find_fails b w) r.business
        (find_by_id-cases r.find_fails b w)
  serve-closed (Request.approve r none) = refl
  serve-closed (Request.approve r (some b)) =
      approve_found-closed r b (find_by_id r.find_fails b w) r.business
        (find_by_id-cases r.find_fails b w)
  serve-closed (Request.reject r reason none) =
      behind (same_text reason "") Error.validation_failed (err Error.internal_server, w) refl
  serve-closed (Request.reject r reason (some b)) =
      behind (same_text reason "") Error.validation_failed
        (reject_found names r reason b (find_by_id r.find_fails b w) w)
        (reject_found-closed r reason b (find_by_id r.find_fails b w)
          (find_by_id-cases r.find_fails b w))
  serve-closed (Request.reverse r reason none) =
      behind (same_text reason "") Error.validation_failed (err Error.other, w) refl
  serve-closed (Request.reverse r reason (some b)) =
      behind (same_text reason "") Error.validation_failed
        (reverse_found names r reason (find_by_id r.find_fails b w) w)
        (reverse_found-closed r reason (find_by_id r.find_fails b w)
          (find_by_id-cases r.find_fails b w))
  serve-closed (Request.amend r entries b) =
      amend_found-closed r entries (find_by_id r.find_fails b w) (find_by_id-cases r.find_fails b w)
  serve-closed (Request.process_now a b) =
      process_found-closed a (find_by_id a.find_fails b w) (find_by_id-cases a.find_fails b w)
  serve-closed (Request.scheduled a true) = refl
  serve-closed (Request.scheduled a false) = rw (serve, closed.1) refl

pub serve_all-closed :
    (names : Names) (qs : List Request) (w : World)
    → IsClosed w.run.status
    → serve_all names qs w ≡ w
unfolding serve_all
serve_all-closed names [] w closed = refl
serve_all-closed names (q ∷ qs) w closed =
    ap (serve_all names qs) (serve-closed names w (closed-NoneStarts w.run.status closed) q)
    ∙ serve_all-closed names qs w closed

-- A payout that finds the run payable and stores its start, but has no employee with a known bank fails, and leaves the run in
-- status processing for good: no later request moves it.
pub process-stuck :
    (names : Names) (a : Answers) (b : ℕ) (w : World) (qs : List Request)
    → find_by_id a.find_fails b w ≡ ok w.run
    → is_payable w.run.status ≡ true
    → a.start_fails ≡ false
    → build_transfer_requests names w.run.id
        (batch_load_employees_for_entries a.employees w.run.entries)
      ≡ []
    → (process_payroll_run_instantly names a b w).0 ≡ err Error.other
      × (serve_all names qs (process_payroll_run_instantly names a b w).1).run.status
        ≡ Status.processing
unfolding process_payroll_run_instantly process_found pay_out update
process-stuck names a b w qs found payable started empty = rw found (
    rw payable (
      rw started
        (rw empty (refl, ap (λ v. v.run.status) (serve_all-closed names qs _ (inl refl))))))
