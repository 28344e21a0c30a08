-- ===== src/Payroll/Lifecycle/Once.antt =====
-- A payroll run is paid out at most once, whatever is asked of it and whatever fails.
use Prim.Native.String.{String}
use payflow_backend.Common.{
  ℕ, ◌≤◌, ◌≡◌, refl, ◌⊎◌, inl, inr, Bool, true, false, Option, none, some, List, [], ◌∷◌, ◌||◌, not,
  ◌==◌, if-holds, length, Bool-cases, arith,
}
use payflow_backend.Common.Errors.{Error, Result, ok, err}
use payflow_backend.Payroll.Types.{Status}
use payflow_backend.Payroll.Lifecycle.Store.{
  RunEntry, StoredRun, SingleTransferRequest, World, with_status, find_by_id, update,
}
use payflow_backend.Payroll.Lifecycle.Transfers.{Names}
use payflow_backend.Payroll.Lifecycle.Processing.{
  Answers, is_payable, finish, settle, pay_out, process_found, process_payroll_run_instantly,
  process_approved_payroll, is_approved, outcome,
}
use payflow_backend.Payroll.Lifecycle.Approval.{
  Replies, submit_for_approval, approve_payroll_run, reject_payroll_run, amend_payroll_run,
  reverse_payroll_run,
}

-- A request to the service, with what the database and the transfer service answer to it.
pub data Request : Type 0 where
  submit approve : Replies → Option ℕ → Request
  reject reverse : Replies → String → Option ℕ → Request
  amend : Replies → Result (List RunEntry) → ℕ → Request
  process_now : Answers → ℕ → Request
  scheduled : Answers → (find_fails : Bool) → Request

module _ (names : Names) where
  unfoldable pub serve : Request → World → World
  unfolding process_payroll_run_instantly process_approved_payroll submit_for_approval
      approve_payroll_run reject_payroll_run amend_payroll_run reverse_payroll_run
  serve (Request.submit r user) w = (submit_for_approval names r user w).1
  serve (Request.approve r user) w = (approve_payroll_run names r user w).1
  serve (Request.reject r reason user) w = (reject_payroll_run names r reason user w).1
  serve (Request.reverse r reason user) w = (reverse_payroll_run names r reason user w).1
  serve (Request.amend r entries business_id) w =
      (amend_payroll_run names r entries business_id w).1
  serve (Request.process_now a business_id) w =
      (process_payroll_run_instantly names a business_id w).1
  serve (Request.scheduled a find_fails) w = (process_approved_payroll names a find_fails w).1

  unfoldable pub serve_all : List Request → World → World
  unfolding serve
  serve_all [] w = w
  serve_all (q ∷ qs) w = serve_all qs (serve q w)

-- How many payouts a run in this status may have had.
abbrev pub allowed : Status → ℕ
allowed Status.draft = 0
allowed Status.pending_approval = 0
allowed Status.approved = 0
allowed Status.processing = 1
allowed Status.completed = 1
allowed Status.rejected = 1
allowed Status.failed = 1

abbrev pub IsOnce : World → Type 0
IsOnce w = length w.batches ≤ allowed w.run.status

abbrev pub After : Result StoredRun × World → Type 0
After t = IsOnce t.1

pub find_by_id-cases :
    (fails : Bool) (b : ℕ) (w : World)
    → (find_by_id fails b w ≡ err Error.other) ⊎ (find_by_id fails b w ≡ ok w.run)
unfolding find_by_id
find_by_id-cases fails b w = elim (Bool-cases (fails || not (b == 0 || w.run.business_id == b))) [
  | inl h ↦ inl (rw h refl)
  | inr h ↦ inr (rw h refl)
]

payable_allows : (st : Status) → is_payable st ≡ true → allowed st ≡ 0
payable_allows Status.draft h = refl
payable_allows Status.approved h = refl
payable_allows Status.pending_approval h = absurd cc
payable_allows Status.processing h = absurd cc
payable_allows Status.completed h = absurd cc
payable_allows Status.rejected h = absurd cc
payable_allows Status.failed h = absurd cc

module _ (names : Names) (a : Answers) where
  finish-IsOnce :
      (success : Bool) (run : StoredRun) (w : World)
      → length w.batches ≤ 1
      → w.run.status ≡ Status.processing
      → IsOnce (finish names a success run w).1
  unfolding finish update
  finish-IsOnce true run w h st = if-holds After a.finish_fails _ _ (rw st h) h
  finish-IsOnce false run w h st = if-holds After a.finish_fails _ _ (rw st h) h

  settle-IsOnce :
      (o : Option ℕ) (n : ℕ) (run : StoredRun) (w : World)
      → length w.batches ≤ 1
      → w.run.status ≡ Status.processing
      → IsOnce (settle names a o n run w).1
  unfolding settle update
  settle-IsOnce none n run w h st = marked a.mark_failed_fails
    where
      marked : (fails : Bool) → IsOnce (update fails (with_status Status.failed run) w)
      marked true = rw st h
      marked false = h
  settle-IsOnce (some k) n run w h st = finish-IsOnce (k == n || a.all_verified) run w h st

  pay_out-IsOnce :
      (ts : List SingleTransferRequest) (run : StoredRun) (w : World)
      → length w.batches ≡ 0
      → w.run.status ≡ Status.processing
      → IsOnce (pay_out names a ts run w).1
  unfolding pay_out
  pay_out-IsOnce [] run w h st = rw st (omega arith)
  pay_out-IsOnce (t ∷ ts) run w h st =
      settle-IsOnce a.bulk (length (t ∷ ts)) run (record w { batches = (t ∷ ts) ∷ w.batches })
        (omega arith) st

  process_found-IsOnce :
      (o : Result StoredRun) (w : World)
      → (o ≡ err Error.other) ⊎ (o ≡ ok w.run)
      → IsOnce w
      → IsOnce (process_found names a o w).1
  unfolding process_found update
  process_found-IsOnce o w (inl p) h = rw p h
  process_found-IsOnce o w (inr p) h = rw p (elim (Bool-cases (is_payable w.run.status)) [
    | inl q ↦ rw q (
        if-holds After a.start_fails _ _ h
          (pay_out-IsOnce _ _ _ (nothing_yet (payable_allows w.run.status q)) refl))
    | inr q ↦ rw q h
  ])
    where
      nothing_yet : allowed w.run.status ≡ 0 → length w.batches ≡ 0
      nothing_yet z = omega arith

  pub process_now-IsOnce :
      (b : ℕ) (w : World) → IsOnce w → IsOnce (process_payroll_run_instantly names a b w).1
  unfolding process_payroll_run_instantly
  process_now-IsOnce b w h =
      process_found-IsOnce (find_by_id a.find_fails b w) w (find_by_id-cases a.find_fails b w) h

  outcome-IsOnce : (t : Result StoredRun × World) → After t → IsOnce (outcome t).1
  outcome-IsOnce (ok r, w) h = h
  outcome-IsOnce (err e, w) h = h

  pub scheduled-IsOnce :
      (f : Bool) (w : World) → IsOnce w → IsOnce (process_approved_payroll names a f w).1
  unfolding process_approved_payroll
  scheduled-IsOnce true w h = h
  scheduled-IsOnce false w h = elim (Bool-cases (is_approved w.run.status)) [
    | inl q ↦ rw q (outcome-IsOnce _ (process_now-IsOnce w.run.business_id w h))
    | inr q ↦ rw q h
  ]
