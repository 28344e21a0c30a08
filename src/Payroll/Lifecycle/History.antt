-- ===== src/Payroll/Lifecycle/History.antt =====
-- No history of requests to internal/service/payroll_service.go pays a run twice.
use payflow_backend.Common.{ℕ, ◌≤◌, ◌≡◌, List, [], ◌∷◌, length, arith}
use payflow_backend.Payroll.Lifecycle.Store.{World, find_by_id}
use payflow_backend.Payroll.Lifecycle.Transfers.{Names}
use payflow_backend.Payroll.Lifecycle.Approval.{amend_payroll_run}
use payflow_backend.Payroll.Lifecycle.Once.{
  Request, serve, serve_all, IsOnce, find_by_id-cases, process_now-IsOnce, scheduled-IsOnce,
}
use payflow_backend.Payroll.Lifecycle.Steps.{
  allowed_le, submit-IsOnce, approve-IsOnce, reject-IsOnce, amend_found-IsOnce, reverse-IsOnce,
}

serve-IsOnce : (names : Names) (q : Request) (w : World) → IsOnce w → IsOnce (serve names q w)
unfolding serve amend_payroll_run
serve-IsOnce names (Request.submit r u) w h = submit-IsOnce names r u w h
serve-IsOnce names (Request.approve r u) w h = approve-IsOnce names r u w h
serve-IsOnce names (Request.reject r reason u) w h = reject-IsOnce names r reason u w h
serve-IsOnce names (Request.reverse r reason u) w h = reverse-IsOnce names r reason u w h
serve-IsOnce names (Request.amend r entries b) w h =
    amend_found-IsOnce names r entries (find_by_id r.find_fails b w) w
      (find_by_id-cases r.find_fails b w) h
serve-IsOnce names (Request.process_now a b) w h = process_now-IsOnce names a b w h
serve-IsOnce names (Request.scheduled a f) w h = scheduled-IsOnce names a f w h

serve_all-IsOnce :
    (names : Names) (qs : List Request) (w : World) → IsOnce w → IsOnce (serve_all names qs w)
unfolding serve_all
serve_all-IsOnce names [] w h = h
serve_all-IsOnce names (q ∷ qs) w h =
    serve_all-IsOnce names qs (serve names q w) (serve-IsOnce names q w h)

-- A payroll run that has not been paid out is handed to the transfer service at most once, over any
-- history of submissions, approvals, rejections, reversals, amendments and payouts, one after
-- another, whichever database calls fail and whatever the transfer service answers.
pub serve_all_pays_once :
    (names : Names) (qs : List Request) (w : World)
    → w.batches ≡ []
    → length (serve_all names qs w).batches ≤ 1
serve_all_pays_once names qs w h =
    let once : IsOnce (serve_all names qs w) = serve_all-IsOnce names qs w (rw h (omega arith)) in
    at_most (allowed_le (serve_all names qs w).run.status) once
  where
    at_most : {n m : ℕ} → m ≤ 1 → n ≤ m → n ≤ 1
    at_most h k = omega arith
