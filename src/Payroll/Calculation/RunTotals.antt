-- ===== src/Payroll/Calculation/RunTotals.antt =====
-- A calculated payroll run: which entries it has, and that its totals are theirs.
use payflow_backend.Common.{◌≡◌, refl, ap₂, ◌∙◌, List, [], ◌∷◌, ◌++◌}
use payflow_backend.Common.Int.{ℤ, pos}
use payflow_backend.Common.Int64.{add64, add64-Fits, add64-sub64, add64_interchange}
use payflow_backend.Payroll.Types.{Entry, Status, Run}
use payflow_backend.Payroll.Calculation.Totals.{IsPayslip}
use payflow_backend.Payroll.Calculation.Runs.{Totals, no_totals, add_entry}

-- The int64 sum, from left to right, of one amount of every entry.
sum_from : (Entry → ℤ) → ℤ → List Entry → ℤ
sum_from f acc [] = acc
sum_from f acc (e ∷ es) = sum_from f (add64 acc (f e)) es

unfoldable pub sum_of : (Entry → ℤ) → List Entry → ℤ
unfolding sum_from
sum_of f es = sum_from f (pos 0) es

sum_from-append :
    (f : Entry → ℤ) (acc : ℤ) (es : List Entry) (e : Entry)
    → sum_from f acc (es ++ (e ∷ [])) ≡ add64 (sum_from f acc es) (f e)
unfolding sum_from
sum_from-append f acc [] e = refl
sum_from-append f acc (x ∷ es) e = sum_from-append f (add64 acc (f x)) es e

sum_of-append :
    (f : Entry → ℤ) (es : List Entry) (e : Entry)
    → sum_of f (es ++ (e ∷ [])) ≡ add64 (sum_of f es) (f e)
unfolding sum_of
sum_of-append f es e = sum_from-append f (pos 0) es e

-- The running totals are the sums over the entries so far, and gross plus bonuses is what is
-- deducted and what is left.
pub record IsTotalled (t : Totals) : Type 0 where
  pub gross_total : t.gross ≡ sum_of (λ e. e.gross_pay) t.entries
  pub deduction_total : t.deductions ≡ sum_of (λ e. e.total_deductions) t.entries
  pub net_total : t.net ≡ sum_of (λ e. e.net_pay) t.entries
  pub employer_total : t.employer_costs ≡ sum_of (λ e. e.total_employer_cost) t.entries
  pub balance : add64 t.net t.deductions ≡ add64 t.gross (sum_of (λ e. e.bonuses) t.entries)

pub no_totals-IsTotalled : IsTotalled no_totals
unfolding sum_of
no_totals-IsTotalled = record {
  gross_total = refl;
  deduction_total = refl;
  net_total = refl;
  employer_total = refl;
  balance = refl;
}

payslip_balance :
    (e : Entry) → IsPayslip e → add64 e.net_pay e.total_deductions ≡ add64 e.gross_pay e.bonuses
payslip_balance e h = rw h.net_lines (
    add64-sub64 (add64 e.gross_pay e.bonuses) e.total_deductions (add64-Fits e.gross_pay e.bonuses))

pub add_entry-IsTotalled :
    (e : Entry) (t : Totals)
    → IsPayslip e
    → IsTotalled t
    → IsTotalled (add_entry e e.total_employer_cost t)
unfolding add_entry
add_entry-IsTotalled e t h i = record {
  gross_total = rw (sum_of-append (λ x. x.gross_pay) t.entries e, ← i.gross_total);
  deduction_total = rw (sum_of-append (λ x. x.total_deductions) t.entries e, ← i.deduction_total);
  net_total = rw (sum_of-append (λ x. x.net_pay) t.entries e, ← i.net_total);
  employer_total = rw (sum_of-append (λ x. x.total_employer_cost) t.entries e, ← i.employer_total);
  balance = rw (sum_of-append (λ x. x.bonuses) t.entries e) (
      add64_interchange t.net e.net_pay t.deductions e.total_deductions
      ∙ ap₂ add64 i.balance (payslip_balance e h)
      ∙ add64_interchange t.gross (sum_of (λ x. x.bonuses) t.entries) e.gross_pay e.bonuses);
}

-- The totals of a run over its entries.
pub record IsPayroll (run : Run) : Type 0 where
  pub is_draft : run.status ≡ Status.draft
  pub gross_total : run.total_gross_pay ≡ sum_of (λ e. e.gross_pay) run.entries
  pub deduction_total : run.total_deductions ≡ sum_of (λ e. e.total_deductions) run.entries
  pub net_total : run.total_net_pay ≡ sum_of (λ e. e.net_pay) run.entries
  pub employer_total : run.total_employer_costs ≡ sum_of (λ e. e.total_employer_cost) run.entries
  pub company_total : run.total_cost_to_company ≡ add64 run.total_gross_pay run.total_employer_costs
  pub balance :
      add64 run.total_net_pay run.total_deductions
      ≡ add64 run.total_gross_pay (sum_of (λ e. e.bonuses) run.entries)
