-- ===== src/Payroll/Calculation/Details.antt =====
-- The detail lines of an entry account for its totals: an invariant that every loop keeps.
use Prim.Native.String.{String}
use payflow_backend.Common.{
  ◌≡◌, refl, Bool, true, false, Option, none, some, List, [], ◌∷◌, ◌++◌, if◌then◌else◌, arith, inl,
  inr, Bool-cases, if-holds,
}
use payflow_backend.Common.Int.{ℤ, pos, leb_ℤ, ltb_ℤ}
use payflow_backend.Common.Int64.{add64, neg64}
use payflow_backend.Tax.Types.{Result}
use payflow_backend.Payroll.Types.{
  EarningComponent, DeductionRule, Cadre, Loan, Adjustment, DetailType, Detail, Go,
}
use payflow_backend.Payroll.Calculation.Entries.{
  Sheet, empty_sheet, detail, add_detail, classify, earnings, statutory, employer_cost, instalment,
  adjust, adjustments, basic_fallback, find_basic, rule_amount, deduct_rules, loan_repayments,
  statutory_details, before_tax, final_sheet,
}

abbrev pub is_earning : DetailType → Bool
is_earning DetailType.earning = true
is_earning _ = false

abbrev pub is_bonus : DetailType → Bool
is_bonus DetailType.bonus = true
is_bonus _ = false

-- Deductions by rule, loan or adjustment, and statutory ones.
abbrev pub is_deducted : DetailType → Bool
is_deducted DetailType.deduction = true
is_deducted DetailType.statutory_deduction = true
is_deducted _ = false

-- The int64 sum, from left to right, of the lines of some kind.
module _ (kind : DetailType → Bool) where
  tally_from : ℤ → List Detail → ℤ
  tally_from acc [] = acc
  tally_from acc (d ∷ ds) = tally_from (if kind d.detail_type then add64 acc d.amount else acc) ds

  unfoldable pub tally : List Detail → ℤ
  unfolding tally_from
  tally ds = tally_from (pos 0) ds

  tally_from-append :
      (acc : ℤ) (ds : List Detail) (d : Detail)
      → tally_from acc (ds ++ (d ∷ []))
        ≡ (if kind d.detail_type then add64 (tally_from acc ds) d.amount else tally_from acc ds)
  unfolding tally_from
  tally_from-append acc [] d = refl
  tally_from-append acc (e ∷ ds) d =
      tally_from-append (if kind e.detail_type then add64 acc e.amount else acc) ds d

  tally-append :
      (ds : List Detail) (d : Detail)
      → tally (ds ++ (d ∷ []))
        ≡ (if kind d.detail_type then add64 (tally ds) d.amount else tally ds)
  unfolding tally
  tally-append ds d = tally_from-append (pos 0) ds d

-- Each total of the sheet is the sum of its own lines.
pub record Reconciles (s : Sheet) : Type 0 where
  pub gross_lines : s.gross ≡ tally is_earning s.details
  pub bonus_lines : s.bonus ≡ tally is_bonus s.details
  pub deduction_lines : s.deductions ≡ tally is_deducted s.details

empty_sheet-Reconciles : Reconciles empty_sheet
unfolding tally
empty_sheet-Reconciles = record { gross_lines = refl; bonus_lines = refl; deduction_lines = refl }

-- A line is added together with its amount, in one of three totals or in none.
add_line :
    (t : DetailType) (n : String) (a : ℤ) (s s' : Sheet)
    → Reconciles s
    → s'.details ≡ s.details
    → s'.gross ≡ (if is_earning t then add64 s.gross a else s.gross)
    → s'.bonus ≡ (if is_bonus t then add64 s.bonus a else s.bonus)
    → s'.deductions ≡ (if is_deducted t then add64 s.deductions a else s.deductions)
    → Reconciles (add_detail t n a s')
add_line t n a s s' r same g b d =
    let line = detail t n a in
    record {
      gross_lines = rw (same, tally-append is_earning s.details line, g, ← r.gross_lines);
      bonus_lines = rw (same, tally-append is_bonus s.details line, b, ← r.bonus_lines);
      deduction_lines = rw (same, tally-append is_deducted s.details line, d, ← r.deduction_lines);
    }

earnings-Reconciles :
    (ecs : List EarningComponent) (s : Sheet) → Reconciles s → Reconciles (earnings ecs s)
unfolding earnings
earnings-Reconciles [] s r = r
earnings-Reconciles (ec ∷ ecs) s r = earnings-Reconciles ecs _ (
    add_line DetailType.earning ec.name ec.amount s
      (classify ec.component_type ec.amount (record s { gross = add64 s.gross ec.amount })) r
      (unfold classify in ground arith) (ground arith) (ground arith) (ground arith))

statutory-Reconciles :
    (n : String) (a : ℤ) (s : Sheet) → Reconciles s → Reconciles (statutory n a s)
unfolding statutory
statutory-Reconciles n a s r = elim (Bool-cases (ltb_ℤ (pos 0) a)) [
  | inl owed ↦ rw owed (
      add_line DetailType.statutory_deduction n a s (record s { deductions = add64 s.deductions a })
        r refl refl refl refl)
  | inr nothing ↦ rw nothing r
]

employer_cost-Reconciles :
    (n : String) (a : ℤ) (s : Sheet) → Reconciles s → Reconciles (employer_cost n a s)
unfolding employer_cost
employer_cost-Reconciles n a s r = elim (Bool-cases (ltb_ℤ (pos 0) a)) [
  | inl owed ↦ rw owed (add_line DetailType.employer_cost n a s s r refl refl refl refl)
  | inr nothing ↦ rw nothing r
]

adjust-Reconciles : (adj : Adjustment) (s : Sheet) → Reconciles s → Reconciles (adjust adj s)
unfolding adjust
adjust-Reconciles adj s r =
    if-holds Reconciles _ _ _
      (if-holds Reconciles _ _ _
        (add_line DetailType.earning adj.item_name adj.amount s
          (record s { gross = add64 s.gross adj.amount }) r refl refl refl refl)
        (add_line DetailType.bonus adj.item_name adj.amount s
          (record s { bonus = add64 s.bonus adj.amount }) r refl refl refl refl))
      (add_line DetailType.deduction adj.item_name (neg64 adj.amount) s
        (record s { deductions = add64 s.deductions (neg64 adj.amount) }) r refl refl refl refl)

adjustments-Reconciles :
    (adjs : List Adjustment) (s : Sheet) → Reconciles s → Reconciles (adjustments adjs s)
unfolding adjustments
adjustments-Reconciles [] s r = r
adjustments-Reconciles (adj ∷ adjs) s r =
    adjustments-Reconciles adjs (adjust adj s) (adjust-Reconciles adj s r)

module _ (go : Go) where
  open go use {Float, append}

  basic_fallback-Reconciles :
      (ecs : List EarningComponent) (s : Sheet)
      → Reconciles s
      → Reconciles (basic_fallback go ecs s)
  unfolding basic_fallback
  basic_fallback-Reconciles ecs s r =
      if-holds Reconciles _ (record s { basic_pay = find_basic go ecs s.basic_pay }) s
        (record {
          gross_lines = r.gross_lines;
          bonus_lines = r.bonus_lines;
          deduction_lines = r.deduction_lines;
        })
        r

  deduct_rules-Reconciles :
      (drs : List (DeductionRule Float)) (s : Sheet)
      → Reconciles s
      → Reconciles (deduct_rules go drs s)
  unfolding deduct_rules
  deduct_rules-Reconciles [] s r = r
  deduct_rules-Reconciles (dr ∷ drs) s r =
      let a = rule_amount go dr s in
      deduct_rules-Reconciles drs _ (
        add_line DetailType.deduction dr.name a s (record s { deductions = add64 s.deductions a }) r
          refl refl refl refl)

  loan_repayments-Reconciles :
      (ls : List Loan) (s : Sheet) → Reconciles s → Reconciles (loan_repayments go ls s)
  unfolding loan_repayments
  loan_repayments-Reconciles [] s r = r
  loan_repayments-Reconciles (l ∷ ls) s r =
      let a = instalment l in
      loan_repayments-Reconciles ls _ (
        if-holds Reconciles (leb_ℤ l.remaining_balance (pos 0)) s _ r (
          add_line DetailType.deduction (append "Loan Repayment: " l.description) a s
            (record s { deductions = add64 s.deductions a }) r refl refl refl refl))

  pub before_tax-Reconciles : (cadre : Cadre Float) → Reconciles (before_tax go cadre)
  unfolding before_tax
  before_tax-Reconciles cadre = deduct_rules-Reconciles cadre.deduction_rules _ (
      basic_fallback-Reconciles cadre.earning_components _
        (earnings-Reconciles cadre.earning_components empty_sheet empty_sheet-Reconciles))

  statutory_details-Reconciles :
      (t : Result) (s : Sheet) → Reconciles s → Reconciles (statutory_details go t s)
  unfolding statutory_details
  statutory_details-Reconciles t s r = employer_cost-Reconciles _ t.nsitf _ (
      employer_cost-Reconciles _ t.employer_pension _ (
        statutory-Reconciles _ t.nhf _
          (statutory-Reconciles _ t.employee_pension _ (statutory-Reconciles _ t.paye s r))))

  pub final_sheet-Reconciles :
      (t : Result) (loans : Option (List Loan)) (adjs : List Adjustment) (s : Sheet)
      → Reconciles s
      → Reconciles (final_sheet go t loans adjs s)
  unfolding final_sheet
  final_sheet-Reconciles t none adjs s r =
      adjustments-Reconciles adjs _ (statutory_details-Reconciles t s r)
  final_sheet-Reconciles t (some ls) adjs s r =
      adjustments-Reconciles adjs _
        (loan_repayments-Reconciles ls _ (statutory_details-Reconciles t s r))
