-- ===== src/Payroll/Calculation/Entries.antt =====
-- `calculateEmployeeEntry`, loop by loop. The running totals and the detail lines are one record.
-- The descriptions of the detail lines, which only repeat amounts for display, are left out.
use Prim.Native.String.{String}
use text.Mathlib.Text.{◌==◌ as str_eq}
use payflow_backend.Common.{
  Bool, true, false, Option, none, some, List, [], ◌∷◌, ◌++◌, ◌&&◌, ◌||◌, if◌then◌else◌,
}
use payflow_backend.Common.Int.{ℤ, pos, ltb_ℤ, leb_ℤ, eqb_ℤ}
use payflow_backend.Common.Int64.{add64, sub64, neg64}
use payflow_backend.Tax.Types.{Input, Result}
use payflow_backend.Tax.Selector.{calculate_for_country}
use payflow_backend.Payroll.Types.{
  ComponentType, EarningComponent, DeductionRuleType, CalculationBasis, DeductionRule, Cadre,
  Employee, Business, Loan, Adjustment, DetailType, Detail, Entry, Go,
}

-- The local variables of the function.
pub record Sheet : Type 0 where
  pub gross : ℤ
  pub deductions : ℤ
  pub bonus : ℤ
  pub basic_pay : ℤ
  pub housing_pay : ℤ
  pub transport_pay : ℤ
  pub other_pay : ℤ
  pub details : List Detail

abbrev pub empty_sheet : Sheet
empty_sheet = record {
  gross = pos 0;
  deductions = pos 0;
  bonus = pos 0;
  basic_pay = pos 0;
  housing_pay = pos 0;
  transport_pay = pos 0;
  other_pay = pos 0;
  details = [];
}

abbrev pub detail : DetailType → String → ℤ → Detail
detail t n a = record { detail_type = t; name = n; amount = a }

-- `details = append(details, ...)`
abbrev pub add_detail : DetailType → String → ℤ → Sheet → Sheet
add_detail t n a s = record s { details = s.details ++ (detail t n a ∷ []) }

-- The `switch` on the component's type.
unfoldable pub classify : ComponentType → ℤ → Sheet → Sheet
classify ComponentType.basic a s = record s { basic_pay = a }
classify ComponentType.housing a s = record s { housing_pay = a }
classify ComponentType.transport a s = record s { transport_pay = a }
classify ComponentType.other a s = record s { other_pay = add64 s.other_pay a }

unfoldable pub earnings : List EarningComponent → Sheet → Sheet
unfolding classify
earnings [] s = s
earnings (ec ∷ ecs) s =
    let s' = classify ec.component_type ec.amount (record s { gross = add64 s.gross ec.amount }) in
    earnings ecs (add_detail DetailType.earning ec.name ec.amount s')

-- A statutory deduction or a cost is listed only if it is positive; a deduction also counts.
unfoldable pub statutory : String → ℤ → Sheet → Sheet
statutory n a s =
    if ltb_ℤ (pos 0) a
    then add_detail DetailType.statutory_deduction n a
        (record s { deductions = add64 s.deductions a })
    else s

unfoldable pub employer_cost : String → ℤ → Sheet → Sheet
employer_cost n a s = if ltb_ℤ (pos 0) a then add_detail DetailType.employer_cost n a s else s

-- The instalment of this month: the monthly deduction, or what is left if that is less.
unfoldable pub instalment : Loan → ℤ
instalment l =
    if ltb_ℤ l.remaining_balance l.monthly_deduction
    then l.remaining_balance
    else l.monthly_deduction

-- `EmployeeAdjustment.ComponentType`, with "" inferred from the sign.
unfoldable pub component_of : Adjustment → String
component_of adj =
    if str_eq adj.component_type ""
    then if leb_ℤ (pos 0) adj.amount then "earnings" else "deduction"
    else adj.component_type

unfoldable pub adjust : Adjustment → Sheet → Sheet
unfolding component_of
adjust adj s =
    if leb_ℤ (pos 0) adj.amount
    then if str_eq (component_of adj) "earnings"
      then add_detail DetailType.earning adj.item_name adj.amount
          (record s { gross = add64 s.gross adj.amount })
      else add_detail DetailType.bonus adj.item_name adj.amount
          (record s { bonus = add64 s.bonus adj.amount })
    else add_detail DetailType.deduction adj.item_name (neg64 adj.amount)
        (record s { deductions = add64 s.deductions (neg64 adj.amount) })

unfoldable pub adjustments : List Adjustment → Sheet → Sheet
unfolding adjust
adjustments [] s = s
adjustments (adj ∷ adjs) s = adjustments adjs (adjust adj s)

module _ (go : Go) where
  open go use {Float, of_int64, to_int64, mul, div, hundred, equal_fold, append}

  is_basic_name : String → Bool
  is_basic_name n = equal_fold n "basic pay" || equal_fold n "basic salary" || equal_fold n "basic"

  unfoldable pub find_basic : List EarningComponent → ℤ → ℤ
  unfolding is_basic_name
  find_basic [] a = a
  find_basic (ec ∷ ecs) a = if is_basic_name ec.name then ec.amount else find_basic ecs a

  -- Without a component tagged as basic, the first with such a name.
  unfoldable pub basic_fallback : List EarningComponent → Sheet → Sheet
  unfolding find_basic
  basic_fallback ecs s =
      if eqb_ℤ s.basic_pay (pos 0) then record s { basic_pay = find_basic ecs s.basic_pay } else s

  abbrev is_basic_basis : CalculationBasis → Bool
  is_basic_basis CalculationBasis.basic_pay = true
  is_basic_basis CalculationBasis.gross_pay = false

  unfoldable pub rule_amount : DeductionRule Float → Sheet → ℤ
  rule_amount dr s = elim dr.rule_type [
    | DeductionRuleType.percentage ↦
        let base =
          if is_basic_basis dr.calculation_basis && ltb_ℤ (pos 0) s.basic_pay
          then s.basic_pay
          else s.gross in
        to_int64 (mul (of_int64 base) (div dr.value hundred))
    | DeductionRuleType.flat ↦ to_int64 dr.value
  ]

  unfoldable pub deduct_rules : List (DeductionRule Float) → Sheet → Sheet
  unfolding rule_amount
  deduct_rules [] s = s
  deduct_rules (dr ∷ drs) s =
      let a = rule_amount dr s in
      deduct_rules drs
        (add_detail DetailType.deduction dr.name a (record s { deductions = add64 s.deductions a }))

  unfoldable pub loan_repayments : List Loan → Sheet → Sheet
  unfolding instalment
  loan_repayments [] s = s
  loan_repayments (l ∷ ls) s =
      let a = instalment l in
      let s' =
        if leb_ℤ l.remaining_balance (pos 0)
        then s
        else add_detail DetailType.deduction (append "Loan Repayment: " l.description) a
            (record s { deductions = add64 s.deductions a }) in
      loan_repayments ls s'

  unfoldable pub tax_input : Employee Float → Business → Sheet → Input
  tax_input emp business s = record {
    basic_pay = s.basic_pay;
    housing_pay = s.housing_pay;
    transport_pay = s.transport_pay;
    other_pay = s.other_pay;
    gross_pay = s.gross;
    annual_rent_paid = emp.annual_rent_paid;
    pension_enabled = business.pension_enabled;
    nhf_enabled = business.nhf_enabled;
    nsitf_enabled = business.nsitf_enabled;
    paye_enabled = business.paye_enabled;
  }

  unfoldable pub statutory_details : Result → Sheet → Sheet
  unfolding statutory employer_cost
  statutory_details r s =
      let s1 = statutory "PAYE Income Tax" r.paye s in
      let s2 = statutory "Pension (Employee 8%)" r.employee_pension s1 in
      let s3 = statutory "NHF (2.5%)" r.nhf s2 in
      let s4 = employer_cost "Pension (Employer 10%)" r.employer_pension s3 in
      employer_cost "NSITF (Employer 1%)" r.nsitf s4

  -- The sheet when the statutory engine is called: earnings, basic pay and the cadre's own rules.
  unfoldable pub before_tax : Cadre Float → Sheet
  unfolding earnings basic_fallback deduct_rules
  before_tax cadre =
      deduct_rules cadre.deduction_rules
        (basic_fallback cadre.earning_components (earnings cadre.earning_components empty_sheet))

  -- The sheet at the end. `loans` is `none` where there is no loan repository or its query fails.
  unfoldable pub final_sheet : Result → Option (List Loan) → List Adjustment → Sheet → Sheet
  unfolding statutory_details loan_repayments adjustments
  final_sheet r loans adjs s =
      let s1 = statutory_details r s in
      let s2 : Sheet = elim loans [ none ↦ s1 | some ls ↦ loan_repayments ls s1 ] in
      adjustments adjs s2

  unfoldable pub calculate_employee_entry :
      Employee Float
      → Cadre Float
      → Business
      → Option (List Loan)
      → List Adjustment
      → Entry × Result
  unfolding before_tax tax_input final_sheet
  calculate_employee_entry emp cadre business loans adjs =
      let s = before_tax cadre in
      let r = calculate_for_country business.currency (tax_input emp business s) in
      let t = final_sheet r loans adjs s in
      (
        record {
          employee_id = emp.id;
          gross_pay = t.gross;
          total_deductions = t.deductions;
          bonuses = t.bonus;
          net_pay = sub64 (add64 t.gross t.bonus) t.deductions;
          employer_pension = r.employer_pension;
          employer_nsitf = r.nsitf;
          total_employer_cost = r.total_employer_costs;
          total_cost_to_company = add64 t.gross r.total_employer_costs;
          details = t.details;
        },
        r,
      )
