-- ===== src/Payroll/Types.antt =====
-- internal/domain/payroll.go, cadre.go, employee.go, business.go and loan.go: the fields that the
-- payroll code reads or writes. `F` is the type of a float64; amounts are int64 values in kobo.
use Prim.Native.String.{String}
use payflow_backend.Common.{ℕ, Bool, Option, List}
use payflow_backend.Common.Int.{ℤ}

pub data ComponentType : Type 0 where
  basic housing transport other : ComponentType

pub record EarningComponent : Type 0 where
  pub name : String
  pub amount : ℤ
  pub component_type : ComponentType

pub data DeductionRuleType : Type 0 where
  percentage flat : DeductionRuleType

pub data CalculationBasis : Type 0 where
  gross_pay basic_pay : CalculationBasis

pub record DeductionRule (F : Type 0) : Type 0 where
  pub name : String
  pub rule_type : DeductionRuleType
  pub value : F
  pub calculation_basis : CalculationBasis

pub record Cadre (F : Type 0) : Type 0 where
  pub id : ℕ
  pub business_id : ℕ
  pub name : String
  pub earning_components : List EarningComponent
  pub deduction_rules : List (DeductionRule F)

pub record Employee (F : Type 0) : Type 0 where
  pub id : ℕ
  pub cadre_id : ℕ
  pub full_name : String
  pub bank_name : String
  pub bank_account_number : String
  pub is_active : Bool
  pub bank_account_verified : Bool
  pub annual_rent_paid : ℤ
  pub cadre : Option (Cadre F)

pub record Business : Type 0 where
  pub payroll_requires_approval : Bool
  pub payroll_auto_process : Bool
  pub pension_enabled : Bool
  pub nhf_enabled : Bool
  pub nsitf_enabled : Bool
  pub paye_enabled : Bool
  pub currency : String
  pub subscription_tier : String

pub data LoanStatus : Type 0 where
  active completed cancelled : LoanStatus

pub record Loan : Type 0 where
  pub id : ℕ
  pub business_id : ℕ
  pub employee_id : ℕ
  pub loan_amount : ℤ
  pub monthly_deduction : ℤ
  pub total_repaid : ℤ
  pub remaining_balance : ℤ
  pub status : LoanStatus
  pub description : String

-- `component_type` is free text: "" asks for it to be inferred from the sign.
pub record Adjustment : Type 0 where
  pub item_name : String
  pub amount : ℤ
  pub component_type : String

pub data DetailType : Type 0 where
  earning deduction bonus statutory_deduction employer_cost : DetailType

pub record Detail : Type 0 where
  pub detail_type : DetailType
  pub name : String
  pub amount : ℤ

pub record Entry : Type 0 where
  pub employee_id : ℕ
  pub gross_pay : ℤ
  pub total_deductions : ℤ
  pub bonuses : ℤ
  pub net_pay : ℤ
  pub employer_pension : ℤ
  pub employer_nsitf : ℤ
  pub total_employer_cost : ℤ
  pub total_cost_to_company : ℤ
  pub details : List Detail

pub data Status : Type 0 where
  draft pending_approval approved processing completed rejected failed : Status

-- The first day of a month, and the totals over the entries.
pub record Run : Type 0 where
  pub id : ℕ
  pub business_id : ℕ
  pub period : ℕ × ℕ
  pub status : Status
  pub total_gross_pay : ℤ
  pub total_deductions : ℤ
  pub total_net_pay : ℤ
  pub total_employer_costs : ℤ
  pub total_cost_to_company : ℤ
  pub scheduled_for : ℕ
  pub entries : List Entry

-- What the code takes from Go's standard library: float64 arithmetic, conversions and text
-- comparison without regard to case, and the calendar.
pub record Go : Type 1 where
  pub Float : Type 0
  pub of_int64 : ℤ → Float
  pub to_int64 : Float → ℤ
  pub mul : Float → Float → Float
  pub div : Float → Float → Float
  pub hundred : Float
  pub equal_fold : String → String → Bool
  pub append : String → String → String
  pub add_days : ℕ → ℕ → ℕ
