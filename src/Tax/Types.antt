-- ===== src/Tax/Types.antt =====
-- internal/service/tax/types.go and internal/service/tax/ghana/types.go. Amounts are int64 values.
use payflow_backend.Common.{Bool}
use payflow_backend.Common.Int.{ℤ}

pub record Input : Type 0 where
  pub basic_pay : ℤ
  pub housing_pay : ℤ
  pub transport_pay : ℤ
  pub other_pay : ℤ
  pub gross_pay : ℤ
  pub annual_rent_paid : ℤ
  pub pension_enabled : Bool
  pub nhf_enabled : Bool
  pub nsitf_enabled : Bool
  pub paye_enabled : Bool

pub record Result : Type 0 where
  pub paye : ℤ
  pub employee_pension : ℤ
  pub nhf : ℤ
  pub employer_pension : ℤ
  pub nsitf : ℤ
  pub pension_base : ℤ
  pub annual_gross : ℤ
  pub annual_taxable_income : ℤ
  pub rent_relief : ℤ
  pub total_employee_deductions : ℤ
  pub total_employer_costs : ℤ

pub record GhanaInput : Type 0 where
  pub basic_pay : ℤ
  pub housing_pay : ℤ
  pub transport_pay : ℤ
  pub other_pay : ℤ
  pub gross_pay : ℤ
  pub pension_enabled : Bool
  pub paye_enabled : Bool

pub record GhanaResult : Type 0 where
  pub paye : ℤ
  pub employee_pension : ℤ
  pub tier2_pension : ℤ
  pub employer_pension : ℤ
  pub pension_base : ℤ
  pub annual_gross : ℤ
  pub annual_taxable_income : ℤ
  pub total_employee_deductions : ℤ
  pub total_employer_costs : ℤ
